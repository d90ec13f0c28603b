-- ===== src/Repository/Cache/SmsCache.antt =====
-- internal/repository/cache/sms_cache.go: one code for a phone number, with its wrong attempts. The
-- two Lua scripts are functions over the server's commands, which the server runs in one step.
pub mod Attempts
use Prim.Native.String.{◌++◌}
use dst_go_backend.Base.{
  ℕ, zero, String, Bool, false, Option, none, some, [], ◌∷◌, leb, str_eq, ℤ, pos, negsuc, is_int,
  if◌then◌else◌,
}
use dst_go_backend.Apperr.{other, sms_attempts_exceeded}
use dst_go_backend.Act.{Act, pure, throw, ◌>>=◌, ◌>>◌, throw_if}
use dst_go_backend.Platform.Redis.{Redis, call}

abbrev pub code_key : String → String
code_key phone = "sms_code:" ++ phone

module _ (r : Redis) (now : ℕ) where
  unfoldable pub set_code_lua : String → String → ℕ → r.State → ℕ × r.State
  set_code_lua key code ttl s =
      (1, r.pexpire now key ttl (r.hset now key (("code", code) ∷ ("attempts", "0") ∷ []) s))

  abbrev wrong_code : String → r.State → ℤ × r.State
  wrong_code key s =
      let (attempts, s') = r.hincrby now key "attempts" 1 s in
      if leb 3 attempts then (negsuc 0, r.del now key s') else (pos 0, s')

  abbrev compare_code : String → String → Option String → r.State → ℤ × r.State
  compare_code key given none s = (pos 0, s)
  compare_code key given (some cached) s =
      if str_eq cached given then (pos 1, r.del now key s) else wrong_code key s

  unfoldable pub consume_code_lua : String → String → r.State → ℤ × r.State
  consume_code_lua key given s = compare_code key given (r.hget now key "code" s) s

  unfoldable pub set_code : String → String → ℕ → Act r.State (Unit {0})
  unfolding set_code_lua
  set_code phone code ttl = do
    throw_if (leb ttl 0) (other "短信验证码有效期须至少为 1 毫秒")
    call r (set_code_lua (code_key phone) code ttl)
    pure tt

  abbrev pub read_result : ℤ → Act r.State Bool
  read_result (negsuc zero) = throw sms_attempts_exceeded
  read_result (negsuc n) = pure false
  read_result (pos n) = pure (is_int (pos n) 1)

  unfoldable pub consume_code : String → String → Act r.State Bool
  unfolding consume_code_lua
  consume_code phone code = do
    result ← call r (consume_code_lua (code_key phone) code)
    read_result result

  unfoldable pub del_code : String → Act r.State (Unit {0})
  del_code phone = call r (λ s. (tt, r.del now (code_key phone) s))
