-- ===== src/Repository/Cache/AuthCache.antt =====
-- internal/repository/cache/auth_cache.go: the token blacklist and the password reset tokens. A
-- lifetime that is not positive is 0. The JSON coding of the reset data is an argument.
pub mod Effects
use Prim.Native.String.{◌++◌}
use dst_go_backend.Base.{ℕ, String, Bool, true, false, Option, none, some, ltb, leb, if◌then◌else◌}
use dst_go_backend.Apperr.{Error, other, redis_nil, Result, ok, err}
use dst_go_backend.Act.{Act, pure, throw, ◌>>=◌, ◌>>◌, throw_if, need, attempt}
use dst_go_backend.Strings.{is_empty}
use dst_go_backend.Platform.Redis.{Redis, call}

pub record ResetTokenData : Type 0 where
  pub user_id : ℕ
  pub token_version : ℕ

pub record ResetCodec : Type 0 where
  pub marshal : ResetTokenData → Option String
  pub unmarshal : String → Option ResetTokenData

abbrev pub blacklist_key : String → String
blacklist_key token = "token_blacklist:" ++ token

abbrev pub reset_key : String → String
reset_key token = "reset_token:" ++ token

-- `client.Get`: a missing key is the error `redis.Nil`.
abbrev pub found_text : Option String → Result String
found_text none = err redis_nil
found_text (some v) = ok v

module _ (r : Redis) (now : ℕ) where
  unfoldable pub add_token_to_blacklist : String → ℕ → Act r.State (Unit {0})
  add_token_to_blacklist token ttl = call r (λ s. (tt, r.set now (blacklist_key token) "1" ttl s))

  unfoldable pub is_token_in_blacklist : String → Act r.State Bool
  is_token_in_blacklist token = do
    exists ← call r (λ s. (r.exists now (blacklist_key token) s, s))
    pure (ltb 0 exists)

  unfoldable pub consume_refresh_token : String → ℕ → Act r.State Bool
  consume_refresh_token token ttl = do
    throw_if (is_empty token) (other "刷新凭证为空")
    throw_if (leb ttl 0) (other "刷新凭证已过期")
    call r (r.setnx now (blacklist_key token) "1" ttl)

  module _ (codec : ResetCodec) where
    unfoldable pub set_reset_token : String → ℕ → ℕ → ℕ → Act r.State (Unit {0})
    set_reset_token token user_id token_version ttl = do
      text ←
          need (codec.marshal (record { user_id = user_id; token_version = token_version }))
            (other "密码重置凭证序列化失败")
      call r (λ s. (tt, r.set now (reset_key token) text ttl s))

    abbrev read_reset : Option String → Act r.State (Option ResetTokenData)
    read_reset none = pure none
    read_reset (some text) = do
      found ← need (codec.unmarshal text) (other "json")
      pure (some found)

    unfoldable pub get_reset_token : String → Act r.State (Option ResetTokenData)
    get_reset_token token = do
      val ← call r (λ s. (r.get now (reset_key token) s, s))
      read_reset val

  unfoldable pub del_reset_token : String → Act r.State (Unit {0})
  del_reset_token token = call r (λ s. (tt, r.del now (reset_key token) s))
