-- ===== src/Http/Guard.antt =====
-- What the routes behind `Auth` of internal/middleware/auth.go can rely on.

use dst_go_backend.Base.{
  ℕ, ◌≡◌, refl, ◌∙◌, ap, Bool, true, false, not, ◌||◌, ◌==◌, String, str_eq, eq_iff, Option, none,
  some, arith, is_int, if◌then◌else◌,
}
use dst_go_backend.Apperr.{Error, biz, Result, ok, err}
use dst_go_backend.Act.Fails.{
  Fails, Passes, thrown, returned, bind-Fails, recode-Fails, guard-Fails,
}
use dst_go_backend.Strings.{is_empty}
use dst_go_backend.Strings.Split.{split_once}
use dst_go_backend.Platform.Jwt.{CustomClaims}
use dst_go_backend.Repository.User.{User}
use dst_go_backend.Repository.Cache.AuthCache.{is_token_in_blacklist}
use dst_go_backend.Http.{Context, Response, fail, fail_with_msg, json_response}
use dst_go_backend.Http.Middleware.{auth, admit, check_parts}
use dst_go_backend.Http.Users.{Config}
use dst_go_backend.Http.Router.{Protected, protected_handler, protected, route_handler}
use dst_go_backend.Service.World.{Env, World, on_redis}
use dst_go_backend.Service.Auth.{Identity, authenticate, identify, parsed, user_by_id}

-- Business errors with a status that is no success.
abbrev pub is_refusal : Error → Bool
is_refusal (biz code msg) = code == 401 || code == 500
is_refusal _ = false

module _ (e : Env) where
  identify-Fails :
      (claims : CustomClaims) (user : Option User) → Fails is_refusal (identify e claims user)
  identify-Fails claims none = thrown (World e) Identity is_refusal (biz 401 "登录状态已失效") refl
  identify-Fails claims (some user) =
      guard-Fails is_refusal
        (not (is_int user.status 1) || not (user.token_version == claims.token_version))
        (biz 401 "登录状态已失效") _ refl (returned (World e) Identity is_refusal _)

  authenticate-Fails : (token : String) → Fails is_refusal (authenticate e token)
  unfolding authenticate
  authenticate-Fails token = guard-Fails is_refusal (is_empty token) (biz 401 "登录凭证缺失") _ refl (
      bind-Fails is_refusal _ _
        (recode-Fails is_refusal (biz 401 "登录凭证无效或已过期") (parsed e token false) refl)
        (λ claims.
          bind-Fails is_refusal _ _
            (recode-Fails is_refusal (biz 500 "身份认证服务不可用")
              (on_redis e (λ now. is_token_in_blacklist e.redis now token)) refl)
            (λ is_blacklisted. guard-Fails is_refusal is_blacklisted (biz 401 "登录凭证已注销") _ refl (
              bind-Fails is_refusal _ _
                (recode-Fails is_refusal (biz 500 "身份认证服务不可用") (user_by_id e claims.user_id) refl)
                (λ user. identify-Fails claims user)))))

-- A refusal is never written with the status of a success.
pub refusal-status : (c : Context) (x : Error) → is_refusal x ≡ true → ¬ ((fail c x).status ≡ 200)
unfolding fail fail_with_msg json_response
refusal-status c (biz code msg) h is = ground (arith, h, is)
refusal-status c _ h is = ground (arith, h)

-- Who was let in: the handler has run behind `Auth`, for the user that the token names.
abbrev pub Admitted :
    (e : Env) → Config → Protected → Context → World e → Response × World e → Type 0
Admitted e config p c w answered =
    (token : String) × (identity : Identity) × (v : World e) × (split_once c.authorization
      ≡ some ("Bearer", token))
    × (authenticate e token w ≡ (ok identity, v))
    × (answered ≡ protected_handler e config p (record c { identity = some identity }) v)

module _ (e : Env) (config : Config) (p : Protected) (c : Context) (w : World e) where
  -- The whole of `Auth` on a header with two parts.
  parts-Admitted :
      (scheme token : String)
      → split_once c.authorization ≡ some (scheme, token)
      → str_eq scheme "Bearer" ≡ true
      → (q : Result Identity) (v : World e) → authenticate e token w ≡ (q, v)
      → Passes is_refusal q
      → (admit e q (protected_handler e config p) c v).0.status ≡ 200
      → Admitted e config p c w (admit e q (protected_handler e config p) c v)
  parts-Admitted scheme token split same (err x) v ran refused h =
      absurd (refusal-status c x refused h)
  parts-Admitted scheme token split same (ok identity) v ran refused h = (
    token,
    identity,
    v,
    split ∙ ap (λ s. some (s, token)) ((eq_iff scheme "Bearer").0 same),
    ran,
    refl,
  )

  no_success :
      (n : ℕ) (msg : String) → (n == 200) ≡ false → ¬ ((fail_with_msg c n msg).status ≡ 200)
  unfolding fail_with_msg json_response
  no_success n msg other h = ground (arith, other, h)

  -- Both tests of the header.
  scheme-Admitted :
      (scheme token : String)
      → split_once c.authorization ≡ some (scheme, token)
      → (b : Bool) → str_eq scheme "Bearer" ≡ b
      → (let r = authenticate e token w in
          if b
          then admit e r.0 (protected_handler e config p) c r.1
          else (fail_with_msg c 401 "登录凭证格式错误", w)).0.status
        ≡ 200
      → Admitted e config p c w (
          let r = authenticate e token w in
          if b
          then admit e r.0 (protected_handler e config p) c r.1
          else (fail_with_msg c 401 "登录凭证格式错误", w))
  unfolding Fails
  scheme-Admitted scheme token split false same h = absurd (no_success 401 _ refl h)
  scheme-Admitted scheme token split true same h =
      parts-Admitted scheme token split same _ _ refl (authenticate-Fails e token w) h

  header-Admitted :
      (o : Option (String × String))
      → split_once c.authorization ≡ o
      → (check_parts e o (protected_handler e config p) c w).0.status ≡ 200
      → Admitted e config p c w (check_parts e o (protected_handler e config p) c w)
  header-Admitted none split h = absurd (no_success 401 _ refl h)
  header-Admitted (some (scheme, token)) split h =
      scheme-Admitted scheme token split (str_eq scheme "Bearer") refl h

  blank_or-Admitted :
      (b : Bool) (rest : Response × World e)
      → (rest.0.status ≡ 200 → Admitted e config p c w rest)
      → (if b then (fail_with_msg c 401 "登录凭证缺失", w) else rest).0.status ≡ 200
      → Admitted e config p c w (if b then (fail_with_msg c 401 "登录凭证缺失", w) else rest)
  blank_or-Admitted true rest k h = absurd (no_success 401 _ refl h)
  blank_or-Admitted false rest k h = k h

  -- A protected route that answers 200 has let its caller in: the header was a Bearer token that
  -- `Authenticate` accepts, and the answer is the handler's, for the user that it returned.
  pub route_handler-Admitted :
      (route_handler e config (protected p) c w).0.status ≡ 200
      → Admitted e config p c w (route_handler e config (protected p) c w)
  unfolding route_handler auth
  route_handler-Admitted h =
      blank_or-Admitted (is_empty c.authorization) _
        (header-Admitted (split_once c.authorization) refl) h
