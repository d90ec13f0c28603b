-- ===== src/Service/Auth/Revocation.antt =====
-- `Logout` of internal/service/auth/service.go, and what it means for `Authenticate`.
use dst_go_backend.Base.{
  ℕ, ◌≤◌, ◌<◌, ◌≡◌, ◌∙◌, Bool, true, false, String, some, arith, inl, inr, Bool-cases,
}
use native.Mathlib.Decide.{dec_lt}
use dst_go_backend.Apperr.{ok, is_ok}
use dst_go_backend.Act.{Result-cases}
use dst_go_backend.Strings.{is_empty}
use dst_go_backend.Platform.Redis.{TextLaws}
use dst_go_backend.Platform.Jwt.{CustomClaims, JwtLaws, parse_token}
use dst_go_backend.Platform.Jwt.Expiry.{parse_token-expires, parse_token-same}
use dst_go_backend.Repository.Cache.AuthCache.{blacklist_key, is_token_in_blacklist}
use dst_go_backend.Repository.Cache.AuthCache.Effects.{
  is_token_in_blacklist_lem, add_token_to_blacklist_lem,
}
use dst_go_backend.Service.World.{Env, World}
use dst_go_backend.Service.Auth.{authenticate, logout, revoke_token, remaining}

module _ (e : Env) (texts : TextLaws e.redis) where
  -- A token whose blacklist key is set is not let in.
  pub authenticate-blacklisted :
      (token v : String) (w : World e)
      → e.redis.text_at w.now (blacklist_key token) w.store ≡ some v
      → is_ok (authenticate e token w).0 ≡ false
  unfolding authenticate
  authenticate-blacklisted token v w held =
      elim (Result-cases (parse_token e.jwt e.jwt_config w.now token false)) [
        | inl (x, p) ↦ ground (arith, p)
        | inr (claims, p) ↦
            elim (Result-cases (is_token_in_blacklist e.redis w.now token w.store).0) [
              | inl (x, q) ↦ ground (arith, p, q)
              | inr (listed, q) ↦
                  ground (
                    arith,
                    p,
                    q,
                    is_token_in_blacklist_lem e.redis texts w.now token v w.store held,
                  )
            ]
      ]

  -- A token that is revoked without error while it is valid has its key set until it expires.
  revoke_token_lem :
      (token : String) (is_refresh : Bool) (w w' : World e) (claims : CustomClaims) (x u : ℕ)
      → revoke_token e token is_refresh w ≡ (ok tt, w')
      → is_empty token ≡ false
      → parse_token e.jwt e.jwt_config w.now token is_refresh ≡ ok claims
      → claims.registered.expires_at ≡ some x
      → w.now ≤ u
      → u < x
      → e.redis.text_at u (blacklist_key token) w'.store ≡ some "1"
  unfolding revoke_token
  revoke_token_lem token is_refresh w w' claims x u h full p q later soon =
      let put =
        add_token_to_blacklist_lem e.redis texts w.now u (remaining x w.now) token w.store
          w'.store in
      ground (arith, put)

  revoke_token-now :
      (token : String) (is_refresh : Bool) (w : World e)
      → (revoke_token e token is_refresh w).1.now ≡ w.now
  unfolding revoke_token
  revoke_token-now token is_refresh w =
      elim (Result-cases (parse_token e.jwt e.jwt_config w.now token is_refresh)) [
        | inl (x, p) ↦ ground (arith, p)
        | inr (claims, p) ↦ ground (arith, p)
      ]

  logout_lem :
      (token refresh : String) (w w' : World e) (claims : CustomClaims) (x u : ℕ)
      → logout e token refresh w ≡ (ok tt, w')
      → is_empty token ≡ false
      → parse_token e.jwt e.jwt_config w.now token false ≡ ok claims
      → claims.registered.expires_at ≡ some x
      → w.now ≤ u
      → u < x
      → e.redis.text_at u (blacklist_key token) w'.store ≡ some "1"
  unfolding logout
  logout_lem token refresh w w' claims x u h full p q later soon =
      let first = revoke_token e refresh true w in
      let same = revoke_token-now refresh true w in
      elim (Result-cases first.0) [
        | inl (y, r) ↦ absurd (ground (arith, h, r))
        | inr (y, r) ↦
            revoke_token_lem token false first.1 w' claims x u (ground (arith, h, r)) full
              (rw same p) q (rw same later) soon
      ]

  -- With the laws of `TextLaws` and `JwtLaws`: after a logout that reported success, the access
  -- token is not let in at any later time, if it was valid then and nothing else has touched its
  -- key: the key outlives the token.
  pub logout-authenticate :
      JwtLaws e.jwt
      → (token refresh : String) (w w' v : World e) (claims : CustomClaims)
      → logout e token refresh w ≡ (ok tt, w')
      → parse_token e.jwt e.jwt_config w.now token false ≡ ok claims
      → w.now ≤ v.now
      → e.redis.text_at v.now (blacklist_key token) v.store
        ≡ e.redis.text_at v.now (blacklist_key token) w'.store
      → is_ok (authenticate e token v).0 ≡ false
  unfolding authenticate
  logout-authenticate jwt token refresh w w' v claims h p later kept =
      elim (Bool-cases (is_empty token)) [
        | inl blank ↦ ground (arith, blank)
        | inr full ↦
            let (x, q, valid) =
              parse_token-expires e.jwt e.jwt_config jwt w.now token false claims p in
            elim (dec_lt v.now x) [
              | yes early ↦
                  authenticate-blacklisted token "1" v
                    (kept ∙ logout_lem token refresh w w' claims x v.now h full p q later early)
              | no late ↦ elim (Result-cases (parse_token e.jwt e.jwt_config v.now token false)) [
                | inl (y, r) ↦ ground (arith, r)
                | inr (d, r) ↦
                    let (y, q', ahead) =
                      parse_token-expires e.jwt e.jwt_config jwt v.now token false d r in
                    let same =
                      parse_token-same e.jwt e.jwt_config jwt w.now v.now token false false claims d
                        p r in
                    absurd (ground (arith, same, q, q', ahead, late))
              ]
            ]
      ]
