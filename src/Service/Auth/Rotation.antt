-- ===== src/Service/Auth/Rotation.antt =====
-- `RefreshToken` of internal/service/auth/service.go: a refresh token is good for one rotation.
use dst_go_backend.Base.{
  ℕ, ◌+◌, ◌≤◌, ◌<◌, ◌≡◌, refl, ◌∙◌, true, false, String, none, some, arith, inl, inr, Option-cases,
}
use native.Mathlib.Decide.{dec_lt}
use dst_go_backend.Apperr.{ok, is_ok}
use dst_go_backend.Act.{Result-cases}
use dst_go_backend.Platform.Redis.{TextLaws}
use dst_go_backend.Platform.Jwt.{CustomClaims, JwtLaws, parse_token}
use dst_go_backend.Platform.Jwt.Expiry.{parse_token-expires, parse_token-same}
use dst_go_backend.Repository.User
use dst_go_backend.Repository.User.{User}
use dst_go_backend.Repository.Cache.AuthCache.{blacklist_key, consume_refresh_token}
use dst_go_backend.Repository.Cache.AuthCache.Effects.{
  consume_refresh_token_lem, consume_refresh_token_used,
}
use dst_go_backend.Service.World.{Env, World}
use dst_go_backend.Service.Auth.{refresh_token, exchange, remaining, sign_access, sign_refresh}

module _ (e : Env) (texts : TextLaws e.redis) where
  sign_access-store :
      (u : User) (w : World e)
      → ((sign_access e u w).1.store ≡ w.store) × ((sign_access e u w).1.now ≡ w.now)
  unfolding sign_access
  sign_access-store u w = (refl, refl)

  sign_refresh-store :
      (u : User) (w : World e)
      → ((sign_refresh e u w).1.store ≡ w.store) × ((sign_refresh e u w).1.now ≡ w.now)
  unfolding sign_refresh
  sign_refresh-store u w = (refl, refl)

  exchange_lem :
      (token : String) (user : User) (ttl u : ℕ) (w w' : World e) (pair : String × String)
      → exchange e token user ttl w ≡ (ok pair, w')
      → w.now ≤ u
      → u < w.now + ttl
      → e.redis.text_at u (blacklist_key token) w'.store ≡ some "1"
  unfolding exchange
  exchange_lem token user ttl u w w' pair h later soon =
      let a = sign_access e user w in
      let b = sign_refresh e user a.1 in
      elim (Result-cases a.0) [
        | inl (y, g) ↦ absurd (ground (arith, h))
        | inr (access, g) ↦ elim (Result-cases b.0) [
          | inl (y, k) ↦ absurd (ground (arith, h))
          | inr (refresh, k) ↦ ground (
            arith,
            h,
            sign_access-store user w,
            sign_refresh-store user a.1,
            consume_refresh_token_lem e.redis texts b.1.now u ttl token b.1.store w'.store,
          )
        ]
      ]

  exchange-used :
      (token v : String) (user : User) (ttl : ℕ) (w : World e)
      → e.redis.text_at w.now (blacklist_key token) w.store ≡ some v
      → is_ok (exchange e token user ttl w).0 ≡ false
  unfolding exchange
  exchange-used token v user ttl w held =
      let a = sign_access e user w in
      let b = sign_refresh e user a.1 in
      elim (Result-cases a.0) [
        | inl (y, g) ↦ ground (arith, g)
        | inr (access, g) ↦ elim (Result-cases b.0) [
          | inl (y, k) ↦ ground (arith, g, k)
          | inr (refresh, k) ↦
              elim (Result-cases (consume_refresh_token e.redis b.1.now token ttl b.1.store).0) [
                | inl (y, c) ↦ ground (arith, g, k, c)
                | inr (consumed, c) ↦ ground (
                  arith,
                  g,
                  k,
                  c,
                  sign_access-store user w,
                  sign_refresh-store user a.1,
                  consume_refresh_token_used e.redis texts b.1.now ttl token v b.1.store,
                )
              ]
        ]
      ]

  found : ℕ → World e → World e
  found id w = record w { db = (User.get_by_id e.users id w.db).1 }

  -- A rotation that succeeds sets the key of the old token until that token expires.
  refresh_token_lem :
      (token : String) (w w' : World e) (claims : CustomClaims) (x u : ℕ) (pair : String × String)
      → refresh_token e token w ≡ (ok pair, w')
      → parse_token e.jwt e.jwt_config w.now token true ≡ ok claims
      → claims.registered.expires_at ≡ some x
      → w.now ≤ u
      → u < x
      → e.redis.text_at u (blacklist_key token) w'.store ≡ some "1"
  unfolding refresh_token found
  refresh_token_lem token w w' claims x u pair h p q later soon =
      elim (Result-cases (User.get_by_id e.users claims.user_id w.db).0) [
        | inl (y, f) ↦ absurd (ground (arith, h))
        | inr (none, f) ↦ absurd (ground (arith, h))
        | inr (some user, f) ↦ ground (
          arith,
          h,
          exchange_lem token user (remaining x w.now) u (found claims.user_id w) w' pair,
        )
      ]

  -- A token whose key is set is refused.
  refresh_token-used :
      (token v : String) (w : World e)
      → e.redis.text_at w.now (blacklist_key token) w.store ≡ some v
      → is_ok (refresh_token e token w).0 ≡ false
  unfolding refresh_token found
  refresh_token-used token v w held =
      elim (Result-cases (parse_token e.jwt e.jwt_config w.now token true)) [
        | inl (y, p) ↦ ground (arith, p)
        | inr (claims, p) ↦ elim (Option-cases claims.registered.expires_at) [
          | inl q ↦ ground (arith, p, q)
          | inr (x, q) ↦ elim (Result-cases (User.get_by_id e.users claims.user_id w.db).0) [
            | inl (y, f) ↦ ground (arith, p, q, f)
            | inr (none, f) ↦ ground (arith, p, q, f)
            | inr (some user, f) ↦ ground (
              arith,
              p,
              q,
              f,
              exchange-used token v user (remaining x w.now) (found claims.user_id w),
            )
          ]
        ]
      ]

  -- With the laws of `TextLaws` and `JwtLaws`: of two rotations with the same refresh token, the
  -- second one never succeeds, at any later time, if nothing else has touched the token's key in
  -- between.
  pub refresh_token-once :
      JwtLaws e.jwt
      → (token : String) (w w' v : World e) (pair : String × String)
      → refresh_token e token w ≡ (ok pair, w')
      → w.now ≤ v.now
      → e.redis.text_at v.now (blacklist_key token) v.store
        ≡ e.redis.text_at v.now (blacklist_key token) w'.store
      → is_ok (refresh_token e token v).0 ≡ false
  unfolding refresh_token
  refresh_token-once jwt token w w' v pair h later kept =
      elim (Result-cases (parse_token e.jwt e.jwt_config w.now token true)) [
        | inl (y, p) ↦ absurd (ground (arith, h))
        | inr (claims, p) ↦
            let (x, q, valid) =
              parse_token-expires e.jwt e.jwt_config jwt w.now token true claims p in
            elim (dec_lt v.now x) [
              | yes early ↦
                  refresh_token-used token "1" v
                    (kept ∙ refresh_token_lem token w w' claims x v.now pair h p q later early)
              | no late ↦ elim (Result-cases (parse_token e.jwt e.jwt_config v.now token true)) [
                | inl (y, r) ↦ ground (arith, r)
                | inr (d, r) ↦
                    let (y, q', ahead) =
                      parse_token-expires e.jwt e.jwt_config jwt v.now token true d r in
                    let same =
                      parse_token-same e.jwt e.jwt_config jwt w.now v.now token true true claims d p
                        r in
                    absurd (ground (arith, same, q, q', ahead, late))
              ]
            ]
      ]
