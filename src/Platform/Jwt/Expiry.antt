-- ===== src/Platform/Jwt/Expiry.antt =====
-- `ParseToken` of internal/platform/jwt/jwt.go accepts a token only before its expiry.
use dst_go_backend.Base.{ℕ, ◌<◌, ◌≡◌, Bool, true, false, String, some, arith, inl, inr}
use dst_go_backend.Apperr.{ok}
use dst_go_backend.Act.{Result-cases}
use dst_go_backend.Platform.Jwt.{Config, CustomClaims, JwtLib, JwtLaws, parse_token, secret_of}

module _ (lib : JwtLib) (cfg : Config) (laws : JwtLaws lib) where
  parse_token-parsed :
      (now : ℕ) (token : String) (is_refresh : Bool) (c : CustomClaims)
      → parse_token lib cfg now token is_refresh ≡ ok c
      → lib.parse_custom now (secret_of lib cfg is_refresh) cfg.issuer token ≡ ok (c, true)
  unfolding parse_token
  parse_token-parsed now token is_refresh c h =
      elim (Result-cases (lib.parse_custom now (secret_of lib cfg is_refresh) cfg.issuer token)) [
        | inl (x, p) ↦ absurd (ground (arith, h))
        | inr ((d, true), p) ↦ ground (arith, h)
        | inr ((d, false), p) ↦ absurd (ground (arith, h))
      ]

  pub parse_token-expires :
      (now : ℕ) (token : String) (is_refresh : Bool) (c : CustomClaims)
      → parse_token lib cfg now token is_refresh ≡ ok c
      → (x : ℕ) × (c.registered.expires_at ≡ some x) × (now < x)
  parse_token-expires now token is_refresh c h =
      laws.expires now (secret_of lib cfg is_refresh) cfg.issuer token c
        (parse_token-parsed now token is_refresh c h)

  -- Read twice, a token has the same claims, so also the same expiry.
  pub parse_token-same :
      (now later : ℕ) (token : String) (is_refresh again : Bool) (c d : CustomClaims)
      → parse_token lib cfg now token is_refresh ≡ ok c
      → parse_token lib cfg later token again ≡ ok d
      → c ≡ d
  parse_token-same now later token is_refresh again c d h k =
      laws.one_claims now later _ _ cfg.issuer token c d
        (parse_token-parsed now token is_refresh c h) (parse_token-parsed later token again d k)
