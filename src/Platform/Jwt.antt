-- ===== src/Platform/Jwt.antt =====
-- internal/platform/jwt/jwt.go. The JWT package is a parameter: it signs claims with a secret, and
-- reads a token back with a secret and the options that the source gives, which are the issuer, the
-- method HS256, and for user tokens a required expiry. Instants are in milliseconds.
pub mod Expiry
use dst_go_backend.Base.{
  ℕ, ◌+◌, ◌<◌, ◌≡◌, String, Bool, true, false, Option, none, some, ◌==◌, str_eq, ltb, format_uint,
  ◌^◌, if◌then◌else◌, ◌||◌,
}
use dst_go_backend.Apperr.{Error, other, Result, ok, err, ◌>>=◌, ◌>>◌, fail_if}

pub record Config : Type 0 where
  pub access_secret : String
  pub access_expire : ℕ
  pub refresh_secret : String
  pub refresh_expire : ℕ
  pub agent_secret : String
  pub issuer : String

-- `jwt.RegisteredClaims`, as far as the source sets or reads it.
pub record RegisteredClaims : Type 0 where
  pub jti : String
  pub subject : String
  pub issuer : String
  pub issued_at : Option ℕ
  pub not_before : Option ℕ
  pub expires_at : Option ℕ

pub record CustomClaims : Type 0 where
  pub user_id : ℕ
  pub username : String
  pub role : String
  pub token_version : ℕ
  pub registered : RegisteredClaims

-- The package. `parse_custom` and `parse_registered` are given the instant, the secret, the issuer
-- wanted and the token, and return the claims with `token.Valid`.
pub record JwtLib : Type 0 where
  pub sign_custom : String → CustomClaims → Result String
  pub sign_registered : String → RegisteredClaims → Result String
  pub parse_custom : ℕ → String → String → String → Result (CustomClaims × Bool)
  pub parse_registered : ℕ → String → String → String → Result (RegisteredClaims × Bool)

-- The documented behaviour that the source relies on: an accepted user token has an expiry that
-- lies ahead, and a token carries one set of claims, whenever and with whatever secret it is read.
pub record JwtLaws (lib : JwtLib) : Type 0 where
  pub expires :
      (t : ℕ) (secret issuer token : String) (c : CustomClaims)
      → lib.parse_custom t secret issuer token ≡ ok (c, true)
      → (x : ℕ) × (c.registered.expires_at ≡ some x) × (t < x)
  pub one_claims :
      (t u : ℕ) (secret secret' issuer token : String) (c d : CustomClaims)
      → lib.parse_custom t secret issuer token ≡ ok (c, true)
      → lib.parse_custom u secret' issuer token ≡ ok (d, true)
      → c ≡ d

module _ (lib : JwtLib) (cfg : Config) where
  unfoldable pub generate_token : ℕ → String → ℕ → String → String → ℕ → String → ℕ → Result String
  generate_token now jti user_id username role token_version secret expire =
      lib.sign_custom secret (record {
        user_id = user_id;
        username = username;
        role = role;
        token_version = token_version;
        registered = record {
          jti = jti;
          subject = "";
          issuer = cfg.issuer;
          issued_at = some now;
          not_before = some now;
          expires_at = some (now + expire);
        };
      })

  unfoldable pub generate_access_token : ℕ → String → ℕ → String → String → ℕ → Result String
  unfolding generate_token
  generate_access_token now jti user_id username role token_version =
      generate_token now jti user_id username role token_version cfg.access_secret cfg.access_expire

  unfoldable pub generate_refresh_token : ℕ → String → ℕ → String → String → ℕ → Result String
  unfolding generate_token
  generate_refresh_token now jti user_id username role token_version =
      generate_token now jti user_id username role token_version cfg.refresh_secret
        cfg.refresh_expire

  abbrev pub secret_of : Bool → String
  secret_of is_refresh = if is_refresh then cfg.refresh_secret else cfg.access_secret

  unfoldable pub parse_token : ℕ → String → Bool → Result CustomClaims
  parse_token now token is_refresh = do
    parsed ← lib.parse_custom now (secret_of is_refresh) cfg.issuer token
    if parsed.1 then ok parsed.0 else err (other "token 无效或已过期")

  unfoldable pub generate_agent_token : ℕ → Result String
  generate_agent_token server = do
    fail_if (server == 0) (other "serverID 无效")
    lib.sign_registered cfg.agent_secret (record {
      jti = "";
      subject = format_uint server;
      issuer = cfg.issuer;
      issued_at = none;
      not_before = none;
      expires_at = none;
    })

  abbrev nonzero : Result ℕ → Result ℕ
  nonzero (err e) = err (other "agent token 的 serverID 无效")
  nonzero (ok server) = if server == 0 then err (other "agent token 的 serverID 无效") else ok server

  unfoldable pub parse_agent_token : (String → Result ℕ) → ℕ → String → Result ℕ
  parse_agent_token parse_uint now token = do
    parsed ← lib.parse_registered now cfg.agent_secret cfg.issuer token
    if parsed.1 then nonzero (parse_uint parsed.0.subject) else err (other "agent token 无效")
