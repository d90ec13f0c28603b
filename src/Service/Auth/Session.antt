-- ===== src/Service/Auth/Session.antt =====
-- Who is let in: `Authenticate` of internal/service/auth/service.go.
use dst_go_backend.Base.{◌≡◌, false, String, none, some, arith, ◌==◌, pos, inl, inr, Bool-cases}
use dst_go_backend.Apperr.{ok}
use dst_go_backend.Act.{Result-cases}
use dst_go_backend.Platform.Jwt.{CustomClaims, parse_token}
use dst_go_backend.Repository.Table.{TableLaws, find}
use dst_go_backend.Repository.User
use dst_go_backend.Repository.User.{User}
use dst_go_backend.Strings.{is_empty}
use dst_go_backend.Repository.User.Queries.{get_by_id-Finds}
use dst_go_backend.Repository.Cache.AuthCache.{is_token_in_blacklist}
use dst_go_backend.Service.World.{Env, World}
use dst_go_backend.Service.Auth.{Identity, authenticate}

module _ (e : Env) (table : TableLaws e.users) where
  -- The user in the table behind an identity that is let in with the claims.
  pub record Admitted (who : Identity) (token : String) (w : World e) : Type 0 where
    pub claims : CustomClaims
    pub user : User
    pub parsed_as : parse_token e.jwt e.jwt_config w.now token false ≡ ok claims
    pub in_table : find (λ u. u.id == claims.user_id) (e.users.rows w.db) ≡ some user
    pub enabled : user.status ≡ pos 1
    pub version : user.token_version ≡ claims.token_version
    pub same : who ≡ record { user_id = user.id; username = user.username; role = user.role }

  -- Over a table with the laws of `TableLaws`, only who presents a token that the JWT package
  -- accepts, for a user in the table who is enabled and has the token's version, is let in, and as
  -- that user.
  pub authenticate_sound :
      (token : String) (w w' : World e) (who : Identity)
      → authenticate e token w ≡ (ok who, w')
      → Admitted who token w
  unfolding authenticate
  authenticate_sound token w w' who h = elim (Bool-cases (is_empty token)) [
    | inl none_given ↦ absurd (ground (arith, h))
    | inr given ↦ elim (Result-cases (parse_token e.jwt e.jwt_config w.now token false)) [
      | inl (x, p) ↦ absurd (ground (arith, h))
      | inr (claims, p) ↦
          elim (Result-cases (is_token_in_blacklist e.redis w.now token w.store).0) [
            | inl (x, q) ↦ absurd (ground (arith, h))
            | inr (listed, q) ↦ elim (Result-cases (User.get_by_id e.users claims.user_id w.db).0) [
              | inl (x, f) ↦ absurd (ground (arith, h))
              | inr (none, f) ↦ absurd (ground (arith, h))
              | inr (some user, f) ↦ record {
                claims = claims;
                user = user;
                parsed_as = p;
                in_table = ground (arith, f, get_by_id-Finds e.users table claims.user_id w.db);
                enabled = ground (arith, h);
                version = ground (arith, h);
                same = ground (arith, h);
              }
            ]
          ]
    ]
  ]
