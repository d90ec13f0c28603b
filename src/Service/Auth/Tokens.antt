-- ===== src/Service/Auth/Tokens.antt =====
-- The calls of internal/service/auth/service.go for the tokens and the user of a login.
use dst_go_backend.Service.Auth.Forms.{LoginResp}
use dst_go_backend.Base.{ℕ, String, Bool, Option}
use dst_go_backend.Apperr.{biz}
use dst_go_backend.Act.{Act, pure, ◌>>=◌, recode}
use dst_go_backend.Platform.Jwt.{
  CustomClaims, generate_access_token, generate_refresh_token, parse_token,
}
use dst_go_backend.Repository.User
use dst_go_backend.Repository.User.{User}
use dst_go_backend.Service.World.{Env, World, on_db, drawing, at_now}

module _ (e : Env) where
  -- `s.jwtManager.ParseToken`.
  abbrev pub parsed : String → Bool → Act (World e) CustomClaims
  parsed token is_refresh = at_now e (λ now. parse_token e.jwt e.jwt_config now token is_refresh)

  abbrev pub user_by_id : ℕ → Act (World e) (Option User)
  user_by_id id = on_db e (User.get_by_id e.users id)

  abbrev pub user_by_phone : String → Act (World e) (Option User)
  user_by_phone phone = on_db e (User.get_by_phone e.users phone)

  -- The two tokens that every login ends with.
  unfoldable pub sign_access : User → Act (World e) String
  sign_access u = recode (biz 500 "accessToken 签发失败") (λ w.
      drawing e
        (λ n.
          generate_access_token e.jwt e.jwt_config w.now (e.uuid n) u.id u.username u.role
            u.token_version)
        w)

  unfoldable pub sign_refresh : User → Act (World e) String
  sign_refresh u = recode (biz 500 "refreshToken 签发失败") (λ w.
      drawing e
        (λ n.
          generate_refresh_token e.jwt e.jwt_config w.now (e.uuid n) u.id u.username u.role
            u.token_version)
        w)

  unfoldable pub issue_tokens : User → Act (World e) (LoginResp × String)
  unfolding sign_access sign_refresh
  issue_tokens u = do
    access_token ← sign_access u
    refresh_token ← sign_refresh u
    pure (
      record { access_token = access_token; user_id = u.id; username = u.username; role = u.role },
      refresh_token,
    )
