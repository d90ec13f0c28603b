-- ===== src/Http/Logout.antt =====
-- `Logout` of internal/handler/v1/auth/handler.go and the routes behind `Auth`, which read the same
-- header in two ways.
use Prim.Native.String.{◌++◌}
use dst_go_backend.Base.{
  ◌≤◌, ◌≡◌, refl, ◌∙◌, sym, ap, subst, Bool, true, false, ◌==◌, String, none, some, [], ◌∷◌, arith,
}
use dst_go_backend.Apperr.{Error, biz, Result, ok, err, is_ok}
use dst_go_backend.Act.Fails.{Fails, Passes, bind-Fails, recode-Fails}
use dst_go_backend.Strings.{is_empty, is_space}
use dst_go_backend.Strings.Split.{fields, split_once, equal_fold}
use dst_go_backend.Strings.Words.{has_space, fields-pair, split_once-pair}
use dst_go_backend.Platform.Redis.{TextLaws}
use dst_go_backend.Platform.Jwt.{CustomClaims, JwtLaws, parse_token}
use dst_go_backend.Repository.Cache.AuthCache.{blacklist_key}
use dst_go_backend.Http.{Context, fail, fail_with_msg, json_response, success, respond}
use dst_go_backend.Http.Users.{Config, clear_refresh_token_cookie, logout, logout_with, or_blank}
use dst_go_backend.Http.Guard.{route_handler-Admitted}
use dst_go_backend.Http.Router.{Protected, protected, route_handler}
use dst_go_backend.Service.World.{Env, World}
use dst_go_backend.Service.Auth
use dst_go_backend.Service.Auth.{Identity, authenticate, revoke_token}
use dst_go_backend.Service.Auth.Revocation.{logout-authenticate}

-- What a client sends: the scheme, a blank and the token.
abbrev pub bearer : String → String
bearer token = "Bearer" ++ (" " ++ token)

abbrev is_unavailable : Error → Bool
is_unavailable (biz code msg) = code == 503
is_unavailable _ = false

unavailable-status :
    (c : Context) (x : Error) → is_unavailable x ≡ true → ¬ ((fail c x).status ≡ 200)
unfolding fail fail_with_msg json_response
unavailable-status c (biz code msg) h is = ground (arith, h, is)
unavailable-status c _ h is = ground (arith, h)

module _ (e : Env) (config : Config) where
  logout-Fails : (token refresh : String) → Fails is_unavailable (Auth.logout e token refresh)
  unfolding Auth.logout
  logout-Fails token refresh =
      bind-Fails is_unavailable _ _
        (recode-Fails is_unavailable (biz 503 "退出登录失败") (revoke_token e refresh true) refl)
        (λ u. recode-Fails is_unavailable (biz 503 "退出登录失败") (revoke_token e token false) refl)

  -- The handler wrote a success: the service did log out.
  logout-ran :
      (token : String) (c : Context) (w : World e)
      → c.authorization ≡ bearer token
      → has_space token ≡ false
      → is_empty token ≡ false
      → (logout e config c w).0.status ≡ 200
      → (w' : World e) × (Auth.logout e token (or_blank c.refresh_cookie) w ≡ (ok tt, w'))
        × ((logout e config c w).1 ≡ w')
  unfolding logout equal_fold clear_refresh_token_cookie Fails has_space is_space
  logout-ran token c w header solid full h =
      let refresh = or_blank c.refresh_cookie in
      let same : fields c.authorization ≡ "Bearer" ∷ token ∷ [] =
        ap fields header ∙ fields-pair "Bearer" token refl refl solid full in
      let out = Auth.logout e token refresh w in
      ran out.0 out.1 refl (logout-Fails token refresh w)
        (subst (λ parts. (logout_with e config parts c w).0.status ≡ 200) same h)
        (ap (λ parts. (logout_with e config parts c w).1) same)
    where
      ran :
          (q : Result (Unit {0})) (v : World e)
          → Auth.logout e token (or_blank c.refresh_cookie) w ≡ (q, v)
          → Passes is_unavailable q
          → (respond e (λ c u. clear_refresh_token_cookie config (success c none)) q c).status ≡ 200
          → (logout e config c w).1 ≡ v
          → (w' : World e) × (Auth.logout e token (or_blank c.refresh_cookie) w ≡ (ok tt, w'))
            × ((logout e config c w).1 ≡ w')
      ran (ok u) v did passes h end = (v, did, end)
      ran (err x) v did passes h end = absurd (unavailable-status c x passes h)

-- A client that was logged out with 200 is let into no protected route with that token any more,
-- whatever else its requests say: while the token was valid at the logout, nothing else touches its
-- key, and the token has no blanks. With the laws of `TextLaws` and `JwtLaws`.
pub logout-route_handler :
    (e : Env) (config : Config)
    → TextLaws e.redis
    → JwtLaws e.jwt
    → (token : String) (c d : Context) (w v : World e) (claims : CustomClaims) (p : Protected)
    → c.authorization ≡ bearer token
    → d.authorization ≡ bearer token
    → has_space token ≡ false
    → is_empty token ≡ false
    → parse_token e.jwt e.jwt_config w.now token false ≡ ok claims
    → (logout e config c w).0.status ≡ 200
    → w.now ≤ v.now
    → e.redis.text_at v.now (blacklist_key token) v.store
      ≡ e.redis.text_at v.now (blacklist_key token) (logout e config c w).1.store
    → ¬ ((route_handler e config (protected p) d v).0.status ≡ 200)
unfolding has_space is_space
logout-route_handler e config texts jwt token c d w v claims p out again solid full valid left later
      kept let_in =
    let (w', did, end) = logout-ran e config token c w out solid full left in
    let (other, identity, u, split, ran, rest) = route_handler-Admitted e config p d v let_in in
    let shut =
      logout-authenticate e texts jwt token (or_blank c.refresh_cookie) w w' v claims did valid
        later (kept ∙ ap (λ x. e.redis.text_at v.now (blacklist_key token) x.store) end) in
    let same : some ("Bearer", token) ≡ some ("Bearer", other) =
      sym (ap split_once again ∙ split_once-pair "Bearer" token refl) ∙ split in
    let equal : token ≡ other = ground (arith, same) in
    let let_in_too : is_ok (authenticate e token v).0 ≡ true =
      ap (λ r. is_ok r.0) (ap (λ t. authenticate e t v) equal ∙ ran) in
    ground (arith, shut, let_in_too)
