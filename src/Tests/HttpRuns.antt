-- ===== src/Tests/HttpRuns.antt =====
-- Runs of the handlers behind the middleware of internal/middleware.
use dst_go_backend.Base.{◌≡◌, refl, true, none, some, [], ◌∷◌, arith}
use dst_go_backend.Http.{Context, Response}
use dst_go_backend.Http.Users.{Config, logout}
use dst_go_backend.Http.Router.{
  profile, get_task, refresh, public, protected, route_handler, respond_to, protected_handler,
  delete_server,
}
use dst_go_backend.Http.Origin.{respond_to-untrusted}
use dst_go_backend.Http.Guard.{Admitted, route_handler-Admitted}
use dst_go_backend.Http.Ownership.{protected_handler-view}
use dst_go_backend.Service.Panel.Isolation.{view}
use dst_go_backend.Tests.DemoDb.{demo_db-DatabaseLaws}
use dst_go_backend.Tests.PanelRuns.{panel_world}
use dst_go_backend.Http.Logout.{bearer, logout-route_handler}
use dst_go_backend.Service.World.{World}
use dst_go_backend.Tests.Demo.{
  demo_env, demo_redis-TextLaws, demo_jwt-JwtLaws, demo_claims, world_at,
}

abbrev web : Config
web = record { refresh_expire = 990; cookie_secure = true }

abbrev context : Context
context = record {
  method = "GET";
  authorization = bearer "access";
  origin = "";
  request_method = "";
  trace_header = "t";
  client_ip = "127.0.0.1";
  refresh_cookie = some "refresh";
  id_param = "1";
  trace_id = "t";
  identity = none;
}

abbrev morning : World demo_env
morning = world_at 10 []

route_handler-Admitted_example :
    Admitted demo_env web profile context morning
      (route_handler demo_env web (protected profile) context morning)
unfolding route_handler dst_go_backend.Strings.Split.split_once
    dst_go_backend.Service.Auth.authenticate dst_go_backend.Platform.Jwt.parse_token
    dst_go_backend.Repository.Cache.AuthCache.is_token_in_blacklist
    dst_go_backend.Repository.User.get_by_id dst_go_backend.Http.Users.get_profile
    dst_go_backend.Service.Auth.get_profile dst_go_backend.Http.success
route_handler-Admitted_example = route_handler-Admitted demo_env web profile context morning refl

abbrev evening : World demo_env
evening = record (logout demo_env web context morning).1 { now = 20 }

logout-route_handler_example :
    ¬ ((route_handler demo_env web (protected get_task) context evening).0.status ≡ 200)
unfolding dst_go_backend.Strings.Words.has_space dst_go_backend.Strings.is_space
    dst_go_backend.Platform.Jwt.parse_token logout dst_go_backend.Strings.Split.fields
    dst_go_backend.Strings.Split.equal_fold dst_go_backend.Service.Auth.logout
    dst_go_backend.Service.Auth.revoke_token
    dst_go_backend.Repository.Cache.AuthCache.add_token_to_blacklist dst_go_backend.Http.success
logout-route_handler_example =
    logout-route_handler demo_env web demo_redis-TextLaws demo_jwt-JwtLaws "access" context context
      morning evening demo_claims get_task refl refl refl refl refl refl (omega arith) refl

abbrev foreign : Context
foreign = record context { origin = "https://evil.example"; trace_header = "" }

abbrev refused : Response × World demo_env
refused = respond_to demo_env web ("https://panel.example" ∷ []) (public refresh) foreign morning

respond_to-untrusted_example :
    (refused.0.status ≡ 403)
    × (refused.1.store ≡ morning.store)
    × (refused.1.db ≡ morning.db)
    × (refused.1.hub ≡ morning.hub)
respond_to-untrusted_example =
    respond_to-untrusted demo_env web ("https://panel.example" ∷ []) (public refresh) foreign
      morning refl refl

abbrev logged_in : Context
logged_in = record context {
  identity = some (record { user_id = 7; username = "wilson"; role = "user" });
}

protected_handler-view_example :
    view demo_env 8 (protected_handler demo_env web delete_server logged_in panel_world).1
    ≡ view demo_env 8 panel_world
protected_handler-view_example =
    protected_handler-view demo_env demo_db-DatabaseLaws web 8 delete_server logged_in panel_world
      (record { user_id = 7; username = "wilson"; role = "user" }) refl (λ h. omega arith) refl
