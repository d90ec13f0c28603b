-- ===== src/Service/Panel/Preservation/OnServers.antt =====
-- The operations of internal/service/server/service.go, and properties of the rows that are `Closed`.
use dst_go_backend.Base.{
  ℕ, ℤ, to_nat, ◌≡◌, refl, ◌||◌, String, Bool, true, false, Option, none, some, if◌then◌else◌,
}
use dst_go_backend.Apperr.{Error, biz, duplicated_key, record_not_found, server_has_dst, ok}
use dst_go_backend.Act.{pure, ◌>>=◌, recode}
use dst_go_backend.Act.Runs.{Runs-bind}
use dst_go_backend.Strings.{is_empty, trim_space}
use dst_go_backend.Repository.Database.{DatabaseLaws, Server, Task}
use dst_go_backend.AgentManager.Hub.{disconnect}
use dst_go_backend.Service.World.{Env, drawing}
use dst_go_backend.Service.Server as Servers
use dst_go_backend.Service.Panel.Closed.{RowsProperty, Closed}
use dst_go_backend.Service.Panel.Kept.{Holds, Kept, transaction-Kept}
use dst_go_backend.Service.Panel.Queries.{get_server-Kept, list_servers-Kept}
use dst_go_backend.Service.Panel.Statements.{
  create_server-Kept, create_task-Kept, update_server-Kept, delete_server-Kept,
}
use dst_go_backend.Service.Panel.Lift.{
  Keeps, returned, on_db-Keeps, on_db-at, drawing-Keeps, on_hub-Keeps, bind-Keeps, attempt-Keeps,
  recode-Keeps, guard-Keeps, need-Keeps,
}

module _ (e : Env) (J : RowsProperty) where
  server_create_failed : (x : Error) → Keeps e J (Servers.create_failed e x)
  unfolding Keeps
  server_create_failed duplicated_key w h = h
  server_create_failed _ w h = h

  server_update_failed : (x : Error) → Keeps e J (Servers.update_failed e x)
  unfolding Keeps
  server_update_failed duplicated_key w h = h
  server_update_failed record_not_found w h = h
  server_update_failed _ w h = h

  server_delete_failed : (x : Error) → Keeps e J (Servers.delete_failed e x)
  unfolding Keeps
  server_delete_failed server_has_dst w h = h
  server_delete_failed record_not_found w h = h
  server_delete_failed _ w h = h

  encrypt_given-Keeps : (password : String) → Keeps e J (Servers.encrypt_given e password)
  unfolding Keeps
  encrypt_given-Keeps password = decided (is_empty password)
    where
      decided :
          (b : Bool)
          → Keeps e J {A = Option String} (λ w.
            if b
            then (ok none, w)
            else (do
              text ← recode (biz 500 "服务器更新失败") (drawing e (λ n. e.encrypt n password))
              pure (some text))
                w)
      decided true w h = h
      decided false w h =
          bind-Keeps e J _ _ (recode-Keeps e J _ _ (drawing-Keeps e J (λ n. e.encrypt n password)))
            (λ text. returned e J (some text)) w h

module _ (e : Env) (laws : DatabaseLaws e.database) (user_id : ℕ) (J : RowsProperty)
    (closed : Closed user_id J) where
  store_server-Kept :
      (server : Server)
      → server.user_id ≡ user_id
      → Kept e.database J (Servers.store_server e user_id server)
  unfolding Servers.store_server
  store_server-Kept server own =
      let J' = Holds e.database J in
      Runs-bind J' (λ (stored : Server). J') (λ (stored : Server). J') J' _ _
        (create_server-Kept e.database laws user_id J closed server own)
        (λ stored.
          Runs-bind J' (λ (task : Task). J') (λ (stored : Server). J') J' _ _
            (create_task-Kept e.database laws user_id J closed
              (Servers.deploy_task e user_id stored.id) refl)
            (λ task s h. h))

  pub create_server-Keeps :
      (req : Servers.CreateServerReq) → Keeps e J (Servers.create e user_id req)
  unfolding Servers.create
  create_server-Keeps req =
      let name = trim_space req.name in
      let username = trim_space req.username in
      guard-Keeps e J (is_empty name || is_empty username) _ _ (λ filled.
        need-Keeps e J (e.parse_addr req.ip) _ _ (λ ip.
          bind-Keeps e J _ _
            (recode-Keeps e J _ _ (drawing-Keeps e J (λ n. e.encrypt n req.password)))
            (λ password.
              attempt-Keeps e J _ _ _
                (on_db-Keeps e J _ (
                  transaction-Kept e.database laws J _ (
                    store_server-Kept
                      (Servers.new_server e user_id name username ip req.port password) refl)))
                (server_create_failed e J) (λ server. returned e J _))))

  pub get_server-Keeps : (id : ℕ) → Keeps e J (Servers.get_by_id e user_id id)
  unfolding Servers.get_by_id
  get_server-Keeps id =
      bind-Keeps e J _ _
        (recode-Keeps e J _ _ (on_db-Keeps e J _ (get_server-Kept e.database laws user_id J id)))
        (λ found. need-Keeps e J found _ _ (λ server. returned e J _))

  pub list_servers-Keeps : (page size : ℤ) → Keeps e J (Servers.list e user_id page size)
  unfolding Servers.list
  list_servers-Keeps page size = guard-Keeps e J (Servers.is_bad_page page size) _ _ (λ fits.
      bind-Keeps e J _ _
        (recode-Keeps e J _ _ (
          on_db-Keeps e J _
            (list_servers-Kept e.database laws user_id J (to_nat page) (to_nat size))))
        (λ found. returned e J _))

  pub update_server-Keeps :
      (id : ℕ) (req : Servers.UpdateServerReq) → Keeps e J (Servers.update e user_id id req)
  unfolding Servers.update
  update_server-Keeps id req =
      guard-Keeps e J (is_empty (trim_space req.name) || is_empty (trim_space req.username)) _ _
        (λ filled. need-Keeps e J (e.parse_addr req.ip) _ _ (λ ip.
          bind-Keeps e J _ _ (encrypt_given-Keeps e J req.password) (λ password.
            attempt-Keeps e J _ _ _
              (on_db-at e J _ (λ now.
                update_server-Kept e.database laws user_id J closed now id (record {
                  name = trim_space req.name;
                  ip = ip;
                  port = req.port;
                  username = trim_space req.username;
                  password = password;
                })))
              (server_update_failed e J) (λ done. returned e J done))))

  pub delete_server-Keeps : (id : ℕ) → Keeps e J (Servers.delete e user_id id)
  unfolding Servers.delete
  delete_server-Keeps id =
      attempt-Keeps e J _ _ _
        (on_db-Keeps e J _ (delete_server-Kept e.database laws user_id J closed id))
        (server_delete_failed e J) (λ done. on_hub-Keeps e J (disconnect id))
