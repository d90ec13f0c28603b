-- ===== src/Service/Panel/Preservation.antt =====
-- The requests of users to the services of servers, clusters and tasks, and properties of the rows
-- that are `Closed`; internal/service/task/service.go is gone through here.
pub mod OnServers
pub mod OnDsts
use dst_go_backend.Base.{
  ℕ, ℤ, List, [], ◌∷◌, ◌≡◌, refl, not, ltb, ◌&&◌, ◌||◌, ◌==◌, String, Bool, true, false, Option,
  none, some, arith, int_lt, int_gt, if◌then◌else◌,
}
use dst_go_backend.Apperr.{
  Error, biz, duplicated_key, record_not_found, server_has_dst, Result, ok, err,
}
use dst_go_backend.Act.{Act, pure, throw, ◌>>=◌, ◌>>◌, throw_if, recode, need, attempt}
use dst_go_backend.Act.Runs.{Post, Runs, Runs-bind, Runs-recode, Runs-need, Runs-attempt}
use dst_go_backend.Strings.{is_empty, trim_space, byte_length}
use dst_go_backend.Repository.Database.{DatabaseLaws, Server, Task, any}
use dst_go_backend.Repository.Server
use dst_go_backend.Repository.Server.{is_server_of}
use dst_go_backend.Repository.Dst
use dst_go_backend.Repository.Task
use dst_go_backend.Service.World.{Env, World, on_db, drawing}
use dst_go_backend.Service.Server as Servers
use dst_go_backend.Service.Dst as Dsts
use dst_go_backend.Service.Task as Tasks
use dst_go_backend.Service.Panel.Closed.{RowsProperty, Closed, IsGoodDst}
use dst_go_backend.Service.Panel.Kept.{Holds, Kept, transaction-Kept}
use dst_go_backend.Service.Panel.Queries.{
  IsBacked, get_server-Runs, get_server-Kept, get_dst-Kept, get_task-Kept, list_servers-Kept,
  list_dsts-Kept, list_tasks-Kept,
}
use dst_go_backend.Service.Panel.Statements.{
  create_server-Kept, create_task-Kept, create_dst-Runs, update_server-Kept, update_dst-Kept,
  delete_server-Kept, delete_dst-Kept,
}
use dst_go_backend.Service.Panel.Lift.{
  HoldsIn, Keeps, thrown, returned, on_db-Runs, on_db-Keeps, drawing-Keeps, on_hub-Keeps,
  bind-Keeps, attempt-Keeps, recode-Keeps, guard-Keeps, need-Keeps, kept-Holds,
}
use dst_go_backend.Service.Panel.{Request, serve, serve_all}
use dst_go_backend.Service.Panel.Preservation.OnServers.{
  create_server-Keeps, get_server-Keeps, list_servers-Keeps, update_server-Keeps,
  delete_server-Keeps,
}
use dst_go_backend.Service.Panel.Preservation.OnDsts.{
  create_dst-Keeps, get_dst-Keeps, list_dsts-Keeps, update_dst-Keeps, delete_dst-Keeps,
}

module _ (e : Env) (laws : DatabaseLaws e.database) (user_id : ℕ) (J : RowsProperty) where
  get_task-Keeps : (id : ℕ) → Keeps e J (Tasks.get_by_id e user_id id)
  unfolding Tasks.get_by_id
  get_task-Keeps id =
      bind-Keeps e J _ _
        (recode-Keeps e J _ _ (on_db-Keeps e J _ (get_task-Kept e.database laws user_id J id)))
        (λ found. need-Keeps e J found _ _ (λ task. returned e J _))

  list_tasks-Keeps : (req : Tasks.ListTaskReq) → Keeps e J (Tasks.list e user_id req)
  unfolding Tasks.list
  list_tasks-Keeps req = guard-Keeps e J (Servers.is_bad_page req.page req.page_size) _ _ (λ fits.
      guard-Keeps e J (ltb 64 (byte_length req.kind) || ltb 64 (byte_length req.resource_type)) _ _
        (λ short. guard-Keeps e J (not (Tasks.is_status req.status)) _ _ (λ known.
          guard-Keeps e J (not (req.resource_id == 0) && is_empty req.resource_type) _ _ (λ typed.
            bind-Keeps e J _ _
              (recode-Keeps e J _ _ (
                on_db-Keeps e J _ (list_tasks-Kept e.database laws user_id J (Tasks.query_of req))))
              (λ found. returned e J _)))))

module _ (e : Env) (laws : DatabaseLaws e.database) (user_id : ℕ) (J : RowsProperty)
    (closed : Closed user_id J) where
  pub serve-Keeps : (req : Request) → Keeps e J (serve e user_id req)
  unfolding serve
  serve-Keeps (Request.create_server req) =
      bind-Keeps e J _ _ (create_server-Keeps e laws user_id J closed req) (λ a. returned e J _)
  serve-Keeps (Request.get_server id) =
      bind-Keeps e J _ _ (get_server-Keeps e laws user_id J closed id) (λ a. returned e J _)
  serve-Keeps (Request.list_servers page size) =
      bind-Keeps e J _ _ (list_servers-Keeps e laws user_id J closed page size)
        (λ a. returned e J _)
  serve-Keeps (Request.update_server id req) =
      bind-Keeps e J _ _ (update_server-Keeps e laws user_id J closed id req) (λ a. returned e J _)
  serve-Keeps (Request.delete_server id) =
      bind-Keeps e J _ _ (delete_server-Keeps e laws user_id J closed id) (λ a. returned e J _)
  serve-Keeps (Request.create_dst req) =
      bind-Keeps e J _ _ (create_dst-Keeps e laws user_id J closed req) (λ a. returned e J _)
  serve-Keeps (Request.get_dst id) =
      bind-Keeps e J _ _ (get_dst-Keeps e laws user_id J id) (λ a. returned e J _)
  serve-Keeps (Request.list_dsts server_id page size) =
      bind-Keeps e J _ _ (list_dsts-Keeps e laws user_id J server_id page size)
        (λ a. returned e J _)
  serve-Keeps (Request.update_dst id req) =
      bind-Keeps e J _ _ (update_dst-Keeps e laws user_id J closed id req) (λ a. returned e J _)
  serve-Keeps (Request.delete_dst id) =
      bind-Keeps e J _ _ (delete_dst-Keeps e laws user_id J closed id) (λ a. returned e J _)
  serve-Keeps (Request.get_task id) =
      bind-Keeps e J _ _ (get_task-Keeps e laws user_id J id) (λ a. returned e J _)
  serve-Keeps (Request.list_tasks req) =
      bind-Keeps e J _ _ (list_tasks-Keeps e laws user_id J req) (λ a. returned e J _)

module _ (e : Env) (laws : DatabaseLaws e.database) (J : RowsProperty) where
  pub serve_all-keeps :
      ((user_id : ℕ) → Closed user_id J)
      → (reqs : List (ℕ × Request)) (w : World e) → HoldsIn e J w
      → HoldsIn e J (serve_all e reqs w)
  unfolding serve_all
  serve_all-keeps closed [] w h = h
  serve_all-keeps closed ((user_id, req) ∷ rest) w h =
      serve_all-keeps closed rest (serve e user_id req w).1
        (kept-Holds e J _ (serve-Keeps e laws user_id J (closed user_id) req) w h)
