-- ===== src/Service/Panel.antt =====
-- The services of servers, clusters and tasks together, as the routes of internal/router/v1.go offer
-- them to a user who is logged in.
pub mod Closed
pub mod Kept
pub mod Lift
pub mod Preservation
pub mod Isolation
pub mod Orphans
pub mod Validity
pub mod Queries
pub mod Statements
use dst_go_backend.Base.{ℕ, ℤ, List, [], ◌∷◌}
use dst_go_backend.Act.{Act, pure, ◌>>=◌}
use dst_go_backend.Service.World.{Env, World}
use dst_go_backend.Service.Server.{CreateServerReq, UpdateServerReq, ServerResp, ServerListResp}
use dst_go_backend.Service.Server
use dst_go_backend.Service.Dst.{CreateDstReq, UpdateDstReq, DstResp, DstListResp}
use dst_go_backend.Service.Dst
use dst_go_backend.Service.Task.{ListTaskReq, TaskResp, TaskListResp}
use dst_go_backend.Service.Task

pub data Request : Type 0 where
  create_server : CreateServerReq → Request
  get_server : ℕ → Request
  list_servers : ℤ → ℤ → Request
  update_server : ℕ → UpdateServerReq → Request
  delete_server : ℕ → Request
  create_dst : CreateDstReq → Request
  get_dst : ℕ → Request
  list_dsts : ℕ → ℤ → ℤ → Request
  update_dst : ℕ → UpdateDstReq → Request
  delete_dst : ℕ → Request
  get_task : ℕ → Request
  list_tasks : ListTaskReq → Request

pub data Answer : Type 0 where
  server : ServerResp → Answer
  servers : ServerListResp → Answer
  dst : DstResp → Answer
  dsts : DstListResp → Answer
  task : TaskResp → Answer
  tasks : TaskListResp → Answer
  done : Answer

module _ (e : Env) where
  abbrev finish : Unit {0} → Act (World e) Answer
  finish u = pure done

  -- What the route of the request asks of the service, for the user that `Auth` let in.
  unfoldable pub serve : ℕ → Request → Act (World e) Answer
  serve user_id (create_server req) = Server.create e user_id req >>= λ a. pure (server a)
  serve user_id (get_server id) = Server.get_by_id e user_id id >>= λ a. pure (server a)
  serve user_id (list_servers page size) = Server.list e user_id page size >>= λ a. pure (servers a)
  serve user_id (update_server id req) = Server.update e user_id id req >>= finish
  serve user_id (delete_server id) = Server.delete e user_id id >>= finish
  serve user_id (create_dst req) = Dst.create e user_id req >>= λ a. pure (dst a)
  serve user_id (get_dst id) = Dst.get_by_id e user_id id >>= λ a. pure (dst a)
  serve user_id (list_dsts server_id page size) =
      Dst.list e user_id server_id page size >>= λ a. pure (dsts a)
  serve user_id (update_dst id req) = Dst.update e user_id id req >>= finish
  serve user_id (delete_dst id) = Dst.delete e user_id id >>= finish
  serve user_id (get_task id) = Task.get_by_id e user_id id >>= λ a. pure (task a)
  serve user_id (list_tasks req) = Task.list e user_id req >>= λ a. pure (tasks a)

  -- Requests of several users, one after the other.
  unfoldable pub serve_all : List (ℕ × Request) → World e → World e
  unfolding serve
  serve_all [] w = w
  serve_all ((user_id, req) ∷ rest) w = serve_all rest (serve user_id req w).1
