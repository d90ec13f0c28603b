-- ===== src/Service/Task.antt =====
-- internal/service/task/service.go, with the records of internal/model/request/task.go and
-- internal/model/response/task.go. `byte_length` is `len` of a text, in bytes of UTF-8.
use dst_go_backend.Base.{
  ℕ, String, Bool, not, ◌||◌, ◌&&◌, ◌==◌, ltb, str_eq, Option, List, map, ℤ, to_nat,
}
use dst_go_backend.Apperr.{biz}
use dst_go_backend.Act.{Act, pure, ◌>>=◌, ◌>>◌, throw_if, recode, need}
use dst_go_backend.Strings.{is_empty, byte_length}
use dst_go_backend.Repository.Database.{Task}
use dst_go_backend.Repository.Task
use dst_go_backend.Repository.Task.{ListQuery}
use dst_go_backend.Service.World.{Env, World, on_db}
use dst_go_backend.Service.Server.{is_bad_page}

pub record ListTaskReq : Type 0 where
  pub page : ℤ
  pub page_size : ℤ
  pub kind : String
  pub status : String
  pub resource_type : String
  pub resource_id : ℕ

pub record TaskResp : Type 0 where
  pub id : ℕ
  pub name : String
  pub kind : String
  pub status : String
  pub stage : String
  pub resource_type : String
  pub resource_id : ℕ
  pub error_message : String
  pub started_at : Option ℕ
  pub finished_at : Option ℕ
  pub created_at : ℕ
  pub updated_at : ℕ

pub record TaskListResp : Type 0 where
  pub tasks : List TaskResp
  pub total : ℕ
  pub page : ℤ
  pub page_size : ℤ

abbrev pub to_task_resp : Task → TaskResp
to_task_resp t = record {
  id = t.id;
  name = t.name;
  kind = t.kind;
  status = t.status;
  stage = t.stage;
  resource_type = t.resource_type;
  resource_id = t.resource_id;
  error_message = t.error_message;
  started_at = t.started_at;
  finished_at = t.finished_at;
  created_at = t.created_at;
  updated_at = t.updated_at;
}

abbrev pub is_status : String → Bool
is_status s =
    is_empty s
    || str_eq s "pending"
    || str_eq s "running"
    || str_eq s "succeeded"
    || str_eq s "failed"

abbrev pub query_of : ListTaskReq → ListQuery
query_of req = record {
  page = to_nat req.page;
  page_size = to_nat req.page_size;
  kind = req.kind;
  status = req.status;
  resource_type = req.resource_type;
  resource_id = req.resource_id;
}

module _ (e : Env) where
  unfoldable pub get_by_id : ℕ → ℕ → Act (World e) TaskResp
  get_by_id user_id task_id = do
    found ← recode (biz 500 "任务查询失败") (on_db e (Task.get_by_id e.database user_id task_id))
    task ← need found (biz 404 "任务不存在")
    pure (to_task_resp task)

  -- The handler's request is never nil.
  unfoldable pub list : ℕ → ListTaskReq → Act (World e) TaskListResp
  list user_id req = do
    throw_if (is_bad_page req.page req.page_size) (biz 400 "分页参数无效")
    throw_if (ltb 64 (byte_length req.kind) || ltb 64 (byte_length req.resource_type))
        (biz 400 "查询参数无效")
    throw_if (not (is_status req.status)) (biz 400 "任务状态无效")
    throw_if (not (req.resource_id == 0) && is_empty req.resource_type) (biz 400 "指定资源ID时必须指定资源类型")
    found ← recode (biz 500 "任务列表查询失败") (on_db e (Task.list e.database user_id (query_of req)))
    pure (record {
      tasks = map to_task_resp found.0;
      total = found.1;
      page = req.page;
      page_size = req.page_size;
    })
