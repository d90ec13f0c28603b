-- ===== src/Http/Tasks.antt =====
-- internal/handler/v1/task/handler.go.
use dst_go_backend.Base.{Option}
use dst_go_backend.Http.{Handler, bind, with_user, with_id}
use dst_go_backend.Http.Written.{ask}
use dst_go_backend.Service.World.{Env}
use dst_go_backend.Service.Panel.{Request}
use dst_go_backend.Service.Task.{ListTaskReq}

module _ (e : Env) where
  unfoldable pub list : Option ListTaskReq → Handler e
  unfolding with_user
  list bound =
      with_user e (λ user. bind e bound "查询参数无效" (λ req. ask e user (Request.list_tasks req)))

  unfoldable pub get_by_id : Handler e
  unfolding with_user with_id
  get_by_id = with_user e (λ user. with_id e "任务ID无效" (λ id. ask e user (Request.get_task id)))
