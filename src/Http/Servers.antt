-- ===== src/Http/Servers.antt =====
-- internal/handler/v1/server/handler.go.
use dst_go_backend.Base.{ℤ, Option}
use dst_go_backend.Http.{Handler, bind, with_user, with_id}
use dst_go_backend.Http.Written.{ask}
use dst_go_backend.Service.World.{Env}
use dst_go_backend.Service.Panel.{Request}
use dst_go_backend.Service.Server.{CreateServerReq, UpdateServerReq}

pub record ListServerReq : Type 0 where
  pub page : ℤ
  pub page_size : ℤ

module _ (e : Env) where
  unfoldable pub create : Option CreateServerReq → Handler e
  unfolding with_user
  create bound =
      with_user e (λ user. bind e bound "请求参数无效" (λ req. ask e user (Request.create_server req)))

  unfoldable pub get_by_id : Handler e
  unfolding with_user with_id
  get_by_id = with_user e (λ user. with_id e "服务器ID无效" (λ id. ask e user (Request.get_server id)))

  unfoldable pub list : Option ListServerReq → Handler e
  unfolding with_user
  list bound = with_user e (λ user.
      bind e bound "分页参数无效" (λ req. ask e user (Request.list_servers req.page req.page_size)))

  unfoldable pub update : Option UpdateServerReq → Handler e
  unfolding with_user with_id
  update bound = with_user e (λ user.
      with_id e "服务器ID无效"
        (λ id. bind e bound "请求参数无效" (λ req. ask e user (Request.update_server id req))))

  unfoldable pub delete : Handler e
  unfolding with_user with_id
  delete = with_user e (λ user. with_id e "服务器ID无效" (λ id. ask e user (Request.delete_server id)))
