-- ===== src/Http/Dsts.antt =====
-- internal/handler/v1/dst/handler.go.
use dst_go_backend.Base.{ℕ, ℤ, Option}
use dst_go_backend.Http.{Handler, bind, with_user, with_id}
use dst_go_backend.Http.Written.{ask}
use dst_go_backend.Service.World.{Env}
use dst_go_backend.Service.Panel.{Request}
use dst_go_backend.Service.Dst.{CreateDstReq, UpdateDstReq}

pub record ListDstReq : Type 0 where
  pub server_id : ℕ
  pub page : ℤ
  pub page_size : ℤ

module _ (e : Env) where
  unfoldable pub create : Option CreateDstReq → Handler e
  unfolding with_user
  create bound =
      with_user e (λ user. bind e bound "请求参数无效" (λ req. ask e user (Request.create_dst req)))

  unfoldable pub get_by_id : Handler e
  unfolding with_user with_id
  get_by_id = with_user e (λ user. with_id e "存档ID无效" (λ id. ask e user (Request.get_dst id)))

  unfoldable pub list : Option ListDstReq → Handler e
  unfolding with_user
  list bound = with_user e (λ user.
      bind e bound "查询参数无效"
        (λ req. ask e user (Request.list_dsts req.server_id req.page req.page_size)))

  unfoldable pub update : Option UpdateDstReq → Handler e
  unfolding with_user with_id
  update bound = with_user e (λ user.
      with_id e "存档ID无效"
        (λ id. bind e bound "请求参数无效" (λ req. ask e user (Request.update_dst id req))))

  unfoldable pub delete : Handler e
  unfolding with_user with_id
  delete = with_user e (λ user. with_id e "存档ID无效" (λ id. ask e user (Request.delete_dst id)))
