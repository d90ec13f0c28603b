-- ===== src/Service/Dst.antt =====
-- internal/service/dst/service.go, with the records of internal/model/request/dst.go and
-- internal/model/response/dst.go.
pub mod Lookup
use dst_go_backend.Base.{
  ℕ, String, true, false, ◌||◌, ◌==◌, Option, none, some, List, map, ℤ, pos, int_lt, int_gt, to_nat,
}
use dst_go_backend.Apperr.{Error, biz, duplicated_key, record_not_found}
use dst_go_backend.Act.{Act, pure, throw, ◌>>=◌, ◌>>◌, throw_if, recode, need, attempt}
use dst_go_backend.Strings.{is_empty, trim_space}
use dst_go_backend.Repository.Database.{Dst, Slice}
use dst_go_backend.Repository.Server
use dst_go_backend.Repository.Dst
use dst_go_backend.Repository.Dst.{DstUpdates}
use dst_go_backend.Service.World.{Env, World, on_db}
use dst_go_backend.Service.Server.{or_empty, is_bad_page}

pub record CreateDstReq : Type 0 where
  pub server_id : ℕ
  pub slot : ℤ
  pub name : String
  pub description : String
  pub password : String
  pub max_players : ℤ
  pub cluster_token : String
  pub mods : Slice

pub record UpdateDstReq : Type 0 where
  pub name : String
  pub description : String
  pub password : Option String
  pub max_players : ℤ
  pub cluster_token : String
  pub mods : Slice

pub record DstResp : Type 0 where
  pub id : ℕ
  pub server_id : ℕ
  pub slot : ℤ
  pub name : String
  pub description : String
  pub max_players : ℤ
  pub status : ℤ
  pub mods : List String
  pub created_at : ℕ
  pub updated_at : ℕ

pub record DstListResp : Type 0 where
  pub dsts : List DstResp
  pub total : ℕ
  pub page : ℤ
  pub page_size : ℤ

abbrev pub to_dst_resp : Dst → DstResp
to_dst_resp d = record {
  id = d.id;
  server_id = d.server_id;
  slot = d.slot;
  name = d.name;
  description = d.description;
  max_players = d.max_players;
  status = d.status;
  mods = or_empty d.mods;
  created_at = d.created_at;
  updated_at = d.updated_at;
}

abbrev pub new_dst : ℕ → CreateDstReq → Dst
new_dst user_id req = record {
  base = record { id = 0; created_at = 0; updated_at = 0 };
  slot = req.slot;
  name = trim_space req.name;
  description = req.description;
  password = req.password;
  max_players = req.max_players;
  cluster_token = trim_space req.cluster_token;
  status = pos 0;
  mods = some (or_empty req.mods);
  server_id = req.server_id;
  user_id = user_id;
}

-- A token that is blank leaves the column alone.
abbrev pub given_token : String → Option String
given_token token = elim (is_empty (trim_space token)) [
  | true ↦ none
  | false ↦ some (trim_space token)
]

-- The mods are stored as JSON, which texts always have.
abbrev pub updates_of : UpdateDstReq → DstUpdates
updates_of req = record {
  name = trim_space req.name;
  description = req.description;
  max_players = req.max_players;
  mods = some (or_empty req.mods);
  password = req.password;
  cluster_token = given_token req.cluster_token;
}

module _ (e : Env) where
  -- The guard of `Create` and `List`: the server is the user's own.
  unfoldable pub need_server : ℕ → ℕ → Act (World e) (Unit {0})
  need_server user_id server_id = do
    found ← recode (biz 500 "服务器查询失败") (on_db e (Server.get_by_id e.database user_id server_id))
    server ← need found (biz 404 "服务器不存在")
    pure tt

  abbrev pub create_failed : Error → Act (World e) DstResp
  create_failed duplicated_key = throw (biz 409 "该服务器的存档槽位已被占用")
  create_failed x = throw (biz 500 "存档创建失败")

  unfoldable pub create : ℕ → CreateDstReq → Act (World e) DstResp
  unfolding need_server
  create user_id req = do
    throw_if (is_empty (trim_space req.name)) (biz 400 "存档名称为空")
    throw_if
        (req.server_id == 0 || int_lt req.slot 1 || int_gt req.slot 5 || int_lt req.max_players 1)
        (biz 400 "存档参数无效")
    need_server user_id req.server_id
    attempt (on_db e (Dst.create e.database (new_dst user_id req))) create_failed
        (λ dst. pure (to_dst_resp dst))

  unfoldable pub get_by_id : ℕ → ℕ → Act (World e) DstResp
  get_by_id user_id dst_id = do
    found ← recode (biz 500 "存档查询失败") (on_db e (Dst.get_by_id e.database user_id dst_id))
    dst ← need found (biz 404 "存档不存在")
    pure (to_dst_resp dst)

  unfoldable pub list : ℕ → ℕ → ℤ → ℤ → Act (World e) DstListResp
  unfolding need_server
  list user_id server_id page page_size = do
    throw_if (server_id == 0 || is_bad_page page page_size) (biz 400 "查询参数无效")
    need_server user_id server_id
    found ←
        recode (biz 500 "存档列表查询失败")
          (on_db e (Dst.list e.database user_id server_id (to_nat page) (to_nat page_size)))
    pure (record {
      dsts = map to_dst_resp found.0;
      total = found.1;
      page = page;
      page_size = page_size;
    })

  abbrev pub update_failed : Error → Act (World e) (Unit {0})
  update_failed record_not_found = throw (biz 404 "存档不存在")
  update_failed x = throw (biz 500 "存档更新失败")

  unfoldable pub update : ℕ → ℕ → UpdateDstReq → Act (World e) (Unit {0})
  update user_id dst_id req = do
    throw_if (is_empty (trim_space req.name)) (biz 400 "存档名称为空")
    throw_if (int_lt req.max_players 1) (biz 400 "最大人数无效")
    attempt (λ w. on_db e (Dst.update e.database w.now user_id dst_id (updates_of req)) w)
        update_failed pure

  abbrev pub delete_failed : Error → Act (World e) (Unit {0})
  delete_failed record_not_found = throw (biz 404 "存档不存在")
  delete_failed x = throw (biz 500 "存档删除失败")

  unfoldable pub delete : ℕ → ℕ → Act (World e) (Unit {0})
  delete user_id dst_id =
      attempt (on_db e (Dst.delete e.database user_id dst_id)) delete_failed pure
