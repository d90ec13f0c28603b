-- ===== src/Service/Server.antt =====
-- internal/service/server/service.go, with the records of internal/model/request/server.go and
-- internal/model/response/server.go.
pub mod Creation
pub mod Deletion
pub mod Pages
use dst_go_backend.Base.{
  ℕ, String, Bool, true, false, not, ◌||◌, Option, none, some, List, [], map, ℤ, pos, int_lt,
  int_gt, to_nat, if◌then◌else◌,
}
use dst_go_backend.Apperr.{
  Error, biz, duplicated_key, record_not_found, server_has_dst, Result, ok, err,
}
use dst_go_backend.Act.{Act, pure, throw, ◌>>=◌, ◌>>◌, throw_if, recode, need, attempt}
use dst_go_backend.Strings.{is_empty, trim_space}
use dst_go_backend.AgentManager.Hub.{disconnect}
use dst_go_backend.Repository.Database.{Server, Task, Slice}
use dst_go_backend.Repository.Server
use dst_go_backend.Repository.Server.{ServerUpdates}
use dst_go_backend.Repository.Task
use dst_go_backend.Service.World.{Env, World, on_db, on_hub, drawing}

pub record CreateServerReq : Type 0 where
  pub name : String
  pub ip : String
  pub port : ℤ
  pub username : String
  pub password : String

pub record UpdateServerReq : Type 0 where
  pub name : String
  pub ip : String
  pub port : ℤ
  pub username : String
  pub password : String

pub record ServerResp : Type 0 where
  pub id : ℕ
  pub name : String
  pub ip : String
  pub port : ℤ
  pub username : String
  pub cpu : ℤ
  pub ram : ℤ
  pub disk : ℤ
  pub os_name : String
  pub game_env : List String
  pub mods : List String
  pub created_at : ℕ
  pub updated_at : ℕ

pub record ServerListResp : Type 0 where
  pub servers : List ServerResp
  pub total : ℕ
  pub page : ℤ
  pub page_size : ℤ

abbrev pub or_empty : Slice → List String
or_empty none = []
or_empty (some texts) = texts

abbrev pub to_server_resp : Server → ServerResp
to_server_resp s = record {
  id = s.id;
  name = s.name;
  ip = s.ip;
  port = s.port;
  username = s.username;
  cpu = s.cpu;
  ram = s.ram;
  disk = s.disk;
  os_name = s.os_name;
  game_env = or_empty s.game_env;
  mods = or_empty s.mods;
  created_at = s.created_at;
  updated_at = s.updated_at;
}

-- The range that every list operation asks of its page.
abbrev pub is_bad_page : ℤ → ℤ → Bool
is_bad_page page page_size =
    int_lt page 1 || int_gt page 1000000 || int_lt page_size 1 || int_gt page_size 100

module _ (e : Env) where
  -- The new row; the database fills in its base.
  abbrev pub new_server : ℕ → String → String → String → ℤ → String → Server
  new_server user_id name username ip port password = record {
    base = record { id = 0; created_at = 0; updated_at = 0 };
    name = name;
    ip = ip;
    port = port;
    username = username;
    password = password;
    cpu = pos 0;
    ram = pos 0;
    disk = pos 0;
    os_name = "";
    game_env = some [];
    mods = some [];
    user_id = user_id;
  }

  abbrev pub deploy_task : ℕ → ℕ → Task
  deploy_task user_id server_id = record {
    base = record { id = 0; created_at = 0; updated_at = 0 };
    name = "部署服务器 Agent";
    kind = "agent_deploy";
    status = "pending";
    stage = "queued";
    resource_type = "server";
    resource_id = server_id;
    user_id = user_id;
    error_message = "";
    started_at = none;
    finished_at = none;
  }

  -- The function of the transaction.
  unfoldable pub store_server : ℕ → Server → Act e.Db Server
  store_server user_id server = do
    stored ← Server.create e.database server
    task ← Task.create e.database (deploy_task user_id stored.id)
    pure stored

  abbrev pub create_failed : Error → Act (World e) ServerResp
  create_failed duplicated_key = throw (biz 409 "该IP和SSH端口的服务器已存在")
  create_failed x = throw (biz 500 "服务器创建失败")

  unfoldable pub create : ℕ → CreateServerReq → Act (World e) ServerResp
  create user_id req = do
    let name = trim_space req.name
    let username = trim_space req.username
    throw_if (is_empty name || is_empty username) (biz 400 "服务器名称或SSH用户名为空")
    ip ← need (e.parse_addr req.ip) (biz 400 "服务器IP无效")
    password ← recode (biz 500 "服务器创建失败") (drawing e (λ n. e.encrypt n req.password))
    attempt
        (on_db e (
          e.transaction Server
            (store_server user_id (new_server user_id name username ip req.port password))))
        create_failed (λ server. pure (to_server_resp server))

  unfoldable pub get_by_id : ℕ → ℕ → Act (World e) ServerResp
  get_by_id user_id server_id = do
    found ← recode (biz 500 "服务器查询失败") (on_db e (Server.get_by_id e.database user_id server_id))
    server ← need found (biz 404 "服务器不存在")
    pure (to_server_resp server)

  unfoldable pub list : ℕ → ℤ → ℤ → Act (World e) ServerListResp
  list user_id page page_size = do
    throw_if (is_bad_page page page_size) (biz 400 "分页参数无效")
    found ←
        recode (biz 500 "服务器列表查询失败")
          (on_db e (Server.list e.database user_id (to_nat page) (to_nat page_size)))
    pure (record {
      servers = map to_server_resp found.0;
      total = found.1;
      page = page;
      page_size = page_size;
    })

  abbrev pub update_failed : Error → Act (World e) (Unit {0})
  update_failed record_not_found = throw (biz 404 "服务器不存在")
  update_failed duplicated_key = throw (biz 409 "该IP和SSH端口的服务器已存在")
  update_failed x = throw (biz 500 "服务器更新失败")

  -- The new ciphertext, if a password is given.
  abbrev pub encrypt_given : String → Act (World e) (Option String)
  encrypt_given password w =
      if is_empty password
      then (ok none, w)
      else (do
        text ← recode (biz 500 "服务器更新失败") (drawing e (λ n. e.encrypt n password))
        pure (some text))
          w

  unfoldable pub update : ℕ → ℕ → UpdateServerReq → Act (World e) (Unit {0})
  update user_id server_id req = do
    let name = trim_space req.name
    let username = trim_space req.username
    throw_if (is_empty name || is_empty username) (biz 400 "服务器名称或SSH用户名为空")
    ip ← need (e.parse_addr req.ip) (biz 400 "服务器IP无效")
    password ← encrypt_given req.password
    attempt
        (λ w.
          on_db e
            (Server.update e.database w.now user_id server_id (record {
              name = name;
              ip = ip;
              port = req.port;
              username = username;
              password = password;
            }))
            w)
        update_failed pure

  abbrev pub delete_failed : Error → Act (World e) (Unit {0})
  delete_failed server_has_dst = throw (biz 409 "服务器下仍有存档，请先删除存档")
  delete_failed record_not_found = throw (biz 404 "服务器不存在")
  delete_failed x = throw (biz 500 "服务器删除失败")

  unfoldable pub delete : ℕ → ℕ → Act (World e) (Unit {0})
  delete user_id server_id =
      attempt (on_db e (Server.delete e.database user_id server_id)) delete_failed
        (λ done. on_hub e (disconnect server_id))
