-- ===== src/Tests/PanelRuns.antt =====
-- Runs of internal/service/server, dst and task.
use dst_go_backend.Base.{ℕ, ◌≡◌, refl, true, false, none, some, List, [], ◌∷◌, map, pos, arith}
use dst_go_backend.Repository.Database.{Server, Dst}
use dst_go_backend.Apperr.{ok, is_ok}
use dst_go_backend.AgentManager.Hub.{is_online}
use dst_go_backend.AgentManager.Auth
use dst_go_backend.Repository.Database.{any}
use dst_go_backend.Repository.Server.{is_dst_on}
use dst_go_backend.Service.Server.{CreateServerReq, ServerResp, to_server_resp, delete, list}
use dst_go_backend.Service.Server.Pages.{read_pages, newest_first, read_pages-all}
use dst_go_backend.Service.Server.Deletion.{has_id, store_of, delete-authenticate}
use dst_go_backend.Service.Dst.{get_by_id}
use dst_go_backend.Service.Dst.Lookup.{Tells, get_by_id-Tells}
use dst_go_backend.Service.World.{World}
use dst_go_backend.Service.Panel.{Request, serve, serve_all}
use dst_go_backend.Service.Panel.Isolation.{view, serve-view}
use dst_go_backend.Service.Panel.Orphans.{no_orphans, serve_all-no_orphans}
use dst_go_backend.Service.Panel.Validity.{all_valid, serve_all-all_valid}
use dst_go_backend.Tests.DemoDb.{demo_db, demo_db-DatabaseLaws}
use dst_go_backend.Tests.Demo.{demo_env, wilson, world_at}

abbrev server_of : ℕ → ℕ → Server
server_of id user_id = record {
  base = record { id = id; created_at = 0; updated_at = 0 };
  name = "s";
  ip = "10.0.0.1";
  port = pos 22;
  username = "root";
  password = "aes:x";
  cpu = pos 0;
  ram = pos 0;
  disk = pos 0;
  os_name = "";
  game_env = some [];
  mods = some [];
  user_id = user_id;
}

abbrev dst_of : ℕ → ℕ → ℕ → Dst
dst_of id server_id user_id = record {
  base = record { id = id; created_at = 0; updated_at = 0 };
  slot = pos 1;
  name = "d";
  description = "";
  password = "";
  max_players = pos 6;
  cluster_token = "";
  status = pos 0;
  mods = some [];
  server_id = server_id;
  user_id = user_id;
}

-- Two users with a server each, and a cluster of user 7.
abbrev pub panel_world : World demo_env
panel_world = record (world_at 5 []) {
  db = record {
    users = wilson ∷ [];
    servers = server_of 1 7 ∷ server_of 2 8 ∷ [];
    dsts = dst_of 1 1 7 ∷ [];
    tasks = [];
  };
}

abbrev requests : List (ℕ × Request)
requests =
    (7, Request.delete_dst 1)
    ∷ (7, Request.delete_server 1)
    ∷ (8, Request.get_dst 1)
    ∷ (
      8,
      Request.create_dst (record {
        server_id = 2;
        slot = pos 3;
        name = " world ";
        description = "";
        password = "";
        max_players = pos 4;
        cluster_token = "";
        mods = none;
      }),
    )
    ∷ []

serve-view_example :
    view demo_env 8 (serve demo_env 7 (Request.delete_server 1) panel_world).1
    ≡ view demo_env 8 panel_world
serve-view_example =
    serve-view demo_env demo_db-DatabaseLaws 7 8 (λ h. omega arith) (Request.delete_server 1)
      panel_world

abbrev after_requests : World demo_env
after_requests = serve_all demo_env requests panel_world

serve_all-no_orphans_example : no_orphans after_requests.db.servers after_requests.db.dsts ≡ true
unfolding no_orphans
serve_all-no_orphans_example =
    serve_all-no_orphans demo_env demo_db-DatabaseLaws requests panel_world refl

serve_all-all_valid_example : all_valid after_requests.db.dsts ≡ true
unfolding all_valid
serve_all-all_valid_example =
    serve_all-all_valid demo_env demo_db-DatabaseLaws requests panel_world refl

abbrev new_req : CreateServerReq
new_req = record { name = " a "; ip = "10.0.0.9"; port = pos 22; username = "root"; password = "x" }

abbrev without_server : World demo_env
without_server = record panel_world { db = record panel_world.db { servers = server_of 1 7 ∷ [] } }

delete-authenticate_example :
    (any (is_dst_on 2) panel_world.db.dsts ≡ false)
    × (any (has_id 2) without_server.db.servers ≡ false)
    × (is_online 2 without_server.hub ≡ false)
    × (is_ok (Auth.authenticate (λ t. ok 2) (store_of demo_db without_server.db) "agent") ≡ false)
unfolding delete dst_go_backend.Repository.Server.delete dst_go_backend.AgentManager.Hub.new_hub
    dst_go_backend.AgentManager.Hub.disconnect
delete-authenticate_example =
    delete-authenticate demo_env demo_db-DatabaseLaws 8 2 panel_world without_server (λ t. ok 2)
      "agent" (omega arith) refl refl

abbrev two_servers : World demo_env
two_servers = record panel_world {
  db = record panel_world.db { servers = server_of 1 7 ∷ server_of 2 8 ∷ server_of 3 7 ∷ [] };
}

abbrev both : List ServerResp
both = to_server_resp (server_of 1 7) ∷ to_server_resp (server_of 3 7) ∷ []

read_pages-all_example : both ≡ map to_server_resp (newest_first demo_env 7 two_servers.db)
unfolding read_pages list dst_go_backend.Repository.Server.list
read_pages-all_example =
    read_pages-all demo_env demo_db-DatabaseLaws 7 1 3 two_servers two_servers both (omega arith)
      refl

-- The cluster is another user's.
get_by_id-Tells_example : Tells 8 1 panel_world.db.dsts (get_by_id demo_env 8 1 panel_world).0
get_by_id-Tells_example = get_by_id-Tells demo_env demo_db-DatabaseLaws 8 1 panel_world
