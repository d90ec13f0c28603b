-- ===== src/Tests/RaceRuns.antt =====
-- Two requests at once: the guard of `Create` of internal/service/dst/service.go, then `Delete` of
-- internal/service/server/service.go, then the insertion of `Create`.
use dst_go_backend.Base.{◌≡◌, refl, true, false, none, pos}
use dst_go_backend.Apperr.{is_ok}
use dst_go_backend.Repository.Dst
use dst_go_backend.Service.World.{World, on_db}
use dst_go_backend.Service.Server
use dst_go_backend.Service.Dst.{CreateDstReq, need_server, new_dst}
use dst_go_backend.Service.Panel.Orphans.{no_orphans}
use dst_go_backend.Tests.Demo.{demo_env}
use dst_go_backend.Tests.DemoDb.{demo_db}
use dst_go_backend.Tests.PanelRuns.{panel_world}

abbrev req : CreateDstReq
req = record {
  server_id = 2;
  slot = pos 3;
  name = "world";
  description = "";
  password = "";
  max_players = pos 4;
  cluster_token = "";
  mods = none;
}

abbrev guarded : World demo_env
guarded = (need_server demo_env 8 2 panel_world).1

abbrev deleted : World demo_env
deleted = (Server.delete demo_env 8 2 guarded).1

abbrev inserted : World demo_env
inserted = (on_db demo_env (Dst.create demo_db (new_dst 8 req)) deleted).1

-- The guard and the deletion succeed, and the cluster is left without a server.
race :
    (is_ok (need_server demo_env 8 2 panel_world).0 ≡ true)
    × (is_ok (Server.delete demo_env 8 2 guarded).0 ≡ true)
    × (no_orphans panel_world.db.servers panel_world.db.dsts ≡ true)
    × (no_orphans inserted.db.servers inserted.db.dsts ≡ false)
unfolding need_server Server.delete no_orphans dst_go_backend.Repository.Server.get_by_id
    dst_go_backend.Repository.Server.delete Dst.create
race = (refl, refl, refl, refl)
