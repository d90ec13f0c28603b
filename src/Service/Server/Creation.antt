-- ===== src/Service/Server/Creation.antt =====
-- `Create` of internal/service/server/service.go: the server and its deployment task are written in
-- one transaction.
use dst_go_backend.Base.{ℕ, ◌≡◌, List, [], ◌∷◌, ◌++◌}
use dst_go_backend.Apperr.{Result, ok, err}
use dst_go_backend.Act.{Act}
use dst_go_backend.Act.Runs.{Runs}
use dst_go_backend.Repository.Database.{DatabaseLaws, Server, Dst, Task, rows_of}
use dst_go_backend.Repository.Server
use dst_go_backend.Repository.Task
use dst_go_backend.Service.World.{Env, World}
use dst_go_backend.Service.Server.{ServerResp, to_server_resp, deploy_task}

-- The rows that `Create` reads and writes.
abbrev Tables : Type 0
Tables = List Server × List Dst × List Task

module _ (e : Env) where
  abbrev tables : e.Db → Tables
  tables = rows_of e.database

  -- One server more, and one task more, which asks for its agent.
  abbrev Stores : ℕ → Tables → Server → Tables → Type 0
  Stores user_id before server after =
      (server.user_id ≡ user_id)
      × (task : Task) × (task ≡ record (deploy_task e user_id server.id) { base = task.base })
      × (after ≡ (before.0 ++ server ∷ [], before.1, before.2 ++ task ∷ []))

  -- What `Create` answered, and the rows before and after it.
  abbrev pub CreatesAll : ℕ → Tables → Result ServerResp → Tables → Type 0
  CreatesAll user_id before (ok resp) after =
      (server : Server) × (resp ≡ to_server_resp server) × Stores user_id before server after
  CreatesAll user_id before (err x) after = after ≡ before

module _ (e : Env) (laws : DatabaseLaws e.database) (user_id : ℕ) (before : Tables) where
  abbrev Same : e.Db → Type 0
  Same s = tables e s ≡ before

  abbrev Stored : Server → e.Db → Type 0
  Stored server s = Stores e user_id before server (tables e s)

  -- The server is there, and its task not yet.
  abbrev Half : Server → e.Db → Type 0
  Half server s =
      (server.user_id ≡ user_id) × (tables e s ≡ (before.0 ++ server ∷ [], before.1, before.2))

  abbrev SameIn : World e → Type 0
  SameIn w = Same w.db

  abbrev Answered : ServerResp → World e → Type 0
  Answered resp w = CreatesAll e user_id before (ok resp) (tables e w.db)
