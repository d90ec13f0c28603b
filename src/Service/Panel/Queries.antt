-- ===== src/Service/Panel/Queries.antt =====
-- The queries of internal/repository/server, dst and task, and properties of the rows.
use dst_go_backend.Base.{ℕ, ◌-◌, ◌*◌, ◌≡◌, Bool, true, Option, none, some, List, [], ◌∷◌, arith}
use dst_go_backend.Apperr.{Result, ok, err}
use dst_go_backend.Act.Runs.{Post, Runs}
use dst_go_backend.Repository.Table.{find}
use dst_go_backend.Repository.Rows.{find_row, find_row-view, find_row-Finds, Finds}
use dst_go_backend.Repository.Database.{Database, DatabaseLaws, Server, any}
use dst_go_backend.Repository.Server
use dst_go_backend.Repository.Server.{ServerUpdates, is_server_of, is_dst_on}
use dst_go_backend.Repository.Dst
use dst_go_backend.Repository.Dst.{DstUpdates, is_dst_of}
use dst_go_backend.Repository.Task
use dst_go_backend.Service.Panel.Closed.{RowsProperty}
use dst_go_backend.Service.Panel.Kept.{Holds, Kept, same_rows, listed, quiet-Kept}

module _ (d : Database) (laws : DatabaseLaws d) (user_id : ℕ) (J : RowsProperty) where
  -- The user's server is there.
  abbrev pub IsBacked : ℕ → Option Server → d.Db → Type 0
  IsBacked server_id none s = Unit
  IsBacked server_id (some found) s = any (is_server_of user_id server_id) (d.servers.rows s) ≡ true

  any-find :
      (p : Server → Bool) (xs : List Server) (x : Server) → find p xs ≡ some x → any p xs ≡ true
  any-find p [] x h = cc
  any-find p (y ∷ xs) x h = ground (arith, any-find p xs x)

  backed :
      (id : ℕ) (s : d.Db) (q : Result (Option Server)) (t : d.Db)
      → Finds (find (is_server_of user_id id) (d.servers.rows s)) q
      → d.servers.rows t ≡ d.servers.rows s
      → (Holds d J) t
      → Post (λ found t. (Holds d J) t × IsBacked id found t) (Holds d J) q t
  backed id s (ok none) t f same h = (h, tt)
  backed id s (ok (some x)) t f same h =
      (h, rw same (any-find (is_server_of user_id id) (d.servers.rows s) x f))
  backed id s (err x) t f same h = h

  pub get_server-Runs :
      (id : ℕ)
      → Runs
          (Holds d J)
          (Server.get_by_id d user_id id)
          (λ found s. (Holds d J) s × IsBacked id found s)
          (Holds d J)
  unfolding Server.get_by_id
  get_server-Runs id s h =
      let p = is_server_of user_id id in
      let r = find_row d.servers p s in
      let same = find_row-view d.servers d.servers.rows p s (laws.servers.first_rows p s) in
      backed id s r.0 r.1 (find_row-Finds d.servers laws.servers p s) same (
        same_rows d J s r.1 same
          (find_row-view d.servers d.dsts.rows p s (laws.servers_dsts.first_apart p s))
          (find_row-view d.servers d.tasks.rows p s (laws.servers_tasks.first_apart p s)) h)

  pub get_server-Kept : (id : ℕ) → Kept d J (Server.get_by_id d user_id id)
  get_server-Kept id s h = weaker _ _ (get_server-Runs id s h)
    where
      weaker :
          (q : Result (Option Server)) (t : d.Db)
          → Post (λ found t. (Holds d J) t × IsBacked id found t) (Holds d J) q t
          → Post (λ (a : Option Server). (Holds d J)) (Holds d J) q t
      weaker (ok a) t h = h.0
      weaker (err x) t h = h

  pub get_dst-Kept : (id : ℕ) → Kept d J (Dst.get_by_id d user_id id)
  unfolding Dst.get_by_id
  get_dst-Kept id =
      let p = is_dst_of user_id id in
      quiet-Kept d J (find_row d.dsts p)
        (λ s. find_row-view d.dsts d.servers.rows p s (laws.dsts_servers.first_apart p s))
        (λ s. find_row-view d.dsts d.dsts.rows p s (laws.dsts.first_rows p s))
        (λ s. find_row-view d.dsts d.tasks.rows p s (laws.dsts_tasks.first_apart p s))

  pub get_task-Kept : (id : ℕ) → Kept d J (Task.get_by_id d user_id id)
  unfolding Task.get_by_id
  get_task-Kept id =
      let p = Task.is_task_of user_id id in
      quiet-Kept d J (find_row d.tasks p)
        (λ s. find_row-view d.tasks d.servers.rows p s (laws.tasks_servers.first_apart p s))
        (λ s. find_row-view d.tasks d.dsts.rows p s (laws.tasks_dsts.first_apart p s))
        (λ s. find_row-view d.tasks d.tasks.rows p s (laws.tasks.first_rows p s))

  pub list_servers-Kept : (page size : ℕ) → Kept d J (Server.list d user_id page size)
  unfolding Server.list
  list_servers-Kept page size =
      let p = Server.is_user_server user_id in
      let le = Server.newest_server in
      let o = (page - 1) * size in
      listed d J (d.servers.count p) (d.servers.page p le o size)
        (quiet-Kept d J (d.servers.count p) (laws.more_servers.count_rows p)
          (laws.servers_dsts.count_apart p) (laws.servers_tasks.count_apart p))
        (quiet-Kept d J (d.servers.page p le o size) (laws.more_servers.page_rows p le o size)
          (laws.servers_dsts.page_apart p le o size) (laws.servers_tasks.page_apart p le o size))

  pub list_dsts-Kept : (server page size : ℕ) → Kept d J (Dst.list d user_id server page size)
  unfolding Dst.list
  list_dsts-Kept server page size =
      let p = Dst.is_listed user_id server in
      let le = Dst.lowest_slot in
      let o = (page - 1) * size in
      listed d J (d.dsts.count p) (d.dsts.page p le o size)
        (quiet-Kept d J (d.dsts.count p) (laws.dsts_servers.count_apart p)
          (laws.more_dsts.count_rows p) (laws.dsts_tasks.count_apart p))
        (quiet-Kept d J (d.dsts.page p le o size) (laws.dsts_servers.page_apart p le o size)
          (laws.more_dsts.page_rows p le o size) (laws.dsts_tasks.page_apart p le o size))

  pub list_tasks-Kept : (q : Task.ListQuery) → Kept d J (Task.list d user_id q)
  unfolding Task.list
  list_tasks-Kept q =
      let p = Task.is_asked user_id q in
      let le = Task.newest_task in
      let o = (q.page - 1) * q.page_size in
      let n = q.page_size in
      listed d J (d.tasks.count p) (d.tasks.page p le o n)
        (quiet-Kept d J (d.tasks.count p) (laws.tasks_servers.count_apart p)
          (laws.tasks_dsts.count_apart p) (laws.more_tasks.count_rows p))
        (quiet-Kept d J (d.tasks.page p le o n) (laws.tasks_servers.page_apart p le o n)
          (laws.tasks_dsts.page_apart p le o n) (laws.more_tasks.page_rows p le o n))
