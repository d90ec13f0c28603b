-- ===== src/Service/Panel/Statements.antt =====
-- The statements of internal/repository/server, dst and task, and properties of the rows that are
-- `Closed`.
use dst_go_backend.Base.{ℕ, ◌≡◌, refl, Bool, true, false, ◌==◌, if◌then◌else◌}
use dst_go_backend.Apperr.{record_not_found, Result, ok, err}
use dst_go_backend.Act.{pure, throw}
use dst_go_backend.Act.Runs.{Post, Runs, Runs-bind}
use dst_go_backend.Repository.Table.{Updates, Deletes, Creates}
use dst_go_backend.Repository.Database.{
  Database, DatabaseLaws, Server, Dst, Task, SameServer, SameDst, SameTask, any, DeletesUnless,
}
use dst_go_backend.Repository.Server
use dst_go_backend.Repository.Server.{ServerUpdates, is_server_of, is_dst_on}
use dst_go_backend.Repository.Dst
use dst_go_backend.Repository.Dst.{DstUpdates, is_dst_of}
use dst_go_backend.Repository.Task
use dst_go_backend.Service.Panel.Closed.{RowsProperty, Closed, IsGoodDst, IsGoodUpdate}
use dst_go_backend.Service.Panel.Kept.{Holds, Kept, same_rows, touched-Kept}
use dst_go_backend.Service.Panel.Queries.{get_server-Kept, get_dst-Kept}

module _ (d : Database) (laws : DatabaseLaws d) (user_id : ℕ) (J : RowsProperty)
    (closed : Closed user_id J) where
  server_updated :
      (now id : ℕ) (u : ServerUpdates) (s : d.Db) (q : Result ℕ) (t : d.Db)
      → Updates
          (is_server_of user_id id)
          (Server.apply_updates now u)
          (d.servers.rows s)
          (d.servers.rows t)
          q
      → d.dsts.rows t ≡ d.dsts.rows s
      → d.tasks.rows t ≡ d.tasks.rows s
      → (Holds d J) s
      → Post (λ (n : ℕ). (Holds d J)) (Holds d J) q t
  server_updated now id u s (ok n) t up a b h =
      rw (up.1, a, b) (closed.change_server _ _ _ now id u h)
  server_updated now id u s (err x) t up a b h = same_rows d J s t up a b h

  pub update_server-Kept :
      (now id : ℕ) (u : ServerUpdates) → Kept d J (Server.update d now user_id id u)
  unfolding Server.update
  update_server-Kept now id u =
      touched-Kept d J _ _ _ _
        (λ s h.
          server_updated now id u s _ _ (laws.servers.update_lem _ _ s)
            (laws.servers_dsts.update_apart _ _ s) (laws.servers_tasks.update_apart _ _ s) h)
        (get_server-Kept d laws user_id J id) (λ s h. h)

  dst_updated :
      (now id : ℕ) (u : DstUpdates) (s : d.Db) (q : Result ℕ) (t : d.Db)
      → IsGoodUpdate u
      → Updates (is_dst_of user_id id) (Dst.apply_updates now u) (d.dsts.rows s) (d.dsts.rows t) q
      → d.servers.rows t ≡ d.servers.rows s
      → d.tasks.rows t ≡ d.tasks.rows s
      → (Holds d J) s
      → Post (λ (n : ℕ). (Holds d J)) (Holds d J) q t
  dst_updated now id u s (ok n) t good up a b h =
      rw (up.1, a, b) (closed.change_dst _ _ _ now id u good h)
  dst_updated now id u s (err x) t good up a b h = same_rows d J s t a up b h

  pub update_dst-Kept :
      (now id : ℕ) (u : DstUpdates) → IsGoodUpdate u → Kept d J (Dst.update d now user_id id u)
  unfolding Dst.update
  update_dst-Kept now id u good =
      touched-Kept d J _ _ _ _
        (λ s h.
          dst_updated now id u s _ _ good (laws.dsts.update_lem _ _ s)
            (laws.dsts_servers.update_apart _ _ s) (laws.dsts_tasks.update_apart _ _ s) h)
        (get_dst-Kept d laws user_id J id) (λ s h. h)

  server_deleted :
      (id : ℕ) (b : Bool) (s : d.Db) (q : Result ℕ) (t : d.Db)
      → any (is_dst_on id) (d.dsts.rows s) ≡ b
      → DeletesUnless b (is_server_of user_id id) (d.servers.rows s) (d.servers.rows t) q
      → d.dsts.rows t ≡ d.dsts.rows s
      → d.tasks.rows t ≡ d.tasks.rows s
      → (Holds d J) s
      → Post (λ (n : ℕ). (Holds d J)) (Holds d J) q t
  server_deleted id true s (ok n) t is del a b h = same_rows d J s t del.1 a b h
  server_deleted id true s (err x) t is del a b h = same_rows d J s t del a b h
  server_deleted id false s (ok n) t is del a b h =
      rw (del.1, a, b) (closed.drop_server _ _ _ id is h)
  server_deleted id false s (err x) t is del a b h = same_rows d J s t del a b h

  pub delete_server-Kept : (id : ℕ) → Kept d J (Server.delete d user_id id)
  unfolding Server.delete
  delete_server-Kept id =
      touched-Kept d J _ _ _ _
        (λ s h.
          server_deleted id _ s _ _ refl (laws.delete_unless_lem _ _ s)
            (laws.delete_unless_dsts _ _ s) (laws.delete_unless_tasks _ _ s) h)
        (get_server-Kept d laws user_id J id) (λ s h. h)

  dst_deleted :
      (id : ℕ) (s : d.Db) (q : Result ℕ) (t : d.Db)
      → Deletes (is_dst_of user_id id) (d.dsts.rows s) (d.dsts.rows t) q
      → d.servers.rows t ≡ d.servers.rows s
      → d.tasks.rows t ≡ d.tasks.rows s
      → (Holds d J) s
      → Post (λ (n : ℕ). (Holds d J)) (Holds d J) q t
  dst_deleted id s (ok n) t del a b h = rw (del.1, a, b) (closed.drop_dst _ _ _ id h)
  dst_deleted id s (err x) t del a b h = same_rows d J s t a del b h

  pub delete_dst-Kept : (id : ℕ) → Kept d J (Dst.delete d user_id id)
  unfolding Dst.delete
  delete_dst-Kept id =
      Runs-bind (Holds d J) (λ n. (Holds d J)) (λ u. (Holds d J)) (Holds d J) _ _
        (λ s h.
          dst_deleted id s _ _ (laws.more_dsts.delete_lem _ s) (laws.dsts_servers.delete_apart _ s)
            (laws.dsts_tasks.delete_apart _ s) h)
        (λ n. decided (n == 0))
    where
      decided : (b : Bool) → Kept d J (if b then throw record_not_found else pure tt)
      decided true s h = h
      decided false s h = h

  dst_created :
      (row : Dst) (s : d.Db) (q : Result Dst) (t : d.Db)
      → row.user_id ≡ user_id
      → IsGoodDst row
      → any (is_server_of user_id row.server_id) (d.servers.rows s) ≡ true
      → Creates SameDst row (d.dsts.rows s) (d.dsts.rows t) q
      → d.servers.rows t ≡ d.servers.rows s
      → d.tasks.rows t ≡ d.tasks.rows s
      → (Holds d J) s
      → Post (λ (stored : Dst). (Holds d J)) (Holds d J) q t
  dst_created row s (ok stored) t own good backed made a b h =
      rw (made.0, a, b, made.1)
        (closed.add_dst _ _ _ (record row { base = stored.base }) own good backed h)
  dst_created row s (err x) t own good backed made a b h = same_rows d J s t a made b h

  pub create_dst-Runs :
      (row : Dst)
      → row.user_id ≡ user_id
      → IsGoodDst row
      → Runs
          (λ s.
            (Holds d J) s × (any (is_server_of user_id row.server_id) (d.servers.rows s) ≡ true))
          (Dst.create d row)
          (λ stored. (Holds d J))
          (Holds d J)
  unfolding Dst.create
  create_dst-Runs row own good s h =
      dst_created row s _ _ own good h.1 (laws.more_dsts.create_lem row s)
        (laws.dsts_servers.create_apart row s) (laws.dsts_tasks.create_apart row s) h.0

  server_created :
      (row : Server) (s : d.Db) (q : Result Server) (t : d.Db)
      → row.user_id ≡ user_id
      → Creates SameServer row (d.servers.rows s) (d.servers.rows t) q
      → d.dsts.rows t ≡ d.dsts.rows s
      → d.tasks.rows t ≡ d.tasks.rows s
      → (Holds d J) s
      → Post (λ (stored : Server). (Holds d J)) (Holds d J) q t
  server_created row s (ok stored) t own made a b h =
      rw (made.0, a, b, made.1) (closed.add_server _ _ _ (record row { base = stored.base }) own h)
  server_created row s (err x) t own made a b h = same_rows d J s t made a b h

  pub create_server-Kept : (row : Server) → row.user_id ≡ user_id → Kept d J (Server.create d row)
  unfolding Server.create
  create_server-Kept row own s h =
      server_created row s _ _ own (laws.more_servers.create_lem row s)
        (laws.servers_dsts.create_apart row s) (laws.servers_tasks.create_apart row s) h

  task_created :
      (row : Task) (s : d.Db) (q : Result Task) (t : d.Db)
      → row.user_id ≡ user_id
      → Creates SameTask row (d.tasks.rows s) (d.tasks.rows t) q
      → d.servers.rows t ≡ d.servers.rows s
      → d.dsts.rows t ≡ d.dsts.rows s
      → (Holds d J) s
      → Post (λ (stored : Task). (Holds d J)) (Holds d J) q t
  task_created row s (ok stored) t own made a b h =
      rw (made.0, a, b, made.1) (closed.add_task _ _ _ (record row { base = stored.base }) own h)
  task_created row s (err x) t own made a b h = same_rows d J s t a b made h

  pub create_task-Kept : (row : Task) → row.user_id ≡ user_id → Kept d J (Task.create d row)
  unfolding Task.create
  create_task-Kept row own s h =
      task_created row s _ _ own (laws.more_tasks.create_lem row s)
        (laws.tasks_servers.create_apart row s) (laws.tasks_dsts.create_apart row s) h
