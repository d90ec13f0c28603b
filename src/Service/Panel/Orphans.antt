-- ===== src/Service/Panel/Orphans.antt =====
-- Clusters and the servers that they run on.
use dst_go_backend.Base.{ℕ, all, ◌≡◌, refl, ◌∙◌, ap, Bool, true, false, List, [], ◌∷◌, arith}
use dst_go_backend.Repository.Database.{DatabaseLaws, Server, Dst, any}
use dst_go_backend.Repository.Table.{remove_if}
use dst_go_backend.Repository.Server.{is_server_of, is_dst_on, apply_updates}
use dst_go_backend.Repository.Dst
use dst_go_backend.Repository.Dst.{is_dst_of}
use dst_go_backend.Repository.Changes.{
  all-append, all-change, all-imp, all-remove_if, any-append, any-change, any-remove_if,
}
use dst_go_backend.Service.World.{Env, World}
use dst_go_backend.Service.Panel.{Request, serve_all}
use dst_go_backend.Service.Panel.Closed.{RowsProperty, Closed}
use dst_go_backend.Service.Panel.Preservation.{serve_all-keeps}

-- The server that the cluster names is there and is its user's.
abbrev is_backed : List Server → Dst → Bool
is_backed ss d = any (is_server_of d.user_id d.server_id) ss

unfoldable pub no_orphans : List Server → List Dst → Bool
no_orphans ss ds = all (is_backed ss) ds

abbrev NoOrphans : RowsProperty
NoOrphans ss ds ts = no_orphans ss ds ≡ true

-- A server without clusters is deleted: none of the others is missed.
backed-remove_if :
    (user_id id : ℕ) (ss : List Server) (ds : List Dst)
    → any (is_dst_on id) ds ≡ false
    → all (is_backed ss) ds ≡ true
    → all (is_backed (remove_if (is_server_of user_id id) ss)) ds ≡ true
backed-remove_if user_id id ss [] bare h = refl
backed-remove_if user_id id ss (d ∷ ds) bare h =
    let p = is_server_of d.user_id d.server_id in
    let there = any-remove_if p (is_server_of user_id id) ss other in
    ground (arith, there, backed-remove_if user_id id ss ds, bare, h)
  where
    other :
        (s : Server)
        → is_server_of user_id id s ≡ true
        → is_server_of d.user_id d.server_id s ≡ false
    other s e = ground (arith, bare, e)

NoOrphans-Closed : (user_id : ℕ) → Closed user_id NoOrphans
unfolding no_orphans
NoOrphans-Closed user_id = record {
  add_server = λ ss ds ts row own h.
      all-imp (is_backed ss) _ ds (λ d. any-append (is_server_of d.user_id d.server_id) ss row) h;
  add_task = λ ss ds ts row own h. h;
  add_dst = λ ss ds ts row own good backed h.
      all-append (is_backed ss) ds row h
        (ap (λ u. any (is_server_of u row.server_id) ss) own ∙ backed);
  change_server = λ ss ds ts now id u h.
      all-imp (is_backed ss) _ ds
        (λ d b.
          any-change (is_server_of d.user_id d.server_id) (is_server_of user_id id)
            (apply_updates now u) ss (λ s. refl)
          ∙ b)
        h;
  change_dst = λ ss ds ts now id u good h.
      all-change (is_backed ss) _ (Dst.apply_updates now u) ds (λ d b. b) h;
  drop_server = λ ss ds ts id bare h. backed-remove_if user_id id ss ds bare h;
  drop_dst = λ ss ds ts id h. all-remove_if (is_backed ss) _ ds h;
}

-- If every cluster stands on a server of its user, then every one still does after any requests of
-- any users, one after the other, in a database with the documented laws.
pub serve_all-no_orphans :
    (e : Env)
    → DatabaseLaws e.database
    → (reqs : List (ℕ × Request)) (w : World e)
    → no_orphans (e.servers.rows w.db) (e.dsts.rows w.db) ≡ true
    → no_orphans (e.servers.rows (serve_all e reqs w).db) (e.dsts.rows (serve_all e reqs w).db)
      ≡ true
serve_all-no_orphans e laws = serve_all-keeps e laws NoOrphans NoOrphans-Closed
