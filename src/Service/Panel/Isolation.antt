-- ===== src/Service/Panel/Isolation.antt =====
-- The requests of one user and the rows of another one.
use dst_go_backend.Base.{ℕ, ◌≡◌, refl, ◌∙◌, Bool, true, false, ◌==◌, List, arith, keep, ◌≢◌}
use dst_go_backend.Repository.Database.{DatabaseLaws, Server, Dst, Task}
use dst_go_backend.Repository.Server.{is_user_server, is_server_of, apply_updates}
use dst_go_backend.Repository.Dst
use dst_go_backend.Repository.Dst.{is_dst_of}
use dst_go_backend.Repository.Changes.{keep-append_other, keep-change, keep-remove_if}
use dst_go_backend.Service.World.{Env, World}
use dst_go_backend.Service.Panel.{Request, serve}
use dst_go_backend.Service.Panel.Closed.{RowsProperty, Closed}
use dst_go_backend.Service.Panel.Lift.{kept-Holds}
use dst_go_backend.Service.Panel.Preservation.{serve-Keeps}

abbrev is_user_dst : ℕ → Dst → Bool
is_user_dst user_id d = d.user_id == user_id

abbrev is_user_task : ℕ → Task → Bool
is_user_task user_id t = t.user_id == user_id

-- The rows that belong to a user.
abbrev rows_of_user : ℕ → List Server → List Dst → List Task → List Server × List Dst × List Task
rows_of_user user_id ss ds ts = (
  keep (is_user_server user_id) ss,
  keep (is_user_dst user_id) ds,
  keep (is_user_task user_id) ts,
)

module _ (e : Env) where
  unfoldable pub view : ℕ → World e → List Server × List Dst × List Task
  view user_id w = rows_of_user user_id (e.servers.rows w.db) (e.dsts.rows w.db) (e.tasks.rows w.db)

module _ (other user_id : ℕ) (ne : user_id ≢ other) (ss0 : List Server) (ds0 : List Dst)
    (ts0 : List Task) where
  abbrev Unseen : RowsProperty
  Unseen ss ds ts =
      (keep (is_user_server other) ss ≡ ss0)
      × (keep (is_user_dst other) ds ≡ ds0)
      × (keep (is_user_task other) ts ≡ ts0)

  not_other : (n : ℕ) → n ≡ user_id → (n == other) ≡ false
  not_other n h = ground (arith, ne)

  not_other_server :
      (id : ℕ) (s : Server) → is_server_of user_id id s ≡ true → is_user_server other s ≡ false
  not_other_server id s h = ground (arith, h, ne)

  not_other_dst : (id : ℕ) (d : Dst) → is_dst_of user_id id d ≡ true → is_user_dst other d ≡ false
  not_other_dst id d h = ground (arith, h, ne)

  Unseen-Closed : Closed user_id Unseen
  Unseen-Closed = record {
    add_server = λ ss ds ts row own h.
        (keep-append_other _ ss row (not_other row.user_id own) ∙ h.0, h.1, h.2);
    add_task = λ ss ds ts row own h.
        (h.0, h.1, keep-append_other _ ts row (not_other row.user_id own) ∙ h.2);
    add_dst = λ ss ds ts row own good backed h.
        (h.0, keep-append_other _ ds row (not_other row.user_id own) ∙ h.1, h.2);
    change_server = λ ss ds ts now id u h. (
      keep-change _ _ (apply_updates now u) ss (not_other_server id) (λ s. refl) ∙ h.0,
      h.1,
      h.2,
    );
    change_dst = λ ss ds ts now id u good h. (
      h.0,
      keep-change _ _ (Dst.apply_updates now u) ds (not_other_dst id) (λ d. refl) ∙ h.1,
      h.2,
    );
    drop_server =
        λ ss ds ts id bare h. (keep-remove_if _ _ ss (not_other_server id) ∙ h.0, h.1, h.2);
    drop_dst = λ ss ds ts id h. (h.0, keep-remove_if _ _ ds (not_other_dst id) ∙ h.1, h.2);
  }

-- Whatever a user asks of the panel, and however it ends, the rows of every other user are the same
-- afterwards, in a database with the documented laws.
pub serve-view :
    (e : Env)
    → DatabaseLaws e.database
    → (user_id other : ℕ) → user_id ≢ other
    → (req : Request) (w : World e) → view e other (serve e user_id req w).1 ≡ view e other w
unfolding view
serve-view e laws user_id other ne req w =
    let ss = keep (is_user_server other) (e.servers.rows w.db) in
    let ds = keep (is_user_dst other) (e.dsts.rows w.db) in
    let ts = keep (is_user_task other) (e.tasks.rows w.db) in
    let J = Unseen other user_id ne ss ds ts in
    let kept =
      kept-Holds e J (serve e user_id req)
        (serve-Keeps e laws user_id J (Unseen-Closed other user_id ne ss ds ts) req) w
        (refl, refl, refl) in
    rw (kept.0, kept.1, kept.2) refl
