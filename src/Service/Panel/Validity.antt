-- ===== src/Service/Panel/Validity.antt =====
-- What is stored of a cluster.
use dst_go_backend.Base.{ℕ, all, ◌≡◌, Bool, true, not, ◌&&◌, ◌||◌, List, arith, int_lt, int_gt}
use dst_go_backend.Strings.{is_empty}
use dst_go_backend.Repository.Database.{DatabaseLaws, Dst}
use dst_go_backend.Repository.Dst
use dst_go_backend.Repository.Dst.{DstUpdates}
use dst_go_backend.Repository.Changes.{all-append, all-change, all-remove_if}
use dst_go_backend.Service.World.{Env, World}
use dst_go_backend.Service.Panel.{Request, serve_all}
use dst_go_backend.Service.Panel.Closed.{RowsProperty, Closed, IsGoodDst, IsGoodUpdate}
use dst_go_backend.Service.Panel.Preservation.{serve_all-keeps}

abbrev is_valid : Dst → Bool
is_valid d =
    not (int_lt d.slot 1 || int_gt d.slot 5)
    && not (int_lt d.max_players 1)
    && not (is_empty d.name)

unfoldable pub all_valid : List Dst → Bool
all_valid = all is_valid

abbrev AllValid : RowsProperty
AllValid ss ds ts = all_valid ds ≡ true

good-is_valid : (d : Dst) → IsGoodDst d → is_valid d ≡ true
good-is_valid d good = ground (arith, good.0, good.1, good.2)

updated-is_valid :
    (now : ℕ) (u : DstUpdates)
    → IsGoodUpdate u
    → (d : Dst) → is_valid d ≡ true
    → is_valid (Dst.apply_updates now u d) ≡ true
updated-is_valid now u good d h = ground (arith, good.0, good.1, h)

AllValid-Closed : (user_id : ℕ) → Closed user_id AllValid
unfolding all_valid
AllValid-Closed user_id = record {
  add_server = λ ss ds ts row own h. h;
  add_task = λ ss ds ts row own h. h;
  add_dst = λ ss ds ts row own good backed h. all-append is_valid ds row h (good-is_valid row good);
  change_server = λ ss ds ts now id u h. h;
  change_dst = λ ss ds ts now id u good h.
      all-change is_valid _ (Dst.apply_updates now u) ds (updated-is_valid now u good) h;
  drop_server = λ ss ds ts id bare h. h;
  drop_dst = λ ss ds ts id h. all-remove_if is_valid _ ds h;
}

-- If every cluster has a slot from 1 to 5, room for a player and a name, then every one still has
-- after any requests of any users, one after the other, in a database with the documented laws.
pub serve_all-all_valid :
    (e : Env)
    → DatabaseLaws e.database
    → (reqs : List (ℕ × Request)) (w : World e) → all_valid (e.dsts.rows w.db) ≡ true
    → all_valid (e.dsts.rows (serve_all e reqs w).db) ≡ true
serve_all-all_valid e laws = serve_all-keeps e laws AllValid AllValid-Closed
