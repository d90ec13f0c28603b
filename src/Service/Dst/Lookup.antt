-- ===== src/Service/Dst/Lookup.antt =====
-- `GetByID` of internal/service/dst/service.go against the rows.
use dst_go_backend.Base.{
  ℕ, ◌≡◌, ◌≢◌, refl, ◌⊎◌, inl, inr, Option, none, some, List, [], ◌∷◌, arith, Bool-cases,
  Option-cases, String,
}
use dst_go_backend.Apperr.{biz, Result, ok, err}
use dst_go_backend.Act.{continue, recode_result, need, pure, ◌>>=◌}
use dst_go_backend.Repository.Table.{find}
use dst_go_backend.Repository.Rows.{Finds, find_row, find_row-Finds}
use dst_go_backend.Repository.Database.{DatabaseLaws, Dst, Slice}
use dst_go_backend.Repository.Dst
use dst_go_backend.Repository.Dst.{is_dst_of}
use dst_go_backend.Service.World.{Env, World}
use dst_go_backend.Service.Dst.{DstResp, to_dst_resp, get_by_id}

-- The row of the cluster is among the rows.
abbrev pub IsAmong : Dst → List Dst → Type 0
IsAmong d [] = ⊥
IsAmong d (x ∷ rows) = (d ≡ x) ⊎ IsAmong d rows

-- No row with the id is the user's.
abbrev pub HasNone : ℕ → ℕ → List Dst → Type 0
HasNone user_id dst_id [] = Unit
HasNone user_id dst_id (x ∷ rows) =
    ((x.id ≢ dst_id) ⊎ (x.user_id ≢ user_id)) × HasNone user_id dst_id rows

-- The mods of a row as a list, which is empty where the row has none.
abbrev pub shown_mods : Slice → List String
shown_mods none = []
shown_mods (some mods) = mods

-- The answer shows the row, without its password and its token.
abbrev pub Shows : Dst → DstResp → Type 0
Shows d resp = resp ≡ record {
  id = d.id;
  server_id = d.server_id;
  slot = d.slot;
  name = d.name;
  description = d.description;
  max_players = d.max_players;
  status = d.status;
  mods = shown_mods d.mods;
  created_at = d.created_at;
  updated_at = d.updated_at;
}

to_dst_resp-Shows : (d : Dst) → Shows d (to_dst_resp d)
to_dst_resp-Shows d = elim (Option-cases d.mods) [
  | inl without ↦ rw without refl
  | inr (mods, there) ↦ rw there refl
]

-- What an answer says of the rows.
abbrev pub Tells : ℕ → ℕ → List Dst → Result DstResp → Type 0
Tells user_id dst_id rows (ok resp) =
    (d : Dst) × IsAmong d rows × (d.id ≡ dst_id) × (d.user_id ≡ user_id) × Shows d resp
Tells user_id dst_id rows (err x) =
    ((x ≡ biz 404 "存档不存在") × HasNone user_id dst_id rows) ⊎ (x ≡ biz 500 "存档查询失败")

found-IsAmong :
    (user_id dst_id : ℕ) (rows : List Dst) (d : Dst)
    → find (is_dst_of user_id dst_id) rows ≡ some d
    → IsAmong d rows × (d.id ≡ dst_id) × (d.user_id ≡ user_id)
found-IsAmong user_id dst_id [] d h = absurd (ground (arith, h))
found-IsAmong user_id dst_id (x ∷ rows) d h = elim (Bool-cases (is_dst_of user_id dst_id x)) [
  | inl here ↦
      let same : d ≡ x = ground (arith, h, here) in
      rw same (inl refl, ground (arith, here), ground (arith, here))
  | inr other ↦
      let rest = found-IsAmong user_id dst_id rows d (ground (arith, h, other)) in
      (inr rest.0, rest.1, rest.2)
]

missed-HasNone :
    (user_id dst_id : ℕ) (rows : List Dst)
    → find (is_dst_of user_id dst_id) rows ≡ none
    → HasNone user_id dst_id rows
missed-HasNone user_id dst_id [] h = tt
missed-HasNone user_id dst_id (x ∷ rows) h = ground (arith, h, missed-HasNone user_id dst_id rows)

-- `GetByID` of a cluster answers with a row of that id that is the user's, or with 404 where no row
-- is both, a row of another user included, or with 500; what it shows is the row, but for its password
-- and its token. In a database with the documented laws.
pub get_by_id-Tells :
    (e : Env)
    → DatabaseLaws e.database
    → (user_id dst_id : ℕ) (w : World e)
    → Tells user_id dst_id (e.dsts.rows w.db) (get_by_id e user_id dst_id w).0
unfolding get_by_id Dst.get_by_id
get_by_id-Tells e laws user_id dst_id w =
    let p = is_dst_of user_id dst_id in
    told (find_row e.dsts p w.db).0 (record w { db = (find_row e.dsts p w.db).1 })
      (find_row-Finds e.dsts laws.dsts p w.db)
  where
    told :
        (q : Result (Option Dst)) (v : World e)
        → Finds (find (is_dst_of user_id dst_id) (e.dsts.rows w.db)) q
        → Tells user_id dst_id
            (e.dsts.rows w.db)
            (continue
              (recode_result (biz 500 "存档查询失败") q)
              (λ found. need found (biz 404 "存档不存在") >>= λ dst. pure (to_dst_resp dst))
              v).0
    told (ok none) v f = inl (refl, missed-HasNone user_id dst_id (e.dsts.rows w.db) f)
    told (ok (some d)) v f =
        let (there, same_id, same_user) = found-IsAmong user_id dst_id (e.dsts.rows w.db) d f in
        (d, there, same_id, same_user, to_dst_resp-Shows d)
    told (err x) v f = inr refl
