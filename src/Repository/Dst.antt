-- ===== src/Repository/Dst.antt =====
-- internal/repository/dst/repository.go.
use dst_go_backend.Base.{
  ℕ, ◌-◌, ◌*◌, String, Bool, ◌&&◌, Option, List, ◌==◌, ℤ, int_leb, if◌then◌else◌,
}
use dst_go_backend.Apperr.{record_not_found}
use dst_go_backend.Act.{Act, pure, throw, ◌>>=◌}
use dst_go_backend.Repository.Rows.{find_row, touched_or}
use dst_go_backend.Repository.User.{stamp}
use dst_go_backend.Repository.Database.{Database, Dst, Slice}
use dst_go_backend.Repository.Server.{or_keep}

-- The columns that the service's map of updates sets.
pub record DstUpdates : Type 0 where
  pub name : String
  pub description : String
  pub max_players : ℤ
  pub mods : Slice
  pub password : Option String
  pub cluster_token : Option String

abbrev pub apply_updates : ℕ → DstUpdates → Dst → Dst
apply_updates now u d = record d {
  name = u.name;
  description = u.description;
  max_players = u.max_players;
  mods = u.mods;
  password = or_keep u.password d.password;
  cluster_token = or_keep u.cluster_token d.cluster_token;
  base = stamp now d.base;
}

abbrev pub is_dst_of : ℕ → ℕ → Dst → Bool
is_dst_of user_id dst_id d = d.id == dst_id && d.user_id == user_id

abbrev pub is_listed : ℕ → ℕ → Dst → Bool
is_listed user_id server_id d = d.user_id == user_id && d.server_id == server_id

-- `slot ASC`.
abbrev pub lowest_slot : Dst → Dst → Bool
lowest_slot a b = int_leb a.slot b.slot

module _ (d : Database) where
  unfoldable pub create : Dst → Act d.Db Dst
  create dst = d.dsts.create dst

  unfoldable pub get_by_id : ℕ → ℕ → Act d.Db (Option Dst)
  get_by_id user_id dst_id = find_row d.dsts (is_dst_of user_id dst_id)

  -- Pages count from 1: the service asks for no other.
  unfoldable pub list : ℕ → ℕ → ℕ → ℕ → Act d.Db (List Dst × ℕ)
  list user_id server_id page page_size = do
    total ← d.dsts.count (is_listed user_id server_id)
    dsts ← d.dsts.page (is_listed user_id server_id) lowest_slot ((page - 1) * page_size) page_size
    pure (dsts, total)

  unfoldable pub update : ℕ → ℕ → ℕ → DstUpdates → Act d.Db (Unit {0})
  unfolding get_by_id
  update now user_id dst_id updates =
      touched_or (d.dsts.update (is_dst_of user_id dst_id) (apply_updates now updates))
        (get_by_id user_id dst_id) record_not_found (pure tt)

  unfoldable pub delete : ℕ → ℕ → Act d.Db (Unit {0})
  delete user_id dst_id = do
    affected ← d.dsts.delete (is_dst_of user_id dst_id)
    if affected == 0 then throw record_not_found else pure tt
