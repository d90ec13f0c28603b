-- ===== src/Service/Panel/Closed.antt =====
-- Properties of the rows that the statements of one user keep.
use dst_go_backend.Base.{ℕ, ◌≡◌, true, false, ◌||◌, List, [], ◌∷◌, ◌++◌, int_lt, int_gt}
use dst_go_backend.Strings.{is_empty}
use dst_go_backend.Repository.Table.{change, remove_if}
use dst_go_backend.Repository.Database.{Server, Dst, Task, any}
use dst_go_backend.Repository.Server
use dst_go_backend.Repository.Server.{ServerUpdates, is_server_of, is_dst_on}
use dst_go_backend.Repository.Dst
use dst_go_backend.Repository.Dst.{DstUpdates, is_dst_of}

-- A property of the rows.
abbrev pub RowsProperty : Type 1
RowsProperty = List Server → List Dst → List Task → Type 0

-- What the guards of `Create` and `Update` of the service of clusters establish.
abbrev pub IsGoodDst : Dst → Type 0
IsGoodDst d =
    ((int_lt d.slot 1 || int_gt d.slot 5) ≡ false)
    × (int_lt d.max_players 1 ≡ false)
    × (is_empty d.name ≡ false)

abbrev pub IsGoodUpdate : DstUpdates → Type 0
IsGoodUpdate u = (int_lt u.max_players 1 ≡ false) × (is_empty u.name ≡ false)

-- The property survives each change that a request of the user can make.
pub record Closed (user_id : ℕ) (J : RowsProperty) : Type 0 where
  pub add_server :
      (ss : List Server) (ds : List Dst) (ts : List Task) (row : Server)
      → row.user_id ≡ user_id
      → J ss ds ts
      → J (ss ++ row ∷ []) ds ts
  pub add_task :
      (ss : List Server) (ds : List Dst) (ts : List Task) (row : Task)
      → row.user_id ≡ user_id
      → J ss ds ts
      → J ss ds (ts ++ row ∷ [])
  pub add_dst :
      (ss : List Server) (ds : List Dst) (ts : List Task) (row : Dst)
      → row.user_id ≡ user_id
      → IsGoodDst row
      → any (is_server_of user_id row.server_id) ss ≡ true
      → J ss ds ts
      → J ss (ds ++ row ∷ []) ts
  pub change_server :
      (ss : List Server) (ds : List Dst) (ts : List Task) (now id : ℕ) (u : ServerUpdates)
      → J ss ds ts
      → J (change (is_server_of user_id id) (Server.apply_updates now u) ss) ds ts
  pub change_dst :
      (ss : List Server) (ds : List Dst) (ts : List Task) (now id : ℕ) (u : DstUpdates)
      → IsGoodUpdate u
      → J ss ds ts
      → J ss (change (is_dst_of user_id id) (Dst.apply_updates now u) ds) ts
  pub drop_server :
      (ss : List Server) (ds : List Dst) (ts : List Task) (id : ℕ)
      → any (is_dst_on id) ds ≡ false
      → J ss ds ts
      → J (remove_if (is_server_of user_id id) ss) ds ts
  pub drop_dst :
      (ss : List Server) (ds : List Dst) (ts : List Task) (id : ℕ)
      → J ss ds ts
      → J ss (remove_if (is_dst_of user_id id) ds) ts
