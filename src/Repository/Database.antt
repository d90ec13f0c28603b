-- ===== src/Repository/Database.antt =====
-- The database that internal/bootstrap opens, with the tables of internal/model/entity, and gorm's
-- transactions. Neither is part of the repository: they are a record with laws.
use dst_go_backend.Base.{ℕ, ◌≡◌, String, Bool, true, false, ◌||◌, Option, List, [], ◌∷◌, ℤ}
use dst_go_backend.Apperr.{Error, Result, ok, err}
use dst_go_backend.Act.{Act}
use dst_go_backend.Repository.Table.{Table, TableLaws, MoreLaws, Apart, Deletes}
use dst_go_backend.Repository.User.{BaseModel, User}

-- A slice is `none` where it is nil.
abbrev pub Slice : Type 0
Slice = Option (List String)

-- internal/model/entity/server.go; the password is the ciphertext.
pub record Server : Type 0 where
  pub base : BaseModel
  pub open base use *
  pub name : String
  pub ip : String
  pub port : ℤ
  pub username : String
  pub password : String
  pub cpu : ℤ
  pub ram : ℤ
  pub disk : ℤ
  pub os_name : String
  pub game_env : Slice
  pub mods : Slice
  pub user_id : ℕ

-- internal/model/entity/dst.go
pub record Dst : Type 0 where
  pub base : BaseModel
  pub open base use *
  pub slot : ℤ
  pub name : String
  pub description : String
  pub password : String
  pub max_players : ℤ
  pub cluster_token : String
  pub status : ℤ
  pub mods : Slice
  pub server_id : ℕ
  pub user_id : ℕ

-- internal/model/entity/task.go
pub record Task : Type 0 where
  pub base : BaseModel
  pub open base use *
  pub name : String
  pub kind : String
  pub status : String
  pub stage : String
  pub resource_type : String
  pub resource_id : ℕ
  pub user_id : ℕ
  pub error_message : String
  pub started_at : Option ℕ
  pub finished_at : Option ℕ

-- `delete_unless` is `DELETE ... WHERE p AND NOT EXISTS (SELECT 1 FROM dst WHERE q)`. `transaction`
-- is `gorm.DB.Transaction`, on the state as `start` shows it to the function.
pub record Database : Type 1 where
  pub Db : Type 0
  pub users : Table Db User
  pub servers : Table Db Server
  pub dsts : Table Db Dst
  pub tasks : Table Db Task
  pub delete_unless : (Server → Bool) → (Dst → Bool) → Act Db ℕ
  pub start : Db → Db
  pub transaction : (A : Type 0) → Act Db A → Act Db A

abbrev pub any : {A : Type 0} → (A → Bool) → List A → Bool
any p [] = false
any p (x ∷ xs) = p x || any p xs

-- What the database gives a new row is its id and its instants. A field that is zero takes the default
-- of its column, which differs from zero for a port, a slot and a number of players only: binding asks
-- for more than zero there.
abbrev pub SameServer : Server → Server → Type 0
SameServer row stored = stored ≡ record row { base = stored.base }

abbrev pub SameDst : Dst → Dst → Type 0
SameDst row stored = stored ≡ record row { base = stored.base }

abbrev pub SameTask : Task → Task → Type 0
SameTask row stored = stored ≡ record row { base = stored.base }

-- A condition with NOT EXISTS holds for no row where the subquery has one.
abbrev pub DeletesUnless : Bool → (Server → Bool) → List Server → List Server → Result ℕ → Type 0
DeletesUnless true p before after (ok n) = (n ≡ 0) × (after ≡ before)
DeletesUnless true p before after (err e) = after ≡ before
DeletesUnless false p before after r = Deletes p before after r

module _ (d : Database) where
  -- The rows that the services of servers, clusters and tasks work on.
  abbrev pub rows_of : d.Db → List Server × List Dst × List Task
  rows_of s = (d.servers.rows s, d.dsts.rows s, d.tasks.rows s)

  pub record DatabaseLaws : Type 1 where
    pub servers : TableLaws d.servers
    pub more_servers : MoreLaws d.servers SameServer
    pub dsts : TableLaws d.dsts
    pub more_dsts : MoreLaws d.dsts SameDst
    pub tasks : TableLaws d.tasks
    pub more_tasks : MoreLaws d.tasks SameTask
    pub servers_dsts : Apart d.servers d.dsts
    pub servers_tasks : Apart d.servers d.tasks
    pub dsts_servers : Apart d.dsts d.servers
    pub dsts_tasks : Apart d.dsts d.tasks
    pub tasks_servers : Apart d.tasks d.servers
    pub tasks_dsts : Apart d.tasks d.dsts
    pub delete_unless_lem :
        (p : Server → Bool) (q : Dst → Bool) (s : d.Db)
        → DeletesUnless
            (any q (d.dsts.rows s))
            p
            (d.servers.rows s)
            (d.servers.rows (d.delete_unless p q s).1)
            (d.delete_unless p q s).0
    pub delete_unless_dsts :
        (p : Server → Bool) (q : Dst → Bool) (s : d.Db)
        → d.dsts.rows (d.delete_unless p q s).1 ≡ d.dsts.rows s
    pub delete_unless_tasks :
        (p : Server → Bool) (q : Dst → Bool) (s : d.Db)
        → d.tasks.rows (d.delete_unless p q s).1 ≡ d.tasks.rows s
    pub start_rows : (s : d.Db) → rows_of (d.start s) ≡ rows_of s
    -- A transaction that ends without error has run its function, and its rows are there.
    pub committed :
        {A : Type 0} (m : Act d.Db A) (s s' : d.Db) (a : A)
        → d.transaction A m s ≡ (ok a, s')
        → ((m (d.start s)).0 ≡ ok a) × (rows_of s' ≡ rows_of (m (d.start s)).1)
    -- One that ends with an error has changed no row.
    pub rolled_back :
        {A : Type 0} (m : Act d.Db A) (s s' : d.Db) (x : Error)
        → d.transaction A m s ≡ (err x, s')
        → rows_of s' ≡ rows_of s
