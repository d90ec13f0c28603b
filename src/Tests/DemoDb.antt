-- ===== src/Tests/DemoDb.antt =====
-- A concrete database: four lists of rows, with gorm's documented behaviour.
use dst_go_backend.Base.{
  ℕ, suc, ◌≡◌, refl, Bool, Option, none, some, List, [], ◌∷◌, ◌++◌, length, keep, take, drop, arith,
  if◌then◌else◌, Bool-cases, inl, inr,
}
use dst_go_backend.Apperr.{Error, record_not_found, Result, ok, err}
use dst_go_backend.Act.{Act}
use dst_go_backend.Repository.Table.{
  Table, TableLaws, MoreLaws, Apart, find, change, remove_if, Answers,
}
use dst_go_backend.Repository.User.{User, BaseModel}
use dst_go_backend.Repository.Database.{
  Database, DatabaseLaws, Server, Dst, Task, SameServer, SameDst, SameTask, DeletesUnless, any,
}

pub record Rows : Type 0 where
  pub users : List User
  pub servers : List Server
  pub dsts : List Dst
  pub tasks : List Task

-- Where the rows of a table stand, and what the database fills in.
pub record Column (A : Type 0) : Type 0 where
  pub get : Rows → List A
  pub put : List A → Rows → Rows
  pub fill : ℕ → A → A

module _ {A : Type 0} where
  abbrev pub found_row : Option A → Result A
  found_row none = err record_not_found
  found_row (some row) = ok row

  abbrev pub table_of : Column A → Table Rows A
  table_of c = record {
    rows = c.get;
    create = λ row s.
        let stored = c.fill (suc (length (c.get s))) row in
        (ok stored, c.put (c.get s ++ stored ∷ []) s);
    first = λ p s. (found_row (find p (c.get s)), s);
    update = λ p f s. (ok (length (keep p (c.get s))), c.put (change p f (c.get s)) s);
    delete = λ p s. (ok (length (keep p (c.get s))), c.put (remove_if p (c.get s)) s);
    count = λ p s. (ok (length (keep p (c.get s))), s);
    order_by = λ le xs. xs;
    page = λ p le offset limit s. (ok (take limit (drop offset (keep p (c.get s)))), s);
  }

  found_row-Answers : (o : Option A) → Answers o (found_row o)
  found_row-Answers none = refl
  found_row-Answers (some row) = refl

  module _ (c : Column A) (put_lem : (xs : List A) (s : Rows) → c.get (c.put xs s) ≡ xs) where
    pub table_of-TableLaws : TableLaws (table_of c)
    table_of-TableLaws = record {
      first_rows = λ p s. refl;
      first_answers = λ p s. found_row-Answers (find p (c.get s));
      update_lem = λ p f s. (refl, put_lem _ s);
    }

    pub table_of-MoreLaws :
        (Same : A → A → Type 0)
        → ((n : ℕ) (row : A) → Same row (c.fill n row))
        → MoreLaws (table_of c) Same
    table_of-MoreLaws Same filled = record {
      create_lem = λ row s. (put_lem _ s, filled _ row);
      delete_lem = λ p s. (refl, put_lem _ s);
      count_rows = λ p s. refl;
      count_lem = λ p s. refl;
      page_rows = λ p le offset limit s. refl;
      page_lem = λ p le offset limit s. refl;
      order_by_keep = λ le p xs. refl;
    }

module _ {A : Type 0} {B : Type 0} (c : Column A) (d : Column B)
    (apart : (xs : List A) (s : Rows) → d.get (c.put xs s) ≡ d.get s) where
  pub table_of-Apart : Apart (table_of c) (table_of d)
  table_of-Apart = record {
    create_apart = λ row s. apart _ s;
    first_apart = λ p s. refl;
    update_apart = λ p f s. apart _ s;
    delete_apart = λ p s. apart _ s;
    count_apart = λ p s. refl;
    page_apart = λ p le offset limit s. refl;
  }

abbrev given_id : ℕ → BaseModel → BaseModel
given_id n b = record b { id = n }

abbrev user_column : Column User
user_column = record {
  get = λ s. s.users;
  put = λ xs s. record s { users = xs };
  fill = λ n row. record row { base = given_id n row.base };
}

abbrev server_column : Column Server
server_column = record {
  get = λ s. s.servers;
  put = λ xs s. record s { servers = xs };
  fill = λ n row. record row { base = given_id n row.base };
}

abbrev dst_column : Column Dst
dst_column = record {
  get = λ s. s.dsts;
  put = λ xs s. record s { dsts = xs };
  fill = λ n row. record row { base = given_id n row.base };
}

abbrev task_column : Column Task
task_column = record {
  get = λ s. s.tasks;
  put = λ xs s. record s { tasks = xs };
  fill = λ n row. record row { base = given_id n row.base };
}

abbrev commit : {A : Type 0} → Rows → Result A × Rows → Result A × Rows
commit s (ok a, t) = (ok a, t)
commit s (err x, t) = (err x, s)

abbrev delete_unless : (Server → Bool) → (Dst → Bool) → Act Rows ℕ
delete_unless p q s =
    if any q s.dsts
    then (ok 0, s)
    else (ok (length (keep p s.servers)), record s { servers = remove_if p s.servers })

abbrev pub demo_db : Database
demo_db = record {
  Db = Rows;
  users = table_of user_column;
  servers = table_of server_column;
  dsts = table_of dst_column;
  tasks = table_of task_column;
  delete_unless = delete_unless;
  start = λ s. s;
  transaction = λ A m s. commit s (m s);
}

pub demo_users-TableLaws : TableLaws demo_db.users
demo_users-TableLaws = table_of-TableLaws user_column (λ xs s. refl)

delete_unless_lem :
    (p : Server → Bool) (q : Dst → Bool) (s : Rows)
    → DeletesUnless
        (any q s.dsts)
        p
        s.servers
        (delete_unless p q s).1.servers
        (delete_unless p q s).0
delete_unless_lem p q s = elim (Bool-cases (any q s.dsts)) [
  | inl yes_it ↦ rw yes_it (refl, refl)
  | inr no_it ↦ rw no_it (refl, refl)
]

commit_ok :
    {A : Type 0} (s s' : Rows) (a : A) (r : Result A × Rows)
    → commit s r ≡ (ok a, s')
    → (r.0 ≡ ok a) × (s' ≡ r.1)
commit_ok s s' a (ok b, t) h = ground (arith, h)
commit_ok s s' a (err x, t) h = absurd (ground (arith, h))

commit_err :
    {A : Type 0} (s s' : Rows) (x : Error) (r : Result A × Rows) → commit s r ≡ (err x, s') → s' ≡ s
commit_err s s' x (ok b, t) h = absurd (ground (arith, h))
commit_err s s' x (err y, t) h = ground (arith, h)

pub demo_db-DatabaseLaws : DatabaseLaws demo_db
demo_db-DatabaseLaws = record {
  servers = table_of-TableLaws server_column (λ xs s. refl);
  more_servers = table_of-MoreLaws server_column (λ xs s. refl) SameServer (λ n row. refl);
  dsts = table_of-TableLaws dst_column (λ xs s. refl);
  more_dsts = table_of-MoreLaws dst_column (λ xs s. refl) SameDst (λ n row. refl);
  tasks = table_of-TableLaws task_column (λ xs s. refl);
  more_tasks = table_of-MoreLaws task_column (λ xs s. refl) SameTask (λ n row. refl);
  servers_dsts = table_of-Apart server_column dst_column (λ xs s. refl);
  servers_tasks = table_of-Apart server_column task_column (λ xs s. refl);
  dsts_servers = table_of-Apart dst_column server_column (λ xs s. refl);
  dsts_tasks = table_of-Apart dst_column task_column (λ xs s. refl);
  tasks_servers = table_of-Apart task_column server_column (λ xs s. refl);
  tasks_dsts = table_of-Apart task_column dst_column (λ xs s. refl);
  delete_unless_lem = delete_unless_lem;
  delete_unless_dsts = λ p q s. ground arith;
  delete_unless_tasks = λ p q s. ground arith;
  start_rows = λ s. refl;
  committed = λ m s s' a h. ground (arith, commit_ok s s' a (m s) h);
  rolled_back = λ m s s' x h. ground (arith, commit_err s s' x (m s) h);
}
