-- ===== src/Service/Panel/Kept.antt =====
-- What it takes for a step of the database to keep a property of the rows: for statements in
-- sequence, and for a transaction.
use dst_go_backend.Base.{
  ℕ, ◌≡◌, refl, ap, Bool, true, false, Option, none, some, List, ltb, if◌then◌else◌,
}
use dst_go_backend.Apperr.{Error, Result, ok, err}
use dst_go_backend.Act.{Act, pure, ◌>>=◌}
use dst_go_backend.Act.Runs.{Post, Runs, Runs-bind}
use dst_go_backend.Repository.Rows.{touched_or, missing_or}
use dst_go_backend.Repository.Database.{Database, DatabaseLaws, rows_of}
use dst_go_backend.Service.Panel.Closed.{RowsProperty}

module _ (d : Database) (J : RowsProperty) where
  -- The property of the rows of a state.
  abbrev pub Holds : d.Db → Type 0
  Holds s = J (d.servers.rows s) (d.dsts.rows s) (d.tasks.rows s)

  abbrev pub Kept : {A : Type 0} → Act d.Db A → Type 0
  Kept m = Runs Holds m (λ a. Holds) Holds

  -- Rows that are equal have the same properties.
  pub same_rows :
      (s t : d.Db)
      → d.servers.rows t ≡ d.servers.rows s
      → d.dsts.rows t ≡ d.dsts.rows s
      → d.tasks.rows t ≡ d.tasks.rows s
      → Holds s
      → Holds t
  same_rows s t a b c h = rw (a, b, c) h

  pub same-Post :
      {A : Type 0} (r : Result A) (t : d.Db) → Holds t → Post (λ (a : A). Holds) Holds r t
  same-Post (ok a) t h = h
  same-Post (err x) t h = h

  -- A query changes no row.
  pub quiet-Kept :
      {A : Type 0} (m : Act d.Db A)
      → ((s : d.Db) → d.servers.rows (m s).1 ≡ d.servers.rows s)
      → ((s : d.Db) → d.dsts.rows (m s).1 ≡ d.dsts.rows s)
      → ((s : d.Db) → d.tasks.rows (m s).1 ≡ d.tasks.rows s)
      → Kept m
  quiet-Kept m a b c s h = same-Post (m s).0 (m s).1 (same_rows s (m s).1 (a s) (b s) (c s) h)

  -- Two queries one after the other.
  pub listed :
      {A : Type 0} (count : Act d.Db ℕ) (page : Act d.Db (List A))
      → Kept count
      → Kept page
      → Kept {A = List A × ℕ} (count >>= λ total. page >>= λ found. pure (found, total))
  listed {A} count page h k =
      Runs-bind Holds (λ (n : ℕ). Holds) (λ (r : List A × ℕ). Holds) Holds count _ h
        (λ n.
          Runs-bind Holds (λ (xs : List A). Holds) (λ (r : List A × ℕ). Holds) Holds page _ k
            (λ xs s p. p))

  -- A statement, and where it touched no row the question whether the row is there.
  pub touched-Kept :
      {A : Type 0} (statement : Act d.Db ℕ) (row : Act d.Db (Option A)) (missing : Error)
      (there : Act d.Db (Unit {0}))
      → Kept statement
      → Kept row
      → Kept there
      → Kept (touched_or statement row missing there)
  touched-Kept {A} statement row missing there h j k =
      Runs-bind Holds (λ n. Holds) (λ u. Holds) Holds statement _ h (λ n. decided (ltb 0 n))
    where
      asked : (o : Option A) → Kept (missing_or missing there o)
      asked none s h = h
      asked (some row) s h = k s h

      decided : (b : Bool) → Kept (if b then pure tt else (row >>= missing_or missing there))
      decided true s h = h
      decided false s h = Runs-bind Holds (λ o. Holds) (λ u. Holds) Holds row _ j asked s h

module _ (d : Database) (laws : DatabaseLaws d) (J : RowsProperty) where
  rows_same : (s t : d.Db) → rows_of d t ≡ rows_of d s → (Holds d J) s → (Holds d J) t
  rows_same s t e h = same_rows d J s t (ap (λ r. r.0) e) (ap (λ r. r.1) e) (ap (λ r. r.2) e) h

  started : (s : d.Db) → (Holds d J) s → (Holds d J) (d.start s)
  started s h = rows_same s (d.start s) (laws.start_rows s) h

  -- A transaction keeps what its function keeps.
  pub transaction-Kept : {A : Type 0} (m : Act d.Db A) → Kept d J m → Kept d J (d.transaction A m)
  transaction-Kept {A} m keeps s h = ended (d.transaction A m s).0 (d.transaction A m s).1 refl
    where
      went :
          (q : Result A) (u t : d.Db) (a : A)
          → q ≡ ok a
          → rows_of d t ≡ rows_of d u
          → Post (λ (b : A). (Holds d J)) (Holds d J) q u
          → (Holds d J) t
      went (ok b) u t a is same h = rows_same u t same h
      went (err x) u t a is same h = rows_same u t same h

      ended :
          (q : Result A) (t : d.Db)
          → d.transaction A m s ≡ (q, t)
          → Post (λ (a : A). (Holds d J)) (Holds d J) q t
      ended (ok a) t e =
          let c = laws.committed m s t a e in
          went (m (d.start s)).0 (m (d.start s)).1 t a c.0 c.1 (keeps (d.start s) (started s h))
      ended (err x) t e = rows_same s t (laws.rolled_back m s t x e) h
