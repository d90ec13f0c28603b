-- ===== src/Repository/Rows.antt =====
-- What the repositories of internal/repository/server, dst and task share: one row or none, and
-- what follows a statement that touched no row.
use dst_go_backend.Base.{ℕ, ◌≡◌, refl, Bool, Option, none, some, arith, ltb, if◌then◌else◌}
use dst_go_backend.Apperr.{Error, record_not_found, Result, ok, err}
use dst_go_backend.Act.{Act, pure, throw, ◌>>=◌, attempt, handle_result}
use dst_go_backend.Repository.Table.{Table, TableLaws, Answers, find}

module _ {S : Type 0} {A : Type 0} where
  abbrev pub nothing_if_missing : Error → Act S (Option A)
  nothing_if_missing record_not_found = pure none
  nothing_if_missing e = throw e

  abbrev pub just : A → Act S (Option A)
  just row = pure (some row)

  -- `First` with `ErrRecordNotFound` turned into nil.
  abbrev pub find_row : Table S A → (A → Bool) → Act S (Option A)
  find_row t p = attempt (t.first p) nothing_if_missing just

  -- `if row == nil { return missing }; return there`.
  abbrev pub missing_or : Error → Act S (Unit {0}) → Option A → Act S (Unit {0})
  missing_or missing there none = throw missing
  missing_or missing there (some row) = there

  -- A statement that touched a row is done; else the row is asked for.
  abbrev pub touched_or : Act S ℕ → Act S (Option A) → Error → Act S (Unit {0}) → Act S (Unit {0})
  touched_or statement row missing there = do
    affected ← statement
    if ltb 0 affected then pure tt else (row >>= missing_or missing there)

-- A query that found or missed a row agrees with the rows.
abbrev pub Finds : {A : Type 0} → Option A → Result (Option A) → Type 0
Finds row (ok found) = row ≡ found
Finds row (err e) = Unit

module _ {S : Type 0} {A : Type 0} (t : Table S A) where
  either_way :
      {B : Type 0} (view : S → B) (q : Result A) (s : S)
      → view (handle_result q nothing_if_missing just s).1 ≡ view s
  either_way view (ok a) s = refl
  either_way view (err record_not_found) s = refl
  either_way view (err _) s = refl

  -- Whatever the query leaves alone, `find_row` leaves alone.
  pub find_row-view :
      {B : Type 0} (view : S → B) (p : A → Bool) (s : S)
      → view (t.first p s).1 ≡ view s
      → view (find_row t p s).1 ≡ view s
  find_row-view view p s h = ground (arith, h, either_way view (t.first p s).0 (t.first p s).1)

  pub find_row-Finds :
      TableLaws t → (p : A → Bool) (s : S) → Finds (find p (t.rows s)) (find_row t p s).0
  find_row-Finds laws p s = answered (t.first p s).0 (t.first p s).1 (laws.first_answers p s)
    where
      answered :
          (q : Result A) (u : S)
          → Answers (find p (t.rows s)) q
          → Finds (find p (t.rows s)) (handle_result q nothing_if_missing just u).0
      answered (ok a) u h = h
      answered (err record_not_found) u h = h
      answered (err _) u h = tt
