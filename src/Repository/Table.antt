-- ===== src/Repository/Table.antt =====
-- The database behind internal/repository, which is not part of the repository: a table of one
-- entity as gorm shows it, with the documented behaviour as laws. A statement that fails changes
-- no row. Several tables can stand on one state, the database's.
use dst_go_backend.Base.{
  ℕ, ◌≡◌, Bool, Option, none, some, not, List, [], ◌∷◌, ◌++◌, map, length, keep, take, drop,
  if◌then◌else◌,
}
use dst_go_backend.Apperr.{record_not_found, Result, ok, err}
use dst_go_backend.Act.{Act}

-- `create` returns the row with the id and the instants that the database gave it. `first` answers
-- `gorm.ErrRecordNotFound` where no row passes the test. `update` and `delete` return the number of
-- rows. `page` is given the test, the order, `Offset` and `Limit`; `order_by` is what the database
-- makes of rows and an order that is not total.
pub record Table (S : Type 0) (A : Type 0) : Type 0 where
  pub rows : S → List A
  pub create : A → Act S A
  pub first : (A → Bool) → Act S A
  pub update : (A → Bool) → (A → A) → Act S ℕ
  pub delete : (A → Bool) → Act S ℕ
  pub count : (A → Bool) → Act S ℕ
  pub order_by : (A → A → Bool) → List A → List A
  pub page : (A → Bool) → (A → A → Bool) → ℕ → ℕ → Act S (List A)

module _ {A : Type 0} where
  abbrev pub find : (A → Bool) → List A → Option A
  find p [] = none
  find p (x ∷ xs) = if p x then some x else find p xs

  abbrev pub change : (A → Bool) → (A → A) → List A → List A
  change p f = map (λ x. if p x then f x else x)

  abbrev pub remove_if : (A → Bool) → List A → List A
  remove_if p = keep (λ x. not (p x))

  -- The answer of a query for one row agrees with the rows.
  abbrev pub Answers : Option A → Result A → Type 0
  Answers row (ok a) = row ≡ some a
  Answers row (err record_not_found) = row ≡ none
  Answers row (err e) = Unit

  -- The answer of a statement, and the rows before and after it.
  abbrev pub Updates : (A → Bool) → (A → A) → List A → List A → Result ℕ → Type 0
  Updates p f before after (ok n) = (n ≡ length (keep p before)) × (after ≡ change p f before)
  Updates p f before after (err e) = after ≡ before

  abbrev pub Deletes : (A → Bool) → List A → List A → Result ℕ → Type 0
  Deletes p before after (ok n) = (n ≡ length (keep p before)) × (after ≡ remove_if p before)
  Deletes p before after (err e) = after ≡ before

  abbrev pub Counts : (A → Bool) → List A → Result ℕ → Type 0
  Counts p rows (ok n) = n ≡ length (keep p rows)
  Counts p rows (err e) = Unit

  abbrev pub Pages : List A → ℕ → ℕ → Result (List A) → Type 0
  Pages ordered offset limit (ok found) = found ≡ take limit (drop offset ordered)
  Pages ordered offset limit (err e) = Unit

  -- A new row is stored with what `same` allows the database to fill in.
  abbrev pub Creates : (A → A → Type 0) → A → List A → List A → Result A → Type 0
  Creates same row before after (ok stored) = (after ≡ before ++ stored ∷ []) × same row stored
  Creates same row before after (err e) = after ≡ before

module _ {S : Type 0} {A : Type 0} (t : Table S A) where
  pub record TableLaws : Type 0 where
    pub first_rows : (p : A → Bool) (s : S) → t.rows (t.first p s).1 ≡ t.rows s
    pub first_answers : (p : A → Bool) (s : S) → Answers (find p (t.rows s)) (t.first p s).0
    pub update_lem :
        (p : A → Bool) (f : A → A) (s : S)
        → Updates p f (t.rows s) (t.rows (t.update p f s).1) (t.update p f s).0

  -- What the other statements do.
  pub record MoreLaws (Same : A → A → Type 0) : Type 0 where
    pub create_lem :
        (row : A) (s : S)
        → Creates Same row (t.rows s) (t.rows (t.create row s).1) (t.create row s).0
    pub delete_lem :
        (p : A → Bool) (s : S) → Deletes p (t.rows s) (t.rows (t.delete p s).1) (t.delete p s).0
    pub count_rows : (p : A → Bool) (s : S) → t.rows (t.count p s).1 ≡ t.rows s
    pub count_lem : (p : A → Bool) (s : S) → Counts p (t.rows s) (t.count p s).0
    pub page_rows :
        (p : A → Bool) (le : A → A → Bool) (offset limit : ℕ) (s : S)
        → t.rows (t.page p le offset limit s).1 ≡ t.rows s
    pub page_lem :
        (p : A → Bool) (le : A → A → Bool) (offset limit : ℕ) (s : S)
        → Pages (t.order_by le (keep p (t.rows s))) offset limit (t.page p le offset limit s).0
    -- Ordering keeps each row as often as it is there.
    pub order_by_keep :
        (le : A → A → Bool) (p : A → Bool) (xs : List A)
        → length (keep p (t.order_by le xs)) ≡ length (keep p xs)

-- The statements on one table leave the rows of another one alone.
pub record Apart {S : Type 0} {A : Type 0} {B : Type 0} (t : Table S A) (u : Table S B)
    : Type 0 where
  pub create_apart : (row : A) (s : S) → u.rows (t.create row s).1 ≡ u.rows s
  pub first_apart : (p : A → Bool) (s : S) → u.rows (t.first p s).1 ≡ u.rows s
  pub update_apart : (p : A → Bool) (f : A → A) (s : S) → u.rows (t.update p f s).1 ≡ u.rows s
  pub delete_apart : (p : A → Bool) (s : S) → u.rows (t.delete p s).1 ≡ u.rows s
  pub count_apart : (p : A → Bool) (s : S) → u.rows (t.count p s).1 ≡ u.rows s
  pub page_apart :
      (p : A → Bool) (le : A → A → Bool) (offset limit : ℕ) (s : S)
      → u.rows (t.page p le offset limit s).1 ≡ u.rows s
