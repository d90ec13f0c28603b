-- ===== src/Act/Runs.antt =====
-- Rules for what holds after a step that may fail: one postcondition for a value, one for an error.
use dst_go_backend.Base.{◌≡◌, refl, Bool, true, false, Option, none, some}
use dst_go_backend.Apperr.{Error, Result, ok, err}
use dst_go_backend.Act.{
  Act, ◌>>=◌, ◌>>◌, attempt, throw_if, recode, recode_result, need, handle_result, continue,
}

module _ {S : Type 0} where
  abbrev pub Post : {A : Type 0} → (A → S → Type 0) → (S → Type 0) → Result A → S → Type 0
  Post Q E (ok a) s = Q a s
  Post Q E (err x) s = E s

  -- From a state with `P`, the step ends with a value and `Q`, or with an error and `E`.
  abbrev pub Runs : {A : Type 0} → (S → Type 0) → Act S A → (A → S → Type 0) → (S → Type 0) → Type 0
  Runs P m Q E = (s : S) → P s → Post Q E (m s).0 (m s).1

module _ {S : Type 0} {A : Type 0} {B : Type 0} (P : S → Type 0) (Q : A → S → Type 0)
    (R : B → S → Type 0) (E : S → Type 0) where
  continued :
      (f : A → Act S B) (r : Result A) (t : S)
      → ((a : A) → Runs (Q a) (f a) R E)
      → Post Q E r t
      → Post R E (continue r f t).0 (continue r f t).1
  continued f (ok a) t k h = k a t h
  continued f (err x) t k h = h

  pub Runs-bind :
      (m : Act S A) (f : A → Act S B)
      → Runs P m Q E
      → ((a : A) → Runs (Q a) (f a) R E)
      → Runs P (m >>= f) R E
  Runs-bind m f h k s p = continued f (m s).0 (m s).1 k (h s p)

  handled :
      (on_err : Error → Act S B) (f : A → Act S B) (r : Result A) (t : S)
      → ((x : Error) → Runs E (on_err x) R E)
      → ((a : A) → Runs (Q a) (f a) R E)
      → Post Q E r t
      → Post R E (handle_result r on_err f t).0 (handle_result r on_err f t).1
  handled on_err f (ok a) t j k h = k a t h
  handled on_err f (err x) t j k h = j x t h

  pub Runs-attempt :
      (m : Act S A) (on_err : Error → Act S B) (f : A → Act S B)
      → Runs P m Q E
      → ((x : Error) → Runs E (on_err x) R E)
      → ((a : A) → Runs (Q a) (f a) R E)
      → Runs P (attempt m on_err f) R E
  Runs-attempt m on_err f h j k s p = handled on_err f (m s).0 (m s).1 j k (h s p)

module _ {S : Type 0} {A : Type 0} (P : S → Type 0) (Q : A → S → Type 0) (E : S → Type 0) where
  recoded : (x : Error) (r : Result A) (t : S) → Post Q E r t → Post Q E (recode_result x r) t
  recoded x (ok a) t h = h
  recoded x (err y) t h = h

  pub Runs-recode : (x : Error) (m : Act S A) → Runs P m Q E → Runs P (recode x m) Q E
  Runs-recode x m h s p = recoded x (m s).0 (m s).1 (h s p)

  pub Runs-throw_if :
      (b : Bool) (x : Error) (m : Act S A)
      → ((s : S) → P s → E s)
      → (b ≡ false → Runs P m Q E)
      → Runs P (throw_if b x >> m) Q E
  Runs-throw_if true x m stop go s p = stop s p
  Runs-throw_if false x m stop go s p = go refl s p

module _ {S : Type 0} {A : Type 0} {B : Type 0} (P : S → Type 0) (Q : B → S → Type 0)
    (E : S → Type 0) where
  pub Runs-need :
      (o : Option A) (x : Error) (f : A → Act S B)
      → ((s : S) → P s → E s)
      → ((a : A) → o ≡ some a → Runs P (f a) Q E)
      → Runs P (need o x >>= f) Q E
  Runs-need none x f stop go s p = stop s p
  Runs-need (some a) x f stop go s p = go a refl s p
