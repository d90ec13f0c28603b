-- ===== src/Act/Fails.antt =====
-- Rules for the errors that a step can return.
use dst_go_backend.Base.{◌≡◌, Bool, true, false, Option, none, some}
use dst_go_backend.Apperr.{Error, Result, ok, err}
use dst_go_backend.Act.{
  Act, pure, throw, ◌>>=◌, ◌>>◌, attempt, throw_if, recode, recode_result, need, handle_result,
  continue,
}

-- An error, if it is one, passes the test.
abbrev pub Passes : {A : Type 0} → (Error → Bool) → Result A → Type 0
Passes good (ok a) = Unit {0}
Passes good (err x) = good x ≡ true

module _ {S : Type 0} (good : Error → Bool) where
  unfoldable pub Fails : {A : Type 0} → Act S A → Type 0
  Fails m = (s : S) → Passes good (m s).0

  pub bind-Fails :
      {A B : Type 0} (m : Act S A) (f : A → Act S B)
      → Fails m
      → ((a : A) → Fails (f a))
      → Fails (m >>= f)
  unfolding Fails
  bind-Fails {A} {B} m f h k s = either (m s).0 (m s).1 (h s)
    where
      either : (r : Result A) (t : S) → Passes good r → Passes good (continue r f t).0
      either (ok a) t p = k a t
      either (err x) t p = p

  pub attempt-Fails :
      {A B : Type 0} (m : Act S A) (bad : Error → Act S B) (f : A → Act S B)
      → ((x : Error) → Fails (bad x))
      → ((a : A) → Fails (f a))
      → Fails (attempt m bad f)
  unfolding Fails
  attempt-Fails {A} {B} m bad f j k s = either (m s).0 (m s).1
    where
      either : (r : Result A) (t : S) → Passes good (handle_result r bad f t).0
      either (ok a) t = k a t
      either (err x) t = j x t

  pub recode-Fails : {A : Type 0} (x : Error) (m : Act S A) → good x ≡ true → Fails (recode x m)
  unfolding Fails
  recode-Fails {A} x m h s = either (m s).0
    where
      either : (r : Result A) → Passes good (recode_result x r)
      either (ok a) = tt
      either (err y) = h

  pub guard-Fails :
      {A : Type 0} (b : Bool) (x : Error) (m : Act S A)
      → good x ≡ true
      → Fails m
      → Fails (throw_if b x >> m)
  unfolding Fails
  guard-Fails true x m h go s = h
  guard-Fails false x m h go s = go s

  pub need-Fails :
      {A B : Type 0} (o : Option A) (x : Error) (f : A → Act S B)
      → good x ≡ true
      → ((a : A) → Fails (f a))
      → Fails (need o x >>= f)
  unfolding Fails
  need-Fails none x f h go s = h
  need-Fails (some a) x f h go s = go a s

module _ (S : Type 0) (A : Type 0) (good : Error → Bool) where
  pub thrown : (x : Error) → good x ≡ true → Fails good {A = A} (throw {S = S} x)
  unfolding Fails
  thrown x h s = h

  pub returned : (a : A) → Fails good (pure {S = S} a)
  unfolding Fails
  returned a s = tt
