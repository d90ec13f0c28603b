-- ===== src/Act.antt =====
-- Functions that read and change a state and may return an error. What was written before the error
-- stays written, so the state comes back beside the error too.
pub mod Runs
pub mod Fails
use dst_go_backend.Base.{Bool, true, false, Option, none, some, ◌≡◌, ◌⊎◌, inl, inr, refl, arith}
use dst_go_backend.Apperr.{Error, Result, ok, err}

abbrev pub Act : Type 0 → Type 0 → Type 0
Act S A = S → Result A × S

module _ {S A : Type 0} where
  abbrev pub pure : A → Act S A
  pure a s = (ok a, s)

  abbrev pub throw : Error → Act S A
  throw e s = (err e, s)

module _ {S A B : Type 0} where
  abbrev pub continue : Result A → (A → Act S B) → Act S B
  continue (ok a) f s = f a s
  continue (err e) f s = (err e, s)

  infixl 5 ◌>>=◌ ◌>>◌
  abbrev pub ◌>>=◌ : Act S A → (A → Act S B) → Act S B
  ◌>>=◌ m f s = let r = m s in continue r.0 f r.1

  abbrev pub ◌>>◌ : Act S A → Act S B → Act S B
  m >> n = m >>= λ _. n

  -- The two ways of `if err != nil`: the error is looked at, and something else is done.
  abbrev pub handle_result : Result A → (Error → Act S B) → (A → Act S B) → Act S B
  handle_result (ok a) bad good = good a
  handle_result (err e) bad good = bad e

  abbrev pub attempt : Act S A → (Error → Act S B) → (A → Act S B) → Act S B
  attempt m bad good s = let r = m s in handle_result r.0 bad good r.1

module _ {S : Type 0} where
  abbrev pub throw_if : Bool → Error → Act S (Unit {0})
  throw_if true e = throw e
  throw_if false e = pure tt

module _ {A : Type 0} where
  abbrev pub recode_result : Error → Result A → Result A
  recode_result e (ok a) = ok a
  recode_result e (err e') = err e

module _ {S A : Type 0} where
  -- Any error of the callee is answered by another one.
  abbrev pub recode : Error → Act S A → Act S A
  recode e m s = let r = m s in (recode_result e r.0, r.1)

  abbrev pub need : Option A → Error → Act S A
  need none e = throw e
  need (some a) e = pure a

-- What an action that returned went through.
module _ {S A B : Type 0} where
  pub continue-eq-ok :
      (r : Result A × S) (f : A → Act S B) {b : B} {t : S}
      → continue r.0 f r.1 ≡ (ok b, t)
      → (a : A) × (s : S) × (r ≡ (ok a, s)) × (f a s ≡ (ok b, t))
  continue-eq-ok (ok a, s) f h = (a, s, refl, h)
  continue-eq-ok (err e, s) f h = absurd (ground (arith, h))

module _ {S A : Type 0} where
  pub recode-eq-ok :
      (e : Error) (m : Act S A) (s : S) {a : A} {t : S} → recode e m s ≡ (ok a, t) → m s ≡ (ok a, t)
  recode-eq-ok e m s h = ground (arith, h)

  pub need-eq-ok :
      (o : Option A) (e : Error) (s : S) {a : A} {t : S}
      → need o e s ≡ (ok a, t)
      → (o ≡ some a) × (s ≡ t)
  need-eq-ok none e s h = absurd (ground (arith, h))
  need-eq-ok (some a) e s h = ground (arith, h)

module _ {S : Type 0} where
  pub throw_if-eq-ok :
      (b : Bool) (e : Error) (s : S) {t : S} {u : Unit {0}}
      → throw_if b e s ≡ (ok u, t)
      → (b ≡ false) × (s ≡ t)
  throw_if-eq-ok true e s h = absurd (ground (arith, h))
  throw_if-eq-ok false e s h = ground (arith, h)

pub Result-cases {ℓ} :
    {A : Type ℓ} (r : Result A) → ((e : Error) × (r ≡ err e)) ⊎ ((a : A) × (r ≡ ok a))
Result-cases (ok a) = inr (a, refl)
Result-cases (err e) = inl (e, refl)
