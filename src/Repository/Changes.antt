-- ===== src/Repository/Changes.antt =====
-- What a condition that held of the rows says after rows were added, changed or taken out.
use dst_go_backend.Base.{◌≡◌, refl, Bool, true, false, List, [], ◌∷◌, ◌++◌, arith, all, keep}
use dst_go_backend.Repository.Table.{change, remove_if}
use dst_go_backend.Repository.Database.{any}

module _ {A : Type 0} (p : A → Bool) where
  pub keep-append_other : (xs : List A) (x : A) → p x ≡ false → keep p (xs ++ x ∷ []) ≡ keep p xs
  keep-append_other [] x h = ground (arith, h)
  keep-append_other (y ∷ ys) x h = ground (arith, keep-append_other ys x h)

  pub all-append :
      (xs : List A) (x : A) → all p xs ≡ true → p x ≡ true → all p (xs ++ x ∷ []) ≡ true
  all-append [] x h k = ground (arith, k)
  all-append (y ∷ ys) x h k = ground (arith, all-append ys x, h, k)

  pub any-append : (xs : List A) (x : A) → any p xs ≡ true → any p (xs ++ x ∷ []) ≡ true
  any-append [] x h = cc
  any-append (y ∷ ys) x h = ground (arith, any-append ys x, h)

module _ {A : Type 0} (p q : A → Bool) where
  pub all-imp :
      (xs : List A) → ((x : A) → p x ≡ true → q x ≡ true) → all p xs ≡ true → all q xs ≡ true
  all-imp [] imp h = refl
  all-imp (x ∷ xs) imp h = ground (arith, imp x, all-imp xs imp, h)

  pub all-remove_if : (xs : List A) → all p xs ≡ true → all p (remove_if q xs) ≡ true
  all-remove_if [] h = refl
  all-remove_if (x ∷ xs) h = ground (arith, all-remove_if xs, h)

  -- Rows that another condition takes out are not missed.
  pub keep-remove_if :
      (xs : List A) → ((x : A) → q x ≡ true → p x ≡ false) → keep p (remove_if q xs) ≡ keep p xs
  keep-remove_if [] apart = refl
  keep-remove_if (x ∷ xs) apart = ground (arith, apart x, keep-remove_if xs apart)

  pub any-remove_if :
      (xs : List A)
      → ((x : A) → q x ≡ true → p x ≡ false)
      → any p xs ≡ true
      → any p (remove_if q xs) ≡ true
  any-remove_if [] apart h = h
  any-remove_if (x ∷ xs) apart h = ground (arith, apart x, any-remove_if xs apart, h)

module _ {A : Type 0} (p q : A → Bool) (f : A → A) where
  pub keep-change :
      (xs : List A)
      → ((x : A) → q x ≡ true → p x ≡ false)
      → ((x : A) → p (f x) ≡ p x)
      → keep p (change q f xs) ≡ keep p xs
  keep-change [] apart same = refl
  keep-change (x ∷ xs) apart same = ground (arith, apart x, same x, keep-change xs apart same)

  pub any-change : (xs : List A) → ((x : A) → p (f x) ≡ p x) → any p (change q f xs) ≡ any p xs
  any-change [] same = refl
  any-change (x ∷ xs) same = ground (arith, same x, any-change xs same)

  pub all-change :
      (xs : List A)
      → ((x : A) → p x ≡ true → p (f x) ≡ true)
      → all p xs ≡ true
      → all p (change q f xs) ≡ true
  all-change [] good h = refl
  all-change (x ∷ xs) good h = ground (arith, good x, all-change xs good, h)
