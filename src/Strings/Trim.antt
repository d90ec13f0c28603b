-- ===== src/Strings/Trim.antt =====
-- Laws of trimming and of cutting a prefix off.
use Prim.Native.Char.{Char, code}
use Prim.Native.String.{String, [], ◌∷◌, ◌++◌}
use mathlib.Core.Path.{ap₂}
use text.Mathlib.TextEquality.{Char-path}
use text.Mathlib.TextLemmas.{cons-append, nil-append, nil≢cons, tail-eq_of_cons-eq}
use dst_go_backend.Base.{false, ◌≡◌, refl, sym, arith, some, Bool-cases, inl, inr, ◌&&◌}
use dst_go_backend.Strings.{is_space, is_empty, trim_left, trim_right, trim_space, cut_prefix}

pub cut_prefix-append : (p s : String) → cut_prefix p (p ++ s) ≡ some s
unfolding cut_prefix
cut_prefix-append [] s = rw nil-append
cut_prefix-append (c ∷ p) s = rw cons-append (ground (arith, cut_prefix-append p s))

pub append-cut_prefix : (p s rest : String) → cut_prefix p s ≡ some rest → s ≡ p ++ rest
unfolding cut_prefix
append-cut_prefix [] s rest h = rw nil-append (ground (arith, h))
append-cut_prefix (c ∷ p) [] rest h = absurd (ground (arith, h))
append-cut_prefix (c ∷ p) (d ∷ s) rest h =
    let same : code c ≡ code d = ground (arith, h) in
    let more : cut_prefix p s ≡ some rest = ground (arith, h) in
    rw cons-append (ap₂ ◌∷◌ (Char-path d c (sym same)) (append-cut_prefix p s rest more))

is_empty-append : (p s : String) → is_empty s ≡ false → is_empty (p ++ s) ≡ false
is_empty-append [] s h = rw nil-append h
is_empty-append (c ∷ p) s h = rw cons-append refl

pub trim_right-append :
    (p s : String) → is_empty (trim_right s) ≡ false → trim_right (p ++ s) ≡ p ++ trim_right s
unfolding trim_right
trim_right-append [] s h = rw nil-append (rw nil-append)
trim_right-append (c ∷ p) s h = rw cons-append (
    rw cons-append
      (rw (trim_right-append p s h) (ground (arith, is_empty-append p (trim_right s) h))))

trim_right_idem : (s : String) → trim_right (trim_right s) ≡ trim_right s
unfolding trim_right
trim_right_idem [] = refl
trim_right_idem (c ∷ s) = ground (arith, trim_right_idem s)

trim_right_tail : (c : Char) (s : String) → trim_right (c ∷ s) ≡ c ∷ s → trim_right s ≡ s
unfolding trim_right
trim_right_tail c s h = elim (Bool-cases (is_space c && is_empty (trim_right s))) [
  | inl all ↦ absurd (nil≢cons (rw all at h))
  | inr some_left ↦ tail-eq_of_cons-eq (rw some_left at h)
]

-- Cutting on the left keeps a text that has nothing to cut on the right.
trim_right-trim_left : (s : String) → trim_right s ≡ s → trim_right (trim_left s) ≡ trim_left s
unfolding trim_right trim_left
trim_right-trim_left [] h = refl
trim_right-trim_left (c ∷ s) h = elim (Bool-cases (is_space c)) [
  | inr solid ↦ rw solid h
  | inl space ↦ rw space (trim_right-trim_left s (trim_right_tail c s h))
]

trim_left_idem : (s : String) → trim_left (trim_left s) ≡ trim_left s
unfolding trim_left
trim_left_idem [] = refl
trim_left_idem (c ∷ s) = ground (arith, trim_left_idem s)

pub trim_right-trim_space : (s : String) → trim_right (trim_space s) ≡ trim_space s
unfolding trim_space
trim_right-trim_space s = trim_right-trim_left (trim_right s) (trim_right_idem s)

-- What was trimmed once stays as it is.
pub trim_space_idem : (s : String) → trim_space (trim_space s) ≡ trim_space s
unfolding trim_space
trim_space_idem s = rw (trim_right-trim_space s) (trim_left_idem (trim_right s))
