-- ===== src/Strings/Words.antt =====
-- Laws of splitting a text that a scheme and a token make.

use Prim.Native.String.{String, [], ◌∷◌, ◌++◌}
use text.Mathlib.TextLemmas.{cons-append, nil-append, append-nil}
use dst_go_backend.Base.{◌≡◌, refl, ap, Bool, false, ◌||◌, arith, some, List, [], ◌∷◌}
use dst_go_backend.Strings.{is_space, is_empty}
use dst_go_backend.Strings.Split.{words_of, add_word, fields, split_once}

unfoldable pub has_space : String → Bool
has_space [] = false
has_space (c ∷ s) = is_space c || has_space s

blank-append : (t : String) → " " ++ t ≡ (" " ∷ t)
blank-append t = rw cons-append (rw nil-append refl)

-- A front without blanks is part of the first word.
words_of-append :
    (p s : String) → has_space p ≡ false → words_of (p ++ s) ≡ (p ++ (words_of s).0, (words_of s).1)
unfolding words_of has_space
words_of-append [] s h = rw nil-append (rw nil-append refl)
words_of-append (c ∷ p) s h =
    rw cons-append (ground (arith, h, words_of-append p s, cons-append c p (words_of s).0))

words_of-solid : (s : String) → has_space s ≡ false → words_of s ≡ (s, [])
unfolding words_of has_space
words_of-solid [] h = refl
words_of-solid (c ∷ s) h = ground (arith, h, words_of-solid s)

add_word-full : (s : String) (ws : List String) → is_empty s ≡ false → add_word s ws ≡ s ∷ ws
add_word-full [] ws full = absurd (ground (arith, full))
add_word-full (c ∷ s) ws full = refl

abbrev parted : String → List String → String × List String
parted s words = (s, words)

words_of-blank :
    (s : String)
    → has_space s ≡ false
    → is_empty s ≡ false
    → words_of (" " ∷ s) ≡ parted "" (s ∷ [])
unfolding words_of is_space
words_of-blank s h full = rw (words_of-solid s h) (ap (λ ws. ("", ws)) (add_word-full s [] full))

-- A scheme and a token with a blank between them are two fields.
pub fields-pair :
    (p s : String)
    → has_space p ≡ false
    → is_empty p ≡ false
    → has_space s ≡ false
    → is_empty s ≡ false
    → fields (p ++ (" " ++ s)) ≡ p ∷ s ∷ []
unfolding fields
fields-pair p s h filled k full = rw (blank-append s) (
    rw (words_of-append p (" " ∷ s) h)
      (rw (words_of-blank s k full) (rw append-nil (add_word-full p (s ∷ []) filled))))

-- The first blank is the one between them.
pub split_once-pair :
    (p s : String) → has_space p ≡ false → split_once (p ++ (" " ++ s)) ≡ some (p, s)
unfolding split_once has_space is_space
split_once-pair [] s h = rw (blank-append s) (rw nil-append refl)
split_once-pair (c ∷ p) s h = rw cons-append (ground (arith, h, split_once-pair p s))
