-- ===== src/Strings/Split.antt =====
-- Go's `strings.Fields`, `strings.SplitN(s, " ", 2)`, `strings.EqualFold` against a lower-case text,
-- and `strconv.ParseUint(s, 10, 63)`.
use Prim.Native.Char.{Char, code}
use Prim.Native.String.{String, [], ◌∷◌}
use dst_go_backend.Base.{
  ℕ, ◌+◌, ◌-◌, ◌*◌, ◌^◌, ltb, leb, ◌==◌, Bool, true, false, ◌&&◌, Option, none, some, List, [], ◌∷◌,
  if◌then◌else◌,
}
use dst_go_backend.Strings.{is_space, is_empty}

abbrev pub add_word : String → List String → List String
add_word [] words = words
add_word (c ∷ s) words = (c ∷ s) ∷ words

-- The word that the text begins with, and the words behind it.
unfoldable pub words_of : String → String × List String
words_of [] = ([], [])
words_of (c ∷ s) =
    let rest = words_of s in
    if is_space c then ([], add_word rest.0 rest.1) else (c ∷ rest.0, rest.1)

unfoldable pub fields : String → List String
unfolding words_of
fields s = let r = words_of s in add_word r.0 r.1

abbrev front : Char → Option (String × String) → Option (String × String)
front c none = none
front c (some (a, b)) = some (c ∷ a, b)

-- The text in front of the first blank and the text behind it.
unfoldable pub split_once : String → Option (String × String)
split_once [] = none
split_once (c ∷ s) = let rest = split_once s in if code c == 32 then some ([], s) else front c rest

-- Upper-case letters as lower-case ones; no other code point folds to a letter of `bearer`.
abbrev lower : ℕ → ℕ
lower c = if leb 65 c && leb c 90 then c + 32 else c

unfoldable pub equal_fold : String → String → Bool
equal_fold [] [] = true
equal_fold [] (d ∷ t) = false
equal_fold (c ∷ s) [] = false
equal_fold (c ∷ s) (d ∷ t) = let rest = equal_fold s t in lower (code c) == code d && rest

-- The number that the digits make behind the number `n`.
unfoldable pub digits_value : String → ℕ → Option ℕ
digits_value [] n = some n
digits_value (c ∷ s) n =
    let rest = digits_value s (n * 10 + (code c - 48)) in
    if leb 48 (code c) && leb (code c) 57 then rest else none

abbrev below : ℕ → Option ℕ → Option ℕ
below max none = none
below max (some n) = if ltb n max then some n else none

unfoldable pub parse_uint : String → Option ℕ
unfolding digits_value
parse_uint s = if is_empty s then none else below (2 ^ 63) (digits_value s 0)
