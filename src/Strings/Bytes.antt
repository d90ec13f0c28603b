-- ===== src/Strings/Bytes.antt =====
-- Go's `[]byte(s)`, and a comparison with `strings.ToLower(s)`.
use Prim.Native.Char.{Char, code}
use dst_go_backend.Base.{
  ℕ, ◌+◌, ◌/◌, ◌%◌, ◌≡◌, refl, String, Bool, true, false, ◌&&◌, List, [], ◌∷◌, ◌++◌, length,
  length-append, ltb, leb, ◌==◌, if◌then◌else◌, arith,
}
use dst_go_backend.Strings.{char_bytes, byte_length}

-- The bytes of a code point in UTF-8.
abbrev char_utf8 : Char → List ℕ
char_utf8 ch =
    let c = code ch in
    if ltb c 0x80
    then c ∷ []
    else if ltb c 0x800
    then (0xc0 + c / 0x40) ∷ (0x80 + c % 0x40) ∷ []
    else if ltb c 0x10000
    then (0xe0 + c / 0x1000) ∷ (0x80 + c / 0x40 % 0x40) ∷ (0x80 + c % 0x40) ∷ []
    else (0xf0 + c / 0x40000)
      ∷ (0x80 + c / 0x1000 % 0x40)
      ∷ (0x80 + c / 0x40 % 0x40)
      ∷ (0x80 + c % 0x40)
      ∷ []

unfoldable pub utf8 : String → List ℕ
utf8 String.[] = []
utf8 (String.◌∷◌ c s) = char_utf8 c ++ utf8 s

char_utf8-length : (c : Char) → length (char_utf8 c) ≡ char_bytes c
char_utf8-length c = ground arith

-- `len` counts these bytes.
pub length-utf8 : (s : String) → length (utf8 s) ≡ byte_length s
unfolding utf8 byte_length
length-utf8 String.[] = refl
length-utf8 (String.◌∷◌ c s) =
    omega (arith, length-append (char_utf8 c) (utf8 s), char_utf8-length c, length-utf8 s)

-- The lower case of a code point, where that is in ASCII: of the others outside ASCII none comes to
-- an ASCII letter but the dotted capital I and the sign of the Kelvin.
abbrev lower : ℕ → ℕ
lower c =
    if leb 0x41 c && leb c 0x5a
    then c + 0x20
    else if c == 0x130
    then 0x69
    else if c == 0x212a
    then 0x6b
    else c

-- `strings.ToLower(s) == word`, for a word in ASCII.
unfoldable pub lower_is : String → String → Bool
lower_is String.[] String.[] = true
lower_is String.[] (String.◌∷◌ c s) = false
lower_is (String.◌∷◌ d word) String.[] = false
lower_is (String.◌∷◌ d word) (String.◌∷◌ c s) = code d == lower (code c) && lower_is word s

lower_is_run : lower_is "warn" "WaRn" ≡ true
unfolding lower_is
lower_is_run = refl

utf8_run : utf8 "a水" ≡ 0x61 ∷ 0xe6 ∷ 0xb0 ∷ 0xb4 ∷ []
unfolding utf8
utf8_run = refl
