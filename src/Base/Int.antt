-- ===== src/Base/Int.antt =====
-- Go's `int`, and its decimal text (`strconv.Itoa`, `strconv.FormatUint`).
use Prim.Native.Nat.{ℕ, zero, suc, ◌/◌, ◌%◌}
use Prim.Native.String.{String, ◌++◌}
use dst_go_backend.Base.Tests.{if◌then◌else◌, ltb, leb, ◌==◌}
use mathlib.Core.Bool.{Bool, true, false}

-- `negsuc n` is -(n + 1).
pub data ℤ : Type 0 where
  pos : ℕ → ℤ
  negsuc : ℕ → ℤ

abbrev pub digit : ℕ → String
digit zero = "0"
digit (suc zero) = "1"
digit (suc (suc zero)) = "2"
digit (suc (suc (suc zero))) = "3"
digit (suc (suc (suc (suc zero)))) = "4"
digit (suc (suc (suc (suc (suc zero))))) = "5"
digit (suc (suc (suc (suc (suc (suc zero)))))) = "6"
digit (suc (suc (suc (suc (suc (suc (suc zero))))))) = "7"
digit (suc (suc (suc (suc (suc (suc (suc (suc zero)))))))) = "8"
digit _ = "9"

-- The digits of `n` in front of `rest`; fuel `n + 1` is enough, since `n / 10 < n`.
pub digits_onto : ℕ → ℕ → String → String
digits_onto zero n rest = rest
digits_onto (suc fuel) n rest =
    let more = digits_onto fuel (n / 10) (digit (n % 10) ++ rest) in
    if ltb n 10 then digit n ++ rest else more

unfoldable pub format_uint : ℕ → String
unfolding digits_onto
format_uint n = digits_onto (suc n) n ""

unfoldable pub itoa : ℤ → String
unfolding format_uint
itoa (pos n) = format_uint n
itoa (negsuc n) = "-" ++ format_uint (suc n)

-- `x == n` for a Go int and a constant that is not negative.
abbrev pub is_int : ℤ → ℕ → Bool
is_int (pos m) n = m == n
is_int (negsuc m) n = false

-- `x < n` for a Go int and a constant that is not negative.
abbrev pub int_lt : ℤ → ℕ → Bool
int_lt (pos m) n = ltb m n
int_lt (negsuc m) n = true

-- `n < x`.
abbrev pub int_gt : ℤ → ℕ → Bool
int_gt (pos m) n = ltb n m
int_gt (negsuc m) n = false

-- `x <= y`.
abbrev pub int_leb : ℤ → ℤ → Bool
int_leb (pos m) (pos n) = leb m n
int_leb (pos m) (negsuc n) = false
int_leb (negsuc m) (pos n) = true
int_leb (negsuc m) (negsuc n) = leb n m

-- The value, or 0 for a negative one.
abbrev pub to_nat : ℤ → ℕ
to_nat (pos m) = m
to_nat (negsuc m) = 0
