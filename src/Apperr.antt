-- ===== src/Apperr.antt =====
-- internal/apperr/biz_error.go, and Go's `error` values as the program tells them apart: business
-- errors, the sentinels that it compares with `errors.Is`, and all others by a text.
use dst_go_backend.Base.{ℕ, String, Bool, true, false}

pub data Error : Type 0 where
  biz : ℕ → String → Error
  duplicated_key record_not_found redis_nil : Error
  sms_attempts_exceeded token_version_conflict server_has_dst : Error
  other : String → Error

-- What a function returns beside its `error`: a value where that is nil.
pub data Result {ℓ} (A : Type ℓ) : Type ℓ where
  ok : A → Result A
  err : Error → Result A

abbrev pub is_ok {ℓ} : {A : Type ℓ} → Result A → Bool
is_ok (ok a) = true
is_ok (err e) = false

-- An error of the callee is replaced by another one.
abbrev pub or_fail {ℓ} : {A : Type ℓ} → Error → Result A → Result A
or_fail e (ok a) = ok a
or_fail e (err e') = err e

-- `if test { return fmt.Errorf(...) }`.
abbrev pub fail_if : Bool → Error → Result (Unit {0})
fail_if true e = err e
fail_if false e = ok tt

-- `if err != nil { return err }` between two calls.
infixl 5 ◌>>=◌ ◌>>◌
abbrev pub ◌>>=◌ {ℓ κ} : {A : Type ℓ} {B : Type κ} → Result A → (A → Result B) → Result B
err e >>= rest = err e
ok a >>= rest = rest a

abbrev pub ◌>>◌ {ℓ} : {B : Type ℓ} → Result (Unit {0}) → Result B → Result B
checked >> rest = checked >>= λ done. rest
