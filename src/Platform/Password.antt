-- ===== src/Platform/Password.antt =====
-- internal/platform/crypto/password.go, over the bcrypt package. The services take the hasher as two
-- functions, which these are.
use dst_go_backend.Base.{ℕ, ◌≤◌, ◌≡◌, String, Bool, true, List, length, arith, refl, inl, inr}
use dst_go_backend.Apperr.{Result, ok, is_ok}
use dst_go_backend.Act.{Result-cases}
use dst_go_backend.Strings.{byte_length}
use dst_go_backend.Strings.Bytes.{utf8, length-utf8}

-- The package: its default cost, `GenerateFromPassword` with a draw for the salt, whose bytes are the
-- ASCII text of the hash, and `CompareHashAndPassword`.
pub record Bcrypt : Type 0 where
  pub default_cost : ℕ
  pub generate_from_password : ℕ → List ℕ → ℕ → Result String
  pub compare_hash_and_password : List ℕ → List ℕ → Result (Unit {0})

-- A hash is that of the password that it was made of; a password of up to 72 bytes has one.
pub record BcryptLaws (b : Bcrypt) : Type 0 where
  pub short_enough :
      (draw cost : ℕ) (p : List ℕ)
      → length p ≤ 72
      → is_ok (b.generate_from_password draw p cost) ≡ true
  pub compared :
      (draw cost : ℕ) (p : List ℕ) (hash : String)
      → b.generate_from_password draw p cost ≡ ok hash
      → b.compare_hash_and_password (utf8 hash) p ≡ ok tt

-- `bcryptHasher`, with the cost that `NewPasswordHasher` gives it.
pub record BcryptHasher : Type 0 where
  pub cost : ℕ

abbrev pub new_password_hasher : Bcrypt → BcryptHasher
new_password_hasher b = record { cost = b.default_cost }

module _ (b : Bcrypt) (hasher : BcryptHasher) where
  unfoldable pub hash_password : ℕ → String → Result String
  hash_password draw password = b.generate_from_password draw (utf8 password) hasher.cost

  unfoldable pub compare_password : String → String → Bool
  compare_password hashed_password password =
      is_ok (b.compare_hash_and_password (utf8 hashed_password) (utf8 password))

  -- A password of up to 72 bytes is hashed, and its hash is compared as its own.
  pub hash_password-compare_password :
      BcryptLaws b
      → (draw : ℕ) (password : String) → byte_length password ≤ 72
      → (hash : String) × (hash_password draw password ≡ ok hash)
        × (compare_password hash password ≡ true)
  unfolding hash_password compare_password
  hash_password-compare_password laws draw password fits =
      let made = b.generate_from_password draw (utf8 password) hasher.cost in
      let short =
        laws.short_enough draw hasher.cost (utf8 password) (omega (arith, length-utf8 password)) in
      elim (Result-cases made) [
        | inl (e, failed) ↦ absurd (ground (arith, short, failed))
        | inr (hash, done) ↦
            (hash, done, rw (laws.compared draw hasher.cost (utf8 password) hash done) refl)
      ]
