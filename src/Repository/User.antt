-- ===== src/Repository/User.antt =====
-- internal/repository/user/repository.go over a table of internal/model/entity/user.go. `gorm`
-- stamps `updated_at` with the instant of an update, as the field's tag says.
pub mod Queries
pub mod Passwords
use dst_go_backend.Base.{
  ℕ, ◌+◌, String, Bool, true, false, ◌&&◌, Option, none, some, ltb, ◌==◌, str_eq, ℤ, if◌then◌else◌,
}
use dst_go_backend.Apperr.{Error, record_not_found, token_version_conflict, Result, ok, err}
use dst_go_backend.Act.{Act, pure, throw, ◌>>=◌, ◌>>◌, attempt}
use dst_go_backend.Repository.Table.{Table}

-- internal/model/entity/base.go
pub record BaseModel : Type 0 where
  pub id : ℕ
  pub created_at : ℕ
  pub updated_at : ℕ

-- `id` and `token_version` are uint64, `status` is 1 for an enabled account.
pub record User : Type 0 where
  pub base : BaseModel
  pub open base use *
  pub username : String
  pub password : String
  pub phone : String
  pub email : Option String
  pub role : String
  pub status : ℤ
  pub token_version : ℕ

abbrev pub stamp : ℕ → BaseModel → BaseModel
stamp now b = record b { updated_at = now }

-- `gorm.Expr("token_version + 1")` in SQL: the database adds, and nothing wraps around.
abbrev pub with_password : ℕ → String → User → User
with_password now hash u = record u {
  password = hash;
  token_version = u.token_version + 1;
  base = stamp now u.base;
}

abbrev pub is_version : ℕ → ℕ → User → Bool
is_version user_id token_version u = u.id == user_id && u.token_version == token_version

module _ {S : Type 0} (users : Table S User) where
  abbrev none_if_missing : Error → Act S (Option User)
  none_if_missing record_not_found = pure none
  none_if_missing e = throw e

  -- `First` with `ErrRecordNotFound` turned into nil.
  abbrev pub find_user : (User → Bool) → Act S (Option User)
  find_user p = attempt (users.first p) none_if_missing (λ user. pure (some user))

  unfoldable pub create : User → Act S User
  create user = users.create user

  unfoldable pub get_by_id : ℕ → Act S (Option User)
  get_by_id id = find_user (λ u. u.id == id)

  unfoldable pub get_by_username : String → Act S (Option User)
  get_by_username username = find_user (λ u. str_eq u.username username)

  unfoldable pub get_by_phone : String → Act S (Option User)
  get_by_phone phone = find_user (λ u. str_eq u.phone phone)

  abbrev has_email : String → Option String → Bool
  has_email email none = false
  has_email email (some e) = str_eq e email

  unfoldable pub get_by_email : String → Act S (Option User)
  get_by_email email = find_user (λ u. has_email email u.email)

  abbrev found_or : Error → Error → Option User → Act S (Unit {0})
  found_or missing there none = throw missing
  found_or missing there (some user) = throw there

  abbrev present : Option User → Act S (Unit {0})
  present none = throw record_not_found
  present (some user) = pure tt

  unfoldable pub update : ℕ → ℕ → String → Act S (Unit {0})
  unfolding get_by_id
  update now user_id username = do
    affected ←
        users.update (λ u. u.id == user_id)
          (λ u. record u { username = username; base = stamp now u.base })
    if ltb 0 affected then pure tt else (get_by_id user_id >>= present)

  unfoldable pub update_password : ℕ → ℕ → String → ℕ → Act S (Unit {0})
  unfolding get_by_id
  update_password now user_id hash token_version = do
    affected ← users.update (is_version user_id token_version) (with_password now hash)
    if ltb 0 affected
        then pure tt
        else (get_by_id user_id >>= found_or record_not_found token_version_conflict)
