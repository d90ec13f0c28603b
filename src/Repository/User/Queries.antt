-- ===== src/Repository/User/Queries.antt =====
-- What internal/repository/user/repository.go returns, over any table with the laws.
use dst_go_backend.Base.{
  ℕ, ◌<◌, ◌≡◌, ◌≢◌, refl, Bool, String, Option, none, some, List, [], ◌∷◌, arith, ltb, ◌==◌, length,
  inl, inr, Bool-cases, keep,
}
use dst_go_backend.Apperr.{record_not_found, Result, ok, err}
use dst_go_backend.Act.{Result-cases, handle_result, pure}
use dst_go_backend.Repository.Table.{Table, TableLaws, Answers, find, change, Updates}
use dst_go_backend.Repository.User.{
  User, find_user, none_if_missing, get_by_id, update_password, with_password, is_version,
}

-- A query that found or missed a user agrees with the rows, and leaves them.
abbrev pub Finds : Option User → Result (Option User) → Type 0
Finds row (ok found) = row ≡ found
Finds row (err e) = Unit

module _ {S : Type 0} (users : Table S User) (laws : TableLaws users) where
  find_user-Finds :
      (p : User → Bool) (s : S) → Finds (find p (users.rows s)) (find_user users p s).0
  find_user-Finds p s = answered (users.first p s).0 (users.first p s).1 (laws.first_answers p s)
    where
      answered :
          (q : Result User) (t : S)
          → Answers (find p (users.rows s)) q
          → Finds
              (find p (users.rows s))
              (handle_result q (none_if_missing users) (λ user. pure (some user)) t).0
      answered (ok a) t h = h
      answered (err record_not_found) t h = h
      answered (err _) t h = tt

  pub get_by_id-Finds :
      (id : ℕ) (s : S) → Finds (find (λ u. u.id == id) (users.rows s)) (get_by_id users id s).0
  unfolding get_by_id
  get_by_id-Finds id s = find_user-Finds (λ u. u.id == id) s

module _ {S : Type 0} (users : Table S User) (laws : TableLaws users) where
  pub get_by_id-rows : (id : ℕ) (s : S) → users.rows (get_by_id users id s).1 ≡ users.rows s
  unfolding get_by_id
  get_by_id-rows id s = left (users.first p s).0 (users.first p s).1 (laws.first_rows p s)
    where
      p : User → Bool
      p u = u.id == id

      left :
          (q : Result User) (t : S)
          → users.rows t ≡ users.rows s
          → users.rows (handle_result q (none_if_missing users) (λ user. pure (some user)) t).1
            ≡ users.rows s
      left (ok a) t h = h
      left (err record_not_found) t h = h
      left (err _) t h = h

-- No row of the user has the version.
abbrev pub VersionGone : ℕ → ℕ → List User → Type 0
VersionGone id version rows = keep (is_version id version) rows ≡ []

-- The update leaves no row behind that it would change again.
pub change-VersionGone :
    (now id version : ℕ) (hash : String) (rows : List User)
    → VersionGone id version (change (is_version id version) (with_password now hash) rows)
change-VersionGone now id version hash [] = refl
change-VersionGone now id version hash (u ∷ rows) =
    ground (arith, change-VersionGone now id version hash rows)

-- A user that is found by id has another version.
pub VersionGone-find :
    (id version : ℕ) (rows : List User) (u : User)
    → VersionGone id version rows
    → find (λ v. v.id == id) rows ≡ some u
    → u.token_version ≢ version
VersionGone-find id version [] u gone e same = cc
VersionGone-find id version (v ∷ rows) u gone e same =
    ground (arith, VersionGone-find id version rows u)

module _ {S : Type 0} (users : Table S User) (laws : TableLaws users) where
  -- What a password that was updated leaves, by the condition and the assignment of the statement.
  pub update_password-change :
      (now id version : ℕ) (hash : String) (s s' : S)
      → update_password users now id hash version s ≡ (ok tt, s')
      → (users.rows s' ≡ change (is_version id version) (with_password now hash) (users.rows s))
        × (0 < length (keep (is_version id version) (users.rows s)))
  unfolding update_password
  update_password-change now id version hash s s' h =
      let p = is_version id version in
      let f = with_password now hash in
      elim (Result-cases (users.update p f s).0) [
        | inl (x, q) ↦ absurd (ground (arith, h, q))
        | inr (n, q) ↦
            let done : Updates p f (users.rows s) (users.rows (users.update p f s).1) (ok n) =
              rw q at (laws.update_lem p f s) in
            elim (Bool-cases (ltb 0 n)) [
              | inl some_row ↦ ground (arith, h, q, done)
              | inr no_row ↦ elim (Result-cases (get_by_id users id (users.update p f s).1).0) [
                | inl (x, g) ↦ absurd (ground (arith, h, q, g))
                | inr (none, g) ↦ absurd (ground (arith, h, q, g))
                | inr (some u, g) ↦ absurd (ground (arith, h, q, g))
              ]
            ]
      ]

  pub update_password-gone :
      (now id version : ℕ) (hash : String) (s : S)
      → VersionGone id version (users.rows s)
      → (update_password users now id hash version s).0 ≢ ok tt
  unfolding update_password
  update_password-gone now id version hash s gone h =
      let p = is_version id version in
      let f = with_password now hash in
      elim (Result-cases (users.update p f s).0) [
        | inl (x, q) ↦ ground (arith, h, q)
        | inr (n, q) ↦
            let done : Updates p f (users.rows s) (users.rows (users.update p f s).1) (ok n) =
              rw q at (laws.update_lem p f s) in
            elim (Result-cases (get_by_id users id (users.update p f s).1).0) [
              | inl (x, g) ↦ ground (arith, h, q, g, done, gone)
              | inr (none, g) ↦ ground (arith, h, q, g, done, gone)
              | inr (some u, g) ↦ ground (arith, h, q, g, done, gone)
            ]
      ]
