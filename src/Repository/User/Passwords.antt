-- ===== src/Repository/User/Passwords.antt =====
-- `UpdatePassword` of internal/repository/user/repository.go, row by row.
use dst_go_backend.Base.{
  ℕ, ◌+◌, ◌<◌, ◌≡◌, ◌≢◌, ◌⊎◌, refl, String, none, some, List, [], ◌∷◌, arith, ltb, length, inl, inr,
  Bool-cases, keep, ap, ◌∙◌, if◌then◌else◌, Bool,
}
use dst_go_backend.Apperr.{Error, Result, ok, err}
use dst_go_backend.Act.{Result-cases}
use dst_go_backend.Repository.Table.{Table, TableLaws, change, Updates}
use dst_go_backend.Repository.User.{User, get_by_id, update_password, with_password, is_version}
use dst_go_backend.Repository.User.Queries.{get_by_id-rows, update_password-change}

-- A row before and after: that of the user with the version has the new hash, the next version and
-- the instant of the update, and is else as it was; any other is as it was.
abbrev pub IsRenewed : ℕ → ℕ → ℕ → String → User → User → Type 0
IsRenewed now id version hash u v =
    ((u.id ≡ id)
      × (u.token_version ≡ version)
      × (v ≡ record u {
        password = hash;
        token_version = version + 1;
        base = record u.base { updated_at = now };
      }))
    ⊎ (((u.id ≢ id) ⊎ (u.token_version ≢ version)) × (v ≡ u))

abbrev pub AreRenewed : ℕ → ℕ → ℕ → String → List User → List User → Type 0
AreRenewed now id version hash [] [] = Unit
AreRenewed now id version hash [] (v ∷ vs) = ⊥
AreRenewed now id version hash (u ∷ us) [] = ⊥
AreRenewed now id version hash (u ∷ us) (v ∷ vs) =
    IsRenewed now id version hash u v × AreRenewed now id version hash us vs

-- There is a row of the user with the version.
abbrev pub HasVersion : ℕ → ℕ → List User → Type 0
HasVersion id version [] = ⊥
HasVersion id version (u ∷ us) =
    ((u.id ≡ id) × (u.token_version ≡ version)) ⊎ HasVersion id version us

-- What `UpdatePassword` returned, with the rows before and after it.
abbrev pub Renews : ℕ → ℕ → ℕ → String → List User → List User → Result (Unit {0}) → Type 0
Renews now id version hash before after (ok done) =
    HasVersion id version before × AreRenewed now id version hash before after
Renews now id version hash before after (err e) = after ≡ before

change-AreRenewed :
    (now id version : ℕ) (hash : String) (rows : List User)
    → AreRenewed now id version hash rows
        (change (is_version id version) (with_password now hash) rows)
change-AreRenewed now id version hash [] = tt
change-AreRenewed now id version hash (u ∷ rows) =
    (renewed, change-AreRenewed now id version hash rows)
  where
    renewed :
        IsRenewed now id version hash u
          (if is_version id version u then with_password now hash u else u)
    renewed = elim (Bool-cases (is_version id version u)) [
      | inl here ↦ rw here (inl (ground (arith, here)))
      | inr other ↦ rw other (inr (ground (arith, other), refl))
    ]

keep-HasVersion :
    (id version : ℕ) (rows : List User)
    → 0 < length (keep (is_version id version) rows)
    → HasVersion id version rows
keep-HasVersion id version [] some_row = absurd (omega arith)
keep-HasVersion id version (u ∷ rows) some_row = ground (arith, keep-HasVersion id version rows)

change-none :
    (p : User → Bool) (f : User → User) (rows : List User)
    → length (keep p rows) ≡ 0
    → change p f rows ≡ rows
change-none p f [] no_row = refl
change-none p f (u ∷ rows) no_row = ground (arith, change-none p f rows)

module _ {S : Type 0} (users : Table S User) (laws : TableLaws users) where
  update_password-failed :
      (now id version : ℕ) (hash : String) (s : S) (x : Error)
      → (update_password users now id hash version s).0 ≡ err x
      → users.rows (update_password users now id hash version s).1 ≡ users.rows s
  unfolding update_password
  update_password-failed now id version hash s x h =
      let p = is_version id version in
      let f = with_password now hash in
      let t = (users.update p f s).1 in
      let law = laws.update_lem p f s in
      elim (Result-cases (users.update p f s).0) [
        | inl (y, q) ↦
            let kept : Updates p f (users.rows s) (users.rows t) (err y) = rw q at law in rw q kept
        | inr (n, q) ↦
            let done : Updates p f (users.rows s) (users.rows t) (ok n) = rw q at law in
            let left = get_by_id-rows users laws id t in
            elim (Bool-cases (ltb 0 n)) [
              | inl some_row ↦ absurd (ground (arith, h, q, some_row))
              | inr no_row ↦
                  let same : users.rows t ≡ users.rows s =
                    done.1 ∙ change-none p f (users.rows s) (ground (arith, done, no_row)) in
                  elim (Result-cases (get_by_id users id t).0) [
                    | inl (y, g) ↦ rw (q, no_row, g) (left ∙ same)
                    | inr (none, g) ↦ rw (q, no_row, g) (left ∙ same)
                    | inr (some u, g) ↦ rw (q, no_row, g) (left ∙ same)
                  ]
            ]
      ]

  -- Over a table with the laws of `TableLaws`: where `UpdatePassword` returns no error, there was a
  -- row of the user with the version, every such row has the new hash, the next version and the
  -- instant of the update, and no other row and no other column changed; where it returns an error,
  -- no row changed.
  pub update_password_lem :
      (now id version : ℕ) (hash : String) (s : S)
      → let r = update_password users now id hash version s in
        Renews now id version hash (users.rows s) (users.rows r.1) r.0
  update_password_lem now id version hash s =
      let r = update_password users now id hash version s in
      elim (Result-cases r.0) [
        | inl (x, failed) ↦ rw failed (update_password-failed now id version hash s x failed)
        | inr (y, done) ↦
            let (rows, some_row) =
              update_password-change users laws now id version hash s r.1
                (ap (λ q. (q, r.1)) done) in
            rw (done, rows)
              (
                keep-HasVersion id version (users.rows s) some_row,
                change-AreRenewed now id version hash (users.rows s),
              )
      ]
