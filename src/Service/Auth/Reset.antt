-- ===== src/Service/Auth/Reset.antt =====
-- `ResetPassword` of internal/service/auth/service.go: a reset counts once, and ends all sessions.
use dst_go_backend.Base.{◌≡◌, false, String, none, some, arith, inl, inr, ap}
use dst_go_backend.Apperr.{ok, is_ok, token_version_conflict, record_not_found}
use dst_go_backend.Act.{Result-cases}
use dst_go_backend.Platform.Jwt.{CustomClaims, parse_token}
use dst_go_backend.Repository.Table.{TableLaws}
use dst_go_backend.Repository.User.{update_password, get_by_id}
use dst_go_backend.Repository.User.Queries.{
  get_by_id-rows, update_password-change, update_password-gone, VersionGone, change-VersionGone,
  VersionGone-find,
}
use dst_go_backend.Repository.Cache.AuthCache.{ResetTokenData, get_reset_token}
use dst_go_backend.Service.World.{Env, World}
use dst_go_backend.Service.Auth.{ResetPasswordReq, reset_password, authenticate}
use dst_go_backend.Service.Auth.Session.{authenticate_sound}

module _ (e : Env) (table : TableLaws e.users) where
  -- The reset token of the request stands for the data.
  abbrev pub Stands : World e → String → ResetTokenData → Type 0
  Stands w token d = (get_reset_token e.redis w.now e.reset_codec token w.store).0 ≡ ok (some d)

  -- A reset that succeeds leaves no row of the user with the version of the reset token.
  pub reset_password-VersionGone :
      (req : ResetPasswordReq) (w w' : World e) (d : ResetTokenData)
      → reset_password e req w ≡ (ok tt, w')
      → Stands w req.reset_token d
      → VersionGone d.user_id d.token_version (e.users.rows w'.db)
  unfolding reset_password
  reset_password-VersionGone req w w' d h stands =
      elim (Result-cases (get_by_id e.users d.user_id w.db).0) [
        | inl (x, f) ↦ absurd (ground (arith, h, stands))
        | inr (none, f) ↦ absurd (ground (arith, h, stands))
        | inr (some u, f) ↦ elim (Result-cases (e.hash_password w.drawn req.new_password)) [
          | inl (x, g) ↦ absurd (ground (arith, h, stands))
          | inr (hashed, g) ↦
              let s = (get_by_id e.users d.user_id w.db).1 in
              let r = update_password e.users w.now d.user_id hashed d.token_version s in
              elim (Result-cases r.0) [
                | inl (token_version_conflict, k) ↦ absurd (ground (arith, h, stands, f, g, k))
                | inl (record_not_found, k) ↦ absurd (ground (arith, h, stands, f, g, k))
                | inl (x, k) ↦ absurd (ground (arith, h, stands, f, g, k))
                | inr (y, k) ↦
                    let (rows, some_row) =
                      update_password-change e.users table w.now d.user_id d.token_version hashed s
                        r.1 (ap (λ q. (q, r.1)) k) in
                    let same : w'.db ≡ r.1 = ground (arith, h, stands, f, g, k) in
                    rw (same, rows)
                      (change-VersionGone w.now d.user_id d.token_version hashed (e.users.rows s))
              ]
        ]
      ]

  -- Over a table with the laws of `TableLaws`: after a reset that succeeds, every token with the
  -- version that its reset token recorded is refused for that user, at any later time, as long as
  -- the table stays as the reset left it.
  pub reset_password-authenticate :
      (req : ResetPasswordReq) (w w' v : World e) (d : ResetTokenData) (token : String)
      (claims : CustomClaims)
      → reset_password e req w ≡ (ok tt, w')
      → Stands w req.reset_token d
      → e.users.rows v.db ≡ e.users.rows w'.db
      → parse_token e.jwt e.jwt_config v.now token false ≡ ok claims
      → claims.user_id ≡ d.user_id
      → claims.token_version ≡ d.token_version
      → is_ok (authenticate e token v).0 ≡ false
  reset_password-authenticate req w w' v d token claims h stands kept parsed same_user old =
      elim (Result-cases (authenticate e token v).0) [
        | inl (x, f) ↦ rw f
        | inr (who, f) ↦
            let a =
              authenticate_sound e table token v (authenticate e token v).1 who
                (ap (λ q. (q, (authenticate e token v).1)) f) in
            let gone = reset_password-VersionGone req w w' d h stands in
            let same : a.claims ≡ claims = ground (arith, a.parsed_as, parsed) in
            absurd (
              VersionGone-find d.user_id d.token_version (e.users.rows v.db) a.user (rw kept gone)
                (ground (arith, a.in_table, same, same_user))
                (ground (arith, a.version, same, old)))
      ]

  -- Over a table with the laws of `TableLaws`: of two resets whose tokens record the same user and
  -- version, the second never succeeds, as long as the table stays as the first one left it.
  pub reset_password-once :
      (req again : ResetPasswordReq) (w w' v : World e) (d : ResetTokenData)
      → reset_password e req w ≡ (ok tt, w')
      → Stands w req.reset_token d
      → Stands v again.reset_token d
      → e.users.rows v.db ≡ e.users.rows w'.db
      → is_ok (reset_password e again v).0 ≡ false
  unfolding reset_password
  reset_password-once req again w w' v d h stands still kept =
      let gone = reset_password-VersionGone req w w' d h stands in
      let s = (get_by_id e.users d.user_id v.db).1 in
      let still_gone : VersionGone d.user_id d.token_version (e.users.rows s) =
        rw (get_by_id-rows e.users table d.user_id v.db, kept) gone in
      elim (Result-cases (get_by_id e.users d.user_id v.db).0) [
        | inl (x, f) ↦ ground (arith, still, f)
        | inr (none, f) ↦ ground (arith, still, f)
        | inr (some u, f) ↦ elim (Result-cases (e.hash_password v.drawn again.new_password)) [
          | inl (x, g) ↦ ground (arith, still, f, g)
          | inr (hashed, g) ↦
              let r = update_password e.users v.now d.user_id hashed d.token_version s in
              elim (Result-cases r.0) [
                | inl (token_version_conflict, k) ↦ ground (arith, still, f, g, k)
                | inl (record_not_found, k) ↦ ground (arith, still, f, g, k)
                | inl (x, k) ↦ ground (arith, still, f, g, k)
                | inr (done, k) ↦ absurd (
                    update_password-gone e.users table v.now d.user_id d.token_version hashed s
                      still_gone k)
              ]
        ]
      ]
