-- ===== src/Service/Server/Deletion.antt =====
-- `Delete` of internal/service/server/service.go, with what it leaves for the agent of the server:
-- the hub, and internal/agent_manager/auth.go over the rows.
use dst_go_backend.Base.{
  ℕ, ◌+◌, ◌<◌, ◌≤◌, ◌≡◌, refl, subst, Bool, true, false, String, Option, none, some, List, [], ◌∷◌,
  arith, ◌==◌, ltb, ltb→lt, length, keep, lookup, lookup-remove, inl, inr, Bool-cases, Option-cases,
  get_elem?, if◌then◌else◌,
}
use dst_go_backend.Apperr.{Error, record_not_found, server_has_dst, Result, ok, is_ok}
use dst_go_backend.Act.{Act, pure, throw, ◌>>=◌, Result-cases, continue-eq-ok}
use dst_go_backend.AgentManager.Hub.{Hub, is_online, disconnect, close_agent, take_out}
use dst_go_backend.AgentManager.Auth
use dst_go_backend.Repository.Table.{remove_if, Counts}
use dst_go_backend.Repository.Rows.{touched_or, missing_or}
use dst_go_backend.Repository.Database.{Database, DatabaseLaws, Server, DeletesUnless, any}
use dst_go_backend.Repository.Server
use dst_go_backend.Repository.Server.{is_server_of, is_dst_on, exists_by_id}
use dst_go_backend.Service.World.{Env, World}
use dst_go_backend.Service.Server.{delete, delete_failed}

abbrev pub has_id : ℕ → Server → Bool
has_id id s = s.id == id

-- `ServerStore` as internal/repository/server implements it.
abbrev pub store_of : (d : Database) → d.Db → ℕ → Result Bool
store_of d s id = (exists_by_id d id s).0

-- The rows with the id are those of the user and those that a deletion leaves.
length-keep-remove_if :
    (user_id id : ℕ) (ss : List Server)
    → length (keep (has_id id) (remove_if (is_server_of user_id id) ss))
        + length (keep (is_server_of user_id id) ss)
      ≡ length (keep (has_id id) ss)
length-keep-remove_if user_id id [] = omega arith
length-keep-remove_if user_id id (s ∷ ss) = ground (arith, length-keep-remove_if user_id id ss)

any-none : (p : Server → Bool) (ss : List Server) → length (keep p ss) ≡ 0 → any p ss ≡ false
any-none p [] h = refl
any-none p (s ∷ ss) h = ground (arith, any-none p ss, h)

disconnect-lookup : (server : ℕ) (h : Hub) → lookup server (disconnect server h).0.conns ≡ none
unfolding disconnect close_agent take_out
disconnect-lookup server h = elim (Option-cases (lookup server h.conns)) [
  | inl e ↦ rw e (rw (lookup-remove server server h.conns) (ground arith))
  | inr (a, e) ↦ elim (Option-cases (get_elem? h.agents a)) [
    | inl gone ↦ rw (e, gone) (rw (lookup-remove server server h.conns) (ground arith))
    | inr (c, there) ↦ rw (e, there) (rw (lookup-remove server server h.conns) (ground arith))
  ]
]

module _ {S : Type 0} {A : Type 0} where
  missing_or-fails :
      (missing x : Error) (o : Option A) (u t : S)
      → ¬ (missing_or missing (throw x) o u ≡ (ok tt, t))
  missing_or-fails missing x none u t h = ground (arith, h)
  missing_or-fails missing x (some row) u t h = ground (arith, h)

  -- Where no row is an error either way, success means that the statement touched a row.
  touched_or-touched :
      (statement : Act S ℕ) (row : Act S (Option A)) (missing x : Error) (s t : S)
      → touched_or statement row missing (throw x) s ≡ (ok tt, t)
      → (n : ℕ) × (statement s ≡ (ok n, t)) × (0 < n)
  touched_or-touched statement row missing x s t h =
      let (n, u, ran, rest) =
        continue-eq-ok (statement s)
          (λ n. if ltb 0 n then pure tt else (row >>= missing_or missing (throw x))) h in
      elim (Bool-cases (ltb 0 n)) [
        | inl some_row ↦ (n, ground (arith, ran, rest, some_row), ltb→lt 0 n some_row)
        | inr no_row ↦
            let (o, v, asked, end) =
              continue-eq-ok (row u) (missing_or missing (throw x)) (rw no_row at rest) in
            absurd (missing_or-fails missing x o v t end)
      ]

module _ (d : Database) (laws : DatabaseLaws d) where
  -- The statement has deleted a row: there was no cluster on the server.
  Server-delete_lem :
      (user_id id : ℕ) (s t : d.Db)
      → Server.delete d user_id id s ≡ (ok tt, t)
      → (any (is_dst_on id) (d.dsts.rows s) ≡ false)
        × (0 < length (keep (is_server_of user_id id) (d.servers.rows s)))
        × (d.servers.rows t ≡ remove_if (is_server_of user_id id) (d.servers.rows s))
  unfolding Server.delete Server.get_by_id
  Server-delete_lem user_id id s t h =
      let p = is_server_of user_id id in
      let q = is_dst_on id in
      let (n, ran, touched) =
        touched_or-touched (d.delete_unless p q) (Server.get_by_id d user_id id) record_not_found
          server_has_dst s t h in
      deleted n (any q (d.dsts.rows s)) touched refl (
        subst
          (λ r. DeletesUnless (any q (d.dsts.rows s)) p (d.servers.rows s) (d.servers.rows r.1) r.0)
          ran (laws.delete_unless_lem p q s))
    where
      deleted :
          (n : ℕ) (b : Bool)
          → 0 < n
          → any (is_dst_on id) (d.dsts.rows s) ≡ b
          → DeletesUnless b (is_server_of user_id id) (d.servers.rows s) (d.servers.rows t) (ok n)
          → (any (is_dst_on id) (d.dsts.rows s) ≡ false)
            × (0 < length (keep (is_server_of user_id id) (d.servers.rows s)))
            × (d.servers.rows t ≡ remove_if (is_server_of user_id id) (d.servers.rows s))
      deleted n true touched is law = absurd (omega (arith, law.0))
      deleted n false touched is law = (is, omega (arith, law.0), law.1)

  store_of-gone :
      (id : ℕ) (s : d.Db)
      → length (keep (has_id id) (d.servers.rows s)) ≡ 0
      → (parse : String → Result ℕ) (token : String) → parse token ≡ ok id
      → is_ok (Auth.authenticate parse (store_of d s) token) ≡ false
  unfolding Auth.authenticate exists_by_id Auth.check_server
  store_of-gone id s gone parse token h = elim (Result-cases (d.servers.count (has_id id) s).0) [
    | inl (x, e) ↦ ground (arith, h, e)
    | inr (n, e) ↦
        let counted : n ≡ length (keep (has_id id) (d.servers.rows s)) =
          subst (Counts (has_id id) (d.servers.rows s)) e
            (laws.more_servers.count_lem (has_id id) s) in
        ground (arith, h, e, counted, gone)
  ]

module _ (e : Env) where
  delete_failed-fails : (x : Error) (v w' : World e) → ¬ (delete_failed e x v ≡ (ok tt, w'))
  delete_failed-fails server_has_dst v w' h = ground (arith, h)
  delete_failed-fails record_not_found v w' h = ground (arith, h)
  delete_failed-fails _ v w' h = ground (arith, h)

  delete-eq-ok :
      (user_id id : ℕ) (w w' : World e)
      → delete e user_id id w ≡ (ok tt, w')
      → (Server.delete e.database user_id id w.db ≡ (ok tt, w'.db))
        × (w'.hub ≡ (disconnect id w.hub).0)
  unfolding delete
  delete-eq-ok user_id id w w' h =
      elim (Result-cases (Server.delete e.database user_id id w.db).0) [
        | inl (x, r) ↦ absurd (delete_failed-fails x _ w' (rw r at h))
        | inr (u, r) ↦ ground (arith, h, r)
      ]

-- After a `Delete` that succeeds, there was no cluster on the server and no server has its id; the
-- hub has no connection for it, and the agent's authentication refuses every token that is parsed
-- as its id. The ids of the table are used once, and the database has the documented laws.
pub delete-authenticate :
    (e : Env)
    → DatabaseLaws e.database
    → (user_id id : ℕ) (w w' : World e) (parse : String → Result ℕ) (token : String)
    → length (keep (has_id id) (e.servers.rows w.db)) ≤ 1
    → delete e user_id id w ≡ (ok tt, w')
    → parse token ≡ ok id
    → (any (is_dst_on id) (e.dsts.rows w.db) ≡ false)
      × (any (has_id id) (e.servers.rows w'.db) ≡ false)
      × (is_online id w'.hub ≡ false)
      × (is_ok (Auth.authenticate parse (store_of e.database w'.db) token) ≡ false)
unfolding is_online
delete-authenticate e laws user_id id w w' parse token once h read =
    let (ran, hub) = delete-eq-ok e user_id id w w' h in
    let (bare, found, left) = Server-delete_lem e.database laws user_id id w.db w'.db ran in
    let sum = length-keep-remove_if user_id id (e.servers.rows w.db) in
    let gone : length (keep (has_id id) (e.servers.rows w'.db)) ≡ 0 = rw left (omega arith) in
    (
      bare,
      any-none (has_id id) (e.servers.rows w'.db) gone,
      rw hub (rw (disconnect-lookup id w.hub, is_online) refl),
      store_of-gone e.database laws id w'.db gone parse token read,
    )
