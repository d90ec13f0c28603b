-- ===== src/AgentManager/Hub/Operations.antt =====
-- The whole operations of internal/agent_manager/hub.go, each run to its end, against what a client
-- sees of the Hub: the live connection of a server, with its pending commands.
mod Views
pub use Views.*
use dst_go_backend.Base.{
  ℕ, ◌≡◌, refl, String, Bool, true, false, not, ◌&&◌, none, some, List, [], ◌∷◌, ◌++◌, arith,
  length, get_elem?, set, inl, inr, lookup, insert, remove, lookup-insert, lookup-remove, Option,
  Option-cases, Bool-cases, has_text, add_text, drop_text, if◌then◌else◌, ◌==◌, ==_iff,
  get_elem?-set, get_elem?-append_one, get_elem?-end,
}
use dst_go_backend.Protocol.{Envelope}
use dst_go_backend.AgentManager.Hub.{
  Hub, AgentConn, Event, finished, notify, register, unregister, disconnect, send, finish,
  WriteOutcome, SendError, is_conn, is_command, sent_events,
}
use dst_go_backend.AgentManager.Hub.System.{System}
use dst_go_backend.AgentManager.Hub.Ownership.{IsOwned}

-- On a hub with `IsOwned` that no thread is working on, `Disconnect` takes the server's connection
-- away and no other, and reports its pending commands.
pub disconnect_lem :
    (server m : ℕ) (h : Hub)
    → IsOwned (at_rest h)
    → (view m (disconnect server h).0 ≡ (if server == m then none else view m h))
      × ((disconnect server h).1 ≡ told h server (view server h))
unfolding disconnect
disconnect_lem server m h v = elim (Option-cases (lookup server h.conns)) [
  | inl e ↦ rw e (view-remove h server m h.agents, refl)
  | inr (a, e) ↦ elim (Option-cases (get_elem? h.agents a)) [
    | inl gone ↦ absurd (ground (arith, v.current server a e))
    | inr (c, there) ↦
        rw (e, there)
          (
            ground (
              arith,
              view-remove h server m (set h.agents a (record c { pending = []; closed = true })),
              view-set h server m a c (record c { pending = []; closed = true }) v e there,
            ),
            refl,
          )
  ]
]

-- On such a hub, with `IsOwned` and at rest, `Unregister` does what `Disconnect` does where the
-- connection given is the server's current one, and nothing where it is not: a connection that was
-- replaced cannot take the new one away.
pub unregister_lem :
    (server conn m : ℕ) (h : Hub)
    → IsOwned (at_rest h)
    → (view m (unregister server conn h).0 ≡ (
        if is_conn conn (view server h)
        then (if server == m then none else view m h)
        else view m h))
      × ((unregister server conn h).1
          ≡ (if is_conn conn (view server h) then told h server (view server h) else []))
unfolding unregister
unregister_lem server conn m h v = elim (Option-cases (lookup server h.conns)) [
  | inl e ↦ rw e (refl, refl)
  | inr (a, e) ↦ rw e (elim (Bool-cases (is_conn conn (get_elem? h.agents a))) [
    | inr other ↦ rw other (refl, refl)
    | inl same ↦ elim (Option-cases (get_elem? h.agents a)) [
      | inl gone ↦ absurd (ground (arith, v.current server a e))
      | inr (c, there) ↦ rw same (
          rw there (
            ground (
              arith,
              view-remove h server m (set h.agents a (record c { pending = []; closed = true })),
              view-set h server m a c (record c { pending = []; closed = true }) v e there,
            ),
            refl,
          ))
    ]
  ])
]

-- On a hub with `IsOwned` that no thread is working on, `Register` gives the server a new
-- connection with no pending command, leaves the other servers as they are, and reports what was
-- pending on the connection that it replaced.
pub register_lem :
    (server conn m : ℕ) (h : Hub)
    → IsOwned (at_rest h)
    → (view m (register server conn h).0
        ≡ (if server == m then some (fresh_conn conn) else view m h))
      × ((register server conn h).1 ≡ told h server (view server h))
unfolding register
register_lem server conn m h v = elim (Option-cases (lookup server h.conns)) [
  | inl e ↦ rw e (
    ground (
      arith,
      lookup-insert m server (length h.agents) h.conns,
      view-append h m (fresh_conn conn) v,
      get_elem?-append_one h.agents (fresh_conn conn) (length h.agents),
    ),
    refl,
  )
  | inr (a, e) ↦ elim (Option-cases (get_elem? h.agents a)) [
    | inl gone ↦ absurd (ground (arith, v.current server a e))
    | inr (c, there) ↦
        rw (e, still_there h a c (fresh_conn conn) there)
          (view-replace h server conn m a c v e there, rw there)
  ]
]

-- What `Finish` leaves of a connection.
abbrev pub after_finish : String → Option AgentConn → Option AgentConn
after_finish id none = none
after_finish id (some c) = some (record c { pending = drop_text id c.pending })

abbrev pub is_pending : String → Option AgentConn → Bool
is_pending id none = false
is_pending id (some c) = has_text id c.pending

-- On a hub with `IsOwned` that no thread is working on, `Finish` succeeds exactly when the command
-- is pending on the server's connection; then it is taken out there, and the views of all servers
-- stay otherwise as they are.
pub finish_lem :
    (server m : ℕ) (id : String) (h : Hub)
    → IsOwned (at_rest h)
    → let r = finish server id h in
      let pending = is_pending id (view server h) in
      (r.2 ≡ pending)
      × (r.1 ≡ (if pending then finished server id ∷ [] else []))
      × (view m r.0
          ≡ (if pending && server == m then after_finish id (view server h) else view m h))
unfolding finish
finish_lem server m id h v = elim (Option-cases (lookup server h.conns)) [
  | inl e ↦ rw e (refl, refl, refl)
  | inr (a, e) ↦ rw e (elim (Option-cases (get_elem? h.agents a)) [
    | inl gone ↦ rw gone (refl, refl, refl)
    | inr (c, there) ↦ rw there (elim (Bool-cases (has_text id c.pending)) [
      | inr absent ↦ rw absent (refl, refl, refl)
      | inl here ↦ rw here (
        refl,
        refl,
        view-set h server m a c (record c { pending = drop_text id c.pending }) v e there,
      )
    ])
  ])
]

-- What a client sees of a send to a server, for each answer of the connection.
abbrev pub after_send : Envelope → WriteOutcome → Option AgentConn → Option AgentConn
after_send env w none = none
after_send env w (some c) =
    let marked : List String = if is_command env then add_text env.id c.pending else c.pending in
    if not w.deadline_ok
    then some c
    else some (record c { pending = if w.write_ok then marked else drop_text env.id marked })

abbrev pub is_sent : WriteOutcome → Option AgentConn → Bool
is_sent w none = false
is_sent w (some c) = w.deadline_ok && w.write_ok

abbrev pub no_error : Option SendError → Bool
no_error none = true
no_error (some e) = false

-- On a hub with `IsOwned` that no thread is working on, `Send` returns no error exactly when the
-- server is connected and both writes succeed; a command is then pending. A write that fails
-- leaves nothing of the command pending, and no other server's view changes.
pub send_lem :
    (server m : ℕ) (env : Envelope) (w : WriteOutcome) (h : Hub)
    → IsOwned (at_rest h)
    → let r = send server env w h in
      (no_error r.2 ≡ is_sent w (view server h))
      × (r.1 ≡ (if is_sent w (view server h) then sent_events server env else []))
      × (view m r.0 ≡ (if server == m then after_send env w (view server h) else view m h))
unfolding send
send_lem server m env w h v = elim (Option-cases (lookup server h.conns)) [
  | inl e ↦ rw e (refl, refl, ground (arith, ==_iff server m))
  | inr (a, e) ↦ elim (Option-cases (get_elem? h.agents a)) [
    | inl gone ↦ absurd (ground (arith, v.current server a e))
    | inr (c, there) ↦ elim (Bool-cases c.closed) [
      | inl shut ↦ absurd (ground (arith, v.current server a e))
      | inr up ↦
          rw (e, there, up)
            (elim (Bool-cases w.deadline_ok) [
              | inr late ↦ rw late (refl, refl, ground (arith, ==_iff server m))
              | inl ready ↦ rw ready (elim (Bool-cases w.write_ok) [
                | inr lost ↦ rw lost (refl, refl, view-set h server m a c _ v e there)
                | inl done ↦ rw done (refl, refl, view-set h server m a c _ v e there)
              ])
            ])
    ]
  ]
]
