-- ===== src/AgentManager/Hub/Ownership.antt =====
-- Which connections are alive, at every moment between two sections.
mod Steps
pub use Steps.*
use dst_go_backend.Base.{
  ℕ, ◌≡◌, refl, sym, String, Bool, true, false, not, none, some, List, [], ◌∷◌, ◌++◌, arith, length,
  get_elem?, set, inl, inr, ◌⊎◌, lookup, insert, remove, lookup-insert, lookup-remove, Option,
  Option-cases, Bool-cases, has_text, if◌then◌else◌, ◌==◌, get_elem?-set, get_elem?-append_one,
  get_elem?-end,
}
use dst_go_backend.Protocol.{Envelope}
use dst_go_backend.AgentManager.Hub.{AgentConn, close_agent, send_at, WriteOutcome, is_conn}
use dst_go_backend.AgentManager.Hub.System.{
  System, Section, swaps, takes_conn, takes, closes, sends, finishes, step, run, close_step,
}

taken-IsOwned :
    (s : System) (server conn a : ℕ)
    → lookup server s.hub.conns ≡ some a
    → IsOwned s
    → IsOwned (step (takes_conn server conn) s).0
unfolding step
taken-IsOwned s server conn a e v =
    rw e (elim (Bool-cases (is_conn conn (get_elem? s.hub.agents a))) [
      | inl same ↦ rw same (take-IsOwned s server a e v)
      | inr other ↦ rw other v
    ])

unwritten-IsOwned :
    (s : System) (shut : List ℕ)
    → IsOwned s
    → IsOwned (record s { hub = record s.hub { shut = shut } })
unwritten-IsOwned s shut v = record {
  current = v.current;
  alone = v.alone;
  leaving = v.leaving;
  held = v.held;
  drained = v.drained;
}

send_at-IsOwned :
    (s : System) (server a : ℕ) (env : Envelope) (w : WriteOutcome) (c : AgentConn)
    → get_elem? s.hub.agents a ≡ some c
    → IsOwned s
    → IsOwned (record s { hub = (send_at server a env w (some c) s.hub).0 })
send_at-IsOwned s server a env w c e v = elim (Bool-cases c.closed) [
  | inl shut ↦ rw shut v
  | inr up ↦ rw up (elim (Bool-cases w.deadline_ok) [
    | inr late ↦ rw late (unwritten-IsOwned s (s.hub.shut ++ c.conn ∷ []) v)
    | inl ready ↦ rw ready (elim (Bool-cases w.write_ok) [
      | inr lost ↦ rw lost (write-IsOwned s a c _ _ e (sym up) (λ q. cc) v)
      | inl done ↦ rw done (write-IsOwned s a c _ s.hub.shut e (sym up) (λ q. cc) v)
    ])
  ])
]

pub step-IsOwned : (sec : Section) (s : System) → IsOwned s → IsOwned (step sec s).0
unfolding step
step-IsOwned (swaps server conn) s v = swap-IsOwned s server conn v
step-IsOwned (takes_conn server conn) s v = elim (Option-cases (lookup server s.hub.conns)) [
  | inl e ↦ rw e v
  | inr (a, e) ↦ taken-IsOwned s server conn a e v
]
step-IsOwned (takes server) s v = elim (Option-cases (lookup server s.hub.conns)) [
  | inl e ↦ rw e (gone-IsOwned s server e v)
  | inr (a, e) ↦ rw e (take-IsOwned s server a e v)
]
step-IsOwned (closes a) s v = elim (Option-cases (lookup a s.closing)) [
  | inl e ↦ rw e v
  | inr (n, e) ↦ rw e (close-IsOwned s a n e v)
]
step-IsOwned (sends server a env w) s v = elim (Option-cases (get_elem? s.hub.agents a)) [
  | inl e ↦ rw e v
  | inr (c, e) ↦ rw e (send_at-IsOwned s server a env w c e v)
]
step-IsOwned (finishes server a id) s v = elim (Option-cases (get_elem? s.hub.agents a)) [
  | inl e ↦ rw e v
  | inr (c, e) ↦ rw e (elim (Bool-cases (has_text id c.pending)) [
    | inl there ↦
        rw there
          (write-IsOwned s a c _ s.hub.shut e refl (λ shut. ground (arith, v.drained a c e shut)) v)
    | inr gone ↦ rw gone v
  ])
]

-- In every order of the sections, from a system where it holds (`IsOwned`): the connections in the
-- map are alive, no two servers share one, a connection that is alive is in the map or about to be
-- closed, and a closed one has no pending command.
pub run-IsOwned : (schedule : List Section) (s : System) → IsOwned s → IsOwned (run schedule s).0
unfolding run
run-IsOwned [] s v = v
run-IsOwned (sec ∷ rest) s v = run-IsOwned rest (step sec s).0 (step-IsOwned sec s v)

-- After any sections from a system with `IsOwned`, a command that is pending is on a connection
-- that is still in the map, or that a thread is about to close: none is left on a connection that
-- nothing will report about.
pub pending-IsHeld :
    (schedule : List Section) (s : System) (a : ℕ) (c : AgentConn) (x : String)
    → IsOwned s
    → get_elem? (run schedule s).0.hub.agents a ≡ some c
    → has_text x c.pending ≡ true
    → IsHeld a (run schedule s).0
pending-IsHeld schedule s a c x v e p =
    let w = run-IsOwned schedule s v in
    elim (Bool-cases c.closed) [
      | inl shut ↦ absurd (ground (arith, w.drained a c e shut))
      | inr up ↦ w.held a (ground arith)
    ]
