-- ===== src/AgentManager/Hub/Operations/Views.antt =====
-- What one server sees of the hub of internal/agent_manager/hub.go.
use dst_go_backend.Base.{
  ℕ, ◌≡◌, true, false, none, some, List, [], ◌∷◌, ◌++◌, arith, length, get_elem?, set, inl, inr,
  lookup, insert, remove, lookup-insert, lookup-remove, Option, Option-cases, Bool-cases,
  if◌then◌else◌, ◌==◌, get_elem?-set, get_elem?-append_one, get_elem?-end,
}
use dst_go_backend.AgentManager.Hub.{Hub, AgentConn, Event, notify}
use dst_go_backend.AgentManager.Hub.System.{System}
use dst_go_backend.AgentManager.Hub.Ownership.{IsOwned}

abbrev pub at_rest : Hub → System
at_rest h = record { hub = h; closing = [] }

abbrev pub agent_at : List AgentConn → Option ℕ → Option AgentConn
agent_at agents none = none
agent_at agents (some a) = get_elem? agents a

-- What a client sees of a server.
abbrev pub view : ℕ → Hub → Option AgentConn
view server h = agent_at h.agents (lookup server h.conns)

-- What the callback is told when the connection is closed.
abbrev pub told : Hub → ℕ → Option AgentConn → List Event
told h server none = []
told h server (some c) = notify h.on_interrupted server c.pending

abbrev pub fresh_conn : ℕ → AgentConn
fresh_conn conn = record { conn = conn; pending = []; closed = false }

-- The connection of a server in the map is there and open.
pub view-open :
    (h : Hub) (n a : ℕ)
    → IsOwned (at_rest h)
    → lookup n h.conns ≡ some a
    → (c : AgentConn) × (get_elem? h.agents a ≡ some c) × (c.closed ≡ false)
view-open h n a v e = elim (Option-cases (get_elem? h.agents a)) [
  | inl gone ↦ absurd (ground (arith, v.current n a e))
  | inr (c, there) ↦ (c, there, ground (arith, v.current n a e))
]

-- A write to the connection of one server changes the view of no other.
pub view-set :
    (h : Hub) (n m a : ℕ) (c d : AgentConn)
    → IsOwned (at_rest h)
    → lookup n h.conns ≡ some a
    → get_elem? h.agents a ≡ some c
    → agent_at (set h.agents a d) (lookup m h.conns) ≡ (if n == m then some d else view m h)
view-set h n m a c d v e there = elim (Option-cases (lookup m h.conns)) [
  | inl miss ↦ rw miss (ground arith)
  | inr (b, hit) ↦ rw hit (ground (arith, v.alone n m a e, get_elem?-set h.agents a b c d there))
]

pub view-remove :
    (h : Hub) (n m : ℕ) (agents : List AgentConn)
    → agent_at agents (lookup m (remove n h.conns))
      ≡ (if n == m then none else agent_at agents (lookup m h.conns))
view-remove h n m agents = rw (lookup-remove m n h.conns) (ground arith)

-- A new connection at the end changes no view.
pub view-append :
    (h : Hub) (m : ℕ) (d : AgentConn)
    → IsOwned (at_rest h)
    → agent_at (h.agents ++ d ∷ []) (lookup m h.conns) ≡ view m h
view-append h m d v = elim (Option-cases (lookup m h.conns)) [
  | inl miss ↦ rw miss
  | inr (b, hit) ↦
      rw hit (
        ground
          (arith, get_elem?-append_one h.agents d b, get_elem?-end h.agents, v.current m b hit))
]

pub still_there :
    (h : Hub) (a : ℕ) (c d : AgentConn)
    → get_elem? h.agents a ≡ some c
    → get_elem? (h.agents ++ d ∷ []) a ≡ some c
still_there h a c d there =
    ground (arith, get_elem?-append_one h.agents d a, get_elem?-end h.agents)

-- The view once the server has a new connection and its old one is closed.
pub view-replace :
    (h : Hub) (server conn m a : ℕ) (c : AgentConn)
    → IsOwned (at_rest h)
    → lookup server h.conns ≡ some a
    → get_elem? h.agents a ≡ some c
    → agent_at
        (set (h.agents ++ fresh_conn conn ∷ []) a (record c { pending = []; closed = true }))
        (lookup m (insert server (length h.agents) h.conns))
      ≡ (if server == m then some (fresh_conn conn) else view m h)
view-replace h server conn m a c v e there =
    let old : AgentConn = record c { pending = []; closed = true } in
    let at = λ (b : ℕ).
      get_elem?-set (h.agents ++ fresh_conn conn ∷ []) a b c old
        (still_there h a c (fresh_conn conn) there) in
    elim (Bool-cases (server == m)) [
      | inl same ↦ rw (lookup-insert m server (length h.agents) h.conns) (
          rw same (
            ground (
              arith,
              at (length h.agents),
              get_elem?-end h.agents,
              get_elem?-append_one h.agents (fresh_conn conn) (length h.agents),
            )))
      | inr other ↦ rw (lookup-insert m server (length h.agents) h.conns) (
          rw other (elim (Option-cases (lookup m h.conns)) [
            | inl miss ↦ rw miss
            | inr (b, hit) ↦ rw hit (
                ground (
                  arith,
                  at b,
                  v.alone server m a e,
                  get_elem?-end h.agents,
                  v.current m b hit,
                  get_elem?-append_one h.agents (fresh_conn conn) b,
                ))
          ]))
    ]
