-- ===== src/AgentManager/Hub/Ownership/Steps.antt =====
-- Who holds the connections of internal/agent_manager/hub.go, and the single steps that keep it.
use dst_go_backend.Base.{
  ℕ, ◌≡◌, Bool, true, false, not, none, some, List, [], ◌∷◌, ◌++◌, arith, length, get_elem?, set,
  inl, inr, ◌⊎◌, lookup, insert, remove, lookup-insert, lookup-remove, Option, Option-cases,
  Bool-cases, if◌then◌else◌, ◌==◌, get_elem?-set, get_elem?-append_one, get_elem?-end,
}
use dst_go_backend.AgentManager.Hub.{AgentConn, close_agent}
use dst_go_backend.AgentManager.Hub.System.{System, swaps, step, close_step}

abbrev pub is_open : Option AgentConn → Bool
is_open none = false
is_open (some c) = not c.closed

-- The connection is the current one of a server, or a thread is about to close it.
abbrev pub IsHeld : ℕ → System → Type 0
IsHeld a s = ((n : ℕ) × (lookup n s.hub.conns ≡ some a)) ⊎ ((n : ℕ) × (lookup a s.closing ≡ some n))

pub record IsOwned (s : System) : Type 0 where
  pub current :
      (n a : ℕ)
      → lookup n s.hub.conns ≡ some a
      → (is_open (get_elem? s.hub.agents a) ≡ true) × (lookup a s.closing ≡ none)
  pub alone : (n m a : ℕ) → lookup n s.hub.conns ≡ some a → lookup m s.hub.conns ≡ some a → n ≡ m
  pub leaving : (a n : ℕ) → lookup a s.closing ≡ some n → is_open (get_elem? s.hub.agents a) ≡ true
  pub held : (a : ℕ) → is_open (get_elem? s.hub.agents a) ≡ true → IsHeld a s
  pub drained :
      (a : ℕ) (c : AgentConn) → get_elem? s.hub.agents a ≡ some c → c.closed ≡ true → c.pending ≡ []

-- A section that writes to one connection, and neither opens nor closes it.
pub write-IsOwned :
    (s : System) (a : ℕ) (c d : AgentConn) (shut : List ℕ)
    → get_elem? s.hub.agents a ≡ some c
    → d.closed ≡ c.closed
    → (d.closed ≡ true → d.pending ≡ [])
    → IsOwned s
    → IsOwned (record s { hub = record s.hub { agents = set s.hub.agents a d; shut = shut } })
write-IsOwned s a c d shut e same empty v =
    let at = λ (b : ℕ). get_elem?-set s.hub.agents a b c d e in
    record {
      current = λ n b p. ground (arith, at b, v.current n b p);
      alone = v.alone;
      leaving = λ b n p. ground (arith, at b, v.leaving b n p);
      held = λ b p. ground (arith, at b, v.held b);
      drained = λ b f q r. ground (arith, at b, v.drained b f);
    }

-- What closing leaves, for a connection `c` that stands at the address.
pub closed-IsOwned :
    (s : System) (a n : ℕ) (c : AgentConn) (shut : List ℕ)
    → get_elem? s.hub.agents a ≡ some c
    → lookup a s.closing ≡ some n
    → IsOwned s
    → IsOwned (record s {
      hub = record s.hub {
        agents = set s.hub.agents a (record c { pending = []; closed = true });
        shut = shut;
      };
      closing = remove a s.closing;
    })
closed-IsOwned s a n c shut e l v =
    let at =
      λ (b : ℕ). get_elem?-set s.hub.agents a b c (record c { pending = []; closed = true }) e in
    let left = λ (b : ℕ). lookup-remove b a s.closing in
    record {
      current = λ m b p. ground (arith, at b, left b, v.current m b p);
      alone = v.alone;
      leaving = λ b m p. ground (arith, at b, left b, v.leaving b m);
      held = λ b p. still_held b (at b) (left b) p;
      drained = λ b f q r. ground (arith, at b, v.drained b f);
    }
  where
    still_held :
        (b : ℕ)
        → get_elem? (set s.hub.agents a (record c { pending = []; closed = true })) b ≡ (
            if a == b
            then some (record c { pending = []; closed = true })
            else get_elem? s.hub.agents b)
        → lookup b (remove a s.closing) ≡ (if a == b then none else lookup b s.closing)
        → is_open (get_elem? (set s.hub.agents a (record c { pending = []; closed = true })) b)
          ≡ true
        → ((m : ℕ) × (lookup m s.hub.conns ≡ some b))
          ⊎ ((m : ℕ) × (lookup b (remove a s.closing) ≡ some m))
    still_held b p q o = elim (v.held b (ground arith)) [
      | inl (m, at_m) ↦ inl (m, at_m)
      | inr (m, at_b) ↦ inr (m, ground arith)
    ]

pub close-IsOwned :
    (s : System) (a n : ℕ)
    → lookup a s.closing ≡ some n
    → IsOwned s
    → IsOwned (close_step a (some n) s).0
unfolding close_agent
close-IsOwned s a n l v = elim (Option-cases (get_elem? s.hub.agents a)) [
  | inl e ↦ absurd (ground (arith, v.leaving a n l))
  | inr (c, e) ↦ rw e (closed-IsOwned s a n c _ e l v)
]

pub take-IsOwned :
    (s : System) (n a : ℕ)
    → lookup n s.hub.conns ≡ some a
    → IsOwned s
    → IsOwned (record s {
      hub = record s.hub { conns = remove n s.hub.conns };
      closing = insert a n s.closing;
    })
take-IsOwned s n a e v = record {
  current = λ m b p. ground (
    arith,
    lookup-remove m n s.hub.conns,
    lookup-insert b a n s.closing,
    v.current m b,
    v.alone m n a,
  );
  alone = λ m k b p q.
      ground (arith, lookup-remove m n s.hub.conns, lookup-remove k n s.hub.conns, v.alone m k b);
  leaving = λ b m p. ground (arith, lookup-insert b a n s.closing, v.leaving b m, v.current n a);
  held = λ b p. still_held b p;
  drained = v.drained;
}
  where
    still_held :
        (b : ℕ)
        → is_open (get_elem? s.hub.agents b) ≡ true
        → ((m : ℕ) × (lookup m (remove n s.hub.conns) ≡ some b))
          ⊎ ((m : ℕ) × (lookup b (insert a n s.closing) ≡ some m))
    still_held b p = elim (v.held b p) [
      | inl (m, q) ↦ elim (Bool-cases (n == m)) [
        | inl same ↦ inr (n, ground (arith, lookup-insert b a n s.closing))
        | inr other ↦ inl (m, ground (arith, lookup-remove m n s.hub.conns))
      ]
      | inr (m, q) ↦ elim (Bool-cases (a == b)) [
        | inl same ↦ inr (n, ground (arith, lookup-insert b a n s.closing))
        | inr other ↦ inr (m, ground (arith, lookup-insert b a n s.closing))
      ]
    ]

-- The server had no connection.
pub gone-IsOwned :
    (s : System) (n : ℕ)
    → lookup n s.hub.conns ≡ none
    → IsOwned s
    → IsOwned (record s { hub = record s.hub { conns = remove n s.hub.conns } })
gone-IsOwned s n e v = record {
  current = λ m b p. ground (arith, lookup-remove m n s.hub.conns, v.current m b);
  alone = λ m k b p q.
      ground (arith, lookup-remove m n s.hub.conns, lookup-remove k n s.hub.conns, v.alone m k b);
  leaving = v.leaving;
  held = λ b p. elim (v.held b p) [
    | inl (m, q) ↦ inl (m, ground (arith, lookup-remove m n s.hub.conns))
    | inr (m, q) ↦ inr (m, q)
  ];
  drained = v.drained;
}

pub unused_address : (s : System) → IsOwned s → lookup (length s.hub.agents) s.closing ≡ none
unused_address s v = elim (Option-cases (lookup (length s.hub.agents) s.closing)) [
  | inl e ↦ e
  | inr (n, e) ↦
      absurd (ground (arith, v.leaving (length s.hub.agents) n e, get_elem?-end s.hub.agents))
]

-- A new connection, at the next address.
pub add-IsOwned :
    (s : System) (n conn : ℕ)
    → lookup n s.hub.conns ≡ none
    → IsOwned s
    → IsOwned (record s {
      hub = record s.hub {
        conns = (n, length s.hub.agents) ∷ s.hub.conns;
        agents = s.hub.agents ++ record { conn = conn; pending = []; closed = false } ∷ [];
      };
    })
add-IsOwned s n conn e v =
    let at =
      get_elem?-append_one s.hub.agents (record { conn = conn; pending = []; closed = false }) in
    let end = get_elem?-end s.hub.agents in
    let unused = unused_address s v in
    record {
      current = λ m b p. ground (arith, at b, end, unused, v.current m b);
      alone = λ m k b p q. ground (arith, end, v.alone m k b, v.current m b, v.current k b);
      leaving = λ b m p. ground (arith, at b, v.leaving b m, end);
      held = λ b p. still_held b (at b) p;
      drained = λ b f q r. ground (arith, at b, v.drained b f);
    }
  where
    still_held :
        (b : ℕ)
        → get_elem? (s.hub.agents ++ record { conn = conn; pending = []; closed = false } ∷ []) b
          ≡ (if length s.hub.agents == b
              then some (record { conn = conn; pending = []; closed = false })
              else get_elem? s.hub.agents b)
        → is_open (
            get_elem? (s.hub.agents ++ record { conn = conn; pending = []; closed = false } ∷ []) b)
          ≡ true
        → ((m : ℕ) × (lookup m ((n, length s.hub.agents) ∷ s.hub.conns) ≡ some b))
          ⊎ ((m : ℕ) × (lookup b s.closing ≡ some m))
    still_held b q p = elim (Bool-cases (length s.hub.agents == b)) [
      | inl new ↦ inl (n, ground arith)
      | inr old ↦ elim (v.held b (ground arith)) [
        | inl (m, at_m) ↦ inl (m, ground arith)
        | inr (m, at_b) ↦ inr (m, at_b)
      ]
    ]

pub swap-IsOwned : (s : System) (n conn : ℕ) → IsOwned s → IsOwned (step (swaps n conn) s).0
unfolding step
swap-IsOwned s n conn v = elim (Option-cases (lookup n s.hub.conns)) [
  | inl e ↦
      rw e (
        add-IsOwned _ n conn (ground (arith, lookup-remove n n s.hub.conns)) (gone-IsOwned s n e v))
  | inr (a, e) ↦ rw e (
      add-IsOwned _ n conn (ground (arith, lookup-remove n n s.hub.conns)) (take-IsOwned s n a e v))
]
