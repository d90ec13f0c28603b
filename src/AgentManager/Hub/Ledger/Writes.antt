-- ===== src/AgentManager/Hub/Ledger/Writes.antt =====
-- What a section of internal/agent_manager/hub.go does to the count of a command.
use dst_go_backend.Base.{
  ℕ, zero, suc, ◌+◌, ◌≤◌, ◌≡◌, refl, String, Bool, true, false, some, List, [], ◌∷◌, ◌++◌, arith,
  map, count, drop_text, count-drop_text, get_elem?, set, str_eq, eq_iff, inl, inr, Option-cases,
  Bool-cases, has_text, add_text, if◌then◌else◌,
}
use dst_go_backend.Protocol.{Envelope}
use dst_go_backend.AgentManager.Hub.{
  Hub, AgentConn, Event, accepted, finished, interrupted, close_agent, close_at, is_command,
  sent_events,
}

abbrev pub one_if : Bool → ℕ
one_if true = 1
one_if false = 0

-- How often the events say that `x` was accepted.
abbrev pub accepted_count : String → List Event → ℕ
accepted_count x [] = 0
accepted_count x (accepted server id ∷ es) = one_if (str_eq id x) + accepted_count x es
accepted_count x (_ ∷ es) = accepted_count x es

-- How often the outcome of `x` was reported: by `Finish`, or by the callback.
abbrev pub settled_count : String → List Event → ℕ
settled_count x [] = 0
settled_count x (accepted server id ∷ es) = settled_count x es
settled_count x (finished server id ∷ es) = one_if (str_eq id x) + settled_count x es
settled_count x (interrupted server id ∷ es) = one_if (str_eq id x) + settled_count x es

-- How often `x` is pending, over all connections, the replaced ones too.
abbrev pub pending_count : String → List AgentConn → ℕ
pending_count x [] = 0
pending_count x (c ∷ cs) = count x c.pending + pending_count x cs

pub pending_count-append :
    (x : String) (cs ds : List AgentConn)
    → pending_count x (cs ++ ds) ≡ pending_count x cs + pending_count x ds
pending_count-append x [] ds = omega arith
pending_count-append x (c ∷ cs) ds = omega (arith, pending_count-append x cs ds)

pub pending_count-set :
    (x : String) (cs : List AgentConn) (a : ℕ) (c d : AgentConn)
    → get_elem? cs a ≡ some c
    → pending_count x (set cs a d) + count x c.pending ≡ pending_count x cs + count x d.pending
pending_count-set x [] a c d h = cc
pending_count-set x (e ∷ cs) zero c d h = ground arith
pending_count-set x (e ∷ cs) (suc a) c d h = omega (arith, pending_count-set x cs a c d h)

pub accepted_count-append :
    (x : String) (es fs : List Event)
    → accepted_count x (es ++ fs) ≡ accepted_count x es + accepted_count x fs
accepted_count-append x [] fs = omega arith
accepted_count-append x (accepted n id ∷ es) fs = omega (arith, accepted_count-append x es fs)
accepted_count-append x (finished n id ∷ es) fs = accepted_count-append x es fs
accepted_count-append x (interrupted n id ∷ es) fs = accepted_count-append x es fs

pub settled_count-append :
    (x : String) (es fs : List Event)
    → settled_count x (es ++ fs) ≡ settled_count x es + settled_count x fs
settled_count-append x [] fs = omega arith
settled_count-append x (accepted n id ∷ es) fs = settled_count-append x es fs
settled_count-append x (finished n id ∷ es) fs = omega (arith, settled_count-append x es fs)
settled_count-append x (interrupted n id ∷ es) fs = omega (arith, settled_count-append x es fs)

pub notify-counts :
    (x : String) (server : ℕ) (ids : List String)
    → (accepted_count x (map (interrupted server) ids) ≡ 0)
      × (settled_count x (map (interrupted server) ids) ≡ count x ids)
notify-counts x server [] = (refl, refl)
notify-counts x server (id ∷ ids) = ground (arith, notify-counts x server ids)

-- How one section changes the books for `x`, where it tries to send `x` `n` times.
pub record Books (x : String) (n : ℕ) (h : Hub) (es : List Event) (h' : Hub) : Type 0 where
  pub never_more :
      settled_count x es + pending_count x h'.agents
      ≤ accepted_count x es + pending_count x h.agents
  pub grows : pending_count x h'.agents ≤ pending_count x h.agents + n
  pub callback : h'.on_interrupted ≡ h.on_interrupted
  pub balanced :
      h.on_interrupted ≡ true
      → pending_count x h.agents + n ≤ 1
      → accepted_count x es + pending_count x h.agents
        ≡ settled_count x es + pending_count x h'.agents

pub close_agent-Books :
    (x : String) (server a : ℕ) (h : Hub) → let r = close_agent server a h in Books x 0 h r.1 r.0
unfolding close_agent
close_agent-Books x server a h = elim (Option-cases (get_elem? h.agents a)) [
  | inl e ↦ rw e (record {
    never_more = omega arith;
    grows = omega arith;
    callback = refl;
    balanced = λ _ _. refl;
  })
  | inr (c, e) ↦ rw e (closed_Books c e)
]
  where
    closed_Books :
        (c : AgentConn)
        → get_elem? h.agents a ≡ some c
        → let r = close_at server a (some c) h in Books x 0 h r.1 r.0
    closed_Books c e =
        let moved = pending_count-set x h.agents a c (record c { pending = []; closed = true }) e in
        let told = notify-counts x server c.pending in
        record {
          never_more = ground (arith, moved, told);
          grows = ground (arith, moved);
          callback = refl;
          balanced = λ set small. ground (arith, moved, told);
        }

pub count-add_text :
    (k x : String) (xs : List String)
    → count x (add_text k xs)
      ≡ (if has_text k xs then count x xs else one_if (str_eq k x) + count x xs)
count-add_text k x xs = ground arith

pub count-le-pending_count :
    (x : String) (cs : List AgentConn) (a : ℕ) (c : AgentConn)
    → get_elem? cs a ≡ some c
    → count x c.pending ≤ pending_count x cs
count-le-pending_count x [] a c h = cc
count-le-pending_count x (e ∷ cs) zero c h = ground arith
count-le-pending_count x (e ∷ cs) (suc a) c h = omega (arith, count-le-pending_count x cs a c h)

-- The books of one connection, whose pending set `p` becomes `q`.
pub record Entry (x : String) (n : ℕ) (p : List String) (es : List Event) (q : List String)
    : Type 0 where
  never_more : settled_count x es + count x q ≤ accepted_count x es + count x p
  grows : count x q ≤ count x p + n
  balanced : count x p + n ≤ 1 → accepted_count x es + count x p ≡ settled_count x es + count x q

-- A section that only writes to one connection keeps the books of the Hub as those of that one.
pub write-Books :
    (x : String) (n a : ℕ) (h : Hub) (c d : AgentConn) (es : List Event) (shut : List ℕ)
    → get_elem? h.agents a ≡ some c
    → Entry x n c.pending es d.pending
    → Books x n h es (record h { agents = set h.agents a d; shut = shut })
write-Books x n a h c d es shut e b =
    let moved = pending_count-set x h.agents a c d e in
    let held = count-le-pending_count x h.agents a c e in
    record {
      never_more = omega (arith, moved, b.never_more);
      grows = omega (arith, moved, b.grows);
      callback = refl;
      balanced = λ set small. omega (arith, moved, held, b.balanced (omega arith));
    }

pub pos_count_of_has : (k : String) (xs : List String) → has_text k xs ≡ true → 1 ≤ count k xs
pos_count_of_has k [] h = cc
pos_count_of_has k (y ∷ ys) h = ground (arith, pos_count_of_has k ys)

pub finish-Entry :
    (x id : String) (server : ℕ) (p : List String)
    → has_text id p ≡ true
    → Entry x 0 p (finished server id ∷ []) (drop_text id p)
finish-Entry x id server p h =
    ground (arith, eq_iff id x, count-drop_text x id p, pos_count_of_has id p)

pub add-Entry :
    (x id : String) (server : ℕ) (p : List String)
    → Entry x (count x (id ∷ [])) p (accepted server id ∷ []) (add_text id p)
add-Entry x id server p = ground (arith, eq_iff id x, count-add_text id x p, pos_count_of_has id p)

-- What a send that was written does to the pending set, for a command or another envelope.
pub sent-Entry :
    (x : String) (server : ℕ) (env : Envelope) (p : List String)
    → Entry x
        (count x (env.id ∷ []))
        p
        (sent_events server env)
        (if is_command env then add_text env.id p else p)
sent-Entry x server env p = elim (Bool-cases (is_command env)) [
  | inl is ↦ rw is (add-Entry x env.id server p)
  | inr not_one ↦ rw not_one (ground arith)
]

-- A failed write takes the id out again.
pub undo-Entry :
    (x : String) (env : Envelope) (p : List String)
    → Entry x
        (count x (env.id ∷ []))
        p
        []
        (drop_text env.id (if is_command env then add_text env.id p else p))
undo-Entry x env p = elim (Bool-cases (is_command env)) [
  | inl is ↦ rw is (
      ground (
        arith,
        eq_iff env.id x,
        count-drop_text x env.id (add_text env.id p),
        count-add_text env.id x p,
      ))
  | inr not_one ↦ rw not_one (ground (arith, eq_iff env.id x, count-drop_text x env.id p))
]
