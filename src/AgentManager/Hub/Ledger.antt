-- ===== src/AgentManager/Hub/Ledger.antt =====
-- What is reported of a command: the ledger of accepted, pending and reported ids.
mod Writes
pub use Writes.*
use dst_go_backend.Base.{
  ℕ, zero, suc, ◌+◌, ◌≤◌, ◌≡◌, refl, String, Bool, true, false, none, some, List, [], ◌∷◌, ◌++◌,
  arith, map, count, count-append, drop_text, count-drop_text, get_elem?, set, str_eq, eq_iff, inl,
  inr, lookup, Option-cases, Bool-cases, Option, has_text, add_text, if◌then◌else◌, ◌∙◌,
}
use dst_go_backend.Protocol.{Envelope}
use dst_go_backend.AgentManager.Hub.{
  Hub, AgentConn, Event, accepted, finished, interrupted, swap_in, take_out_conn, take_out,
  close_agent, close_at, send_locked, send_at, finish_locked, WriteOutcome, is_command, sent_events,
}
use dst_go_backend.AgentManager.Hub.System.{
  System, Section, swaps, takes_conn, takes, closes, sends, finishes, step, run, sent_by, sent_ids,
  close_step,
}

pub idle-Books :
    (x : String) (n : ℕ) (h : Hub) (shut : List ℕ) → Books x n h [] (record h { shut = shut })
idle-Books x n h shut = record {
  never_more = omega arith;
  grows = omega arith;
  callback = refl;
  balanced = λ _ _. refl;
}

send_at-Books :
    (x : String) (server a : ℕ) (env : Envelope) (w : WriteOutcome) (h : Hub) (c : AgentConn)
    → get_elem? h.agents a ≡ some c
    → let r = send_at server a env w (some c) h in
      Books x (count x (sent_by (sends server a env w))) h r.1 r.0
send_at-Books x server a env w h c e = elim (Bool-cases c.closed) [
  | inl shut ↦ rw shut (idle-Books x _ h h.shut)
  | inr up ↦ rw up (elim (Bool-cases w.deadline_ok) [
    | inr late ↦ rw late (idle-Books x _ h (h.shut ++ c.conn ∷ []))
    | inl ready ↦ rw ready (elim (Bool-cases w.write_ok) [
      | inr lost ↦ rw lost (write-Books x _ a h c _ [] _ e (undo-Entry x env c.pending))
      | inl done ↦ rw done (write-Books x _ a h c _ _ h.shut e (sent-Entry x server env c.pending))
    ])
  ])
]

pub send_locked-Books :
    (x : String) (server a : ℕ) (env : Envelope) (w : WriteOutcome) (h : Hub)
    → let r = send_locked server a env w h in
      Books x (count x (sent_by (sends server a env w))) h r.1 r.0
unfolding send_locked
send_locked-Books x server a env w h = elim (Option-cases (get_elem? h.agents a)) [
  | inl e ↦ rw e (idle-Books x _ h h.shut)
  | inr (c, e) ↦ rw e (send_at-Books x server a env w h c e)
]

pub finish_locked-Books :
    (x : String) (server a : ℕ) (id : String) (h : Hub)
    → let r = finish_locked server a id h in Books x 0 h r.1 r.0
unfolding finish_locked
finish_locked-Books x server a id h = elim (Option-cases (get_elem? h.agents a)) [
  | inl e ↦ rw e (idle-Books x 0 h h.shut)
  | inr (c, e) ↦ rw e (elim (Bool-cases (has_text id c.pending)) [
    | inl there ↦
        rw there (write-Books x 0 a h c _ _ h.shut e (finish-Entry x id server c.pending there))
    | inr gone ↦ rw gone (idle-Books x 0 h h.shut)
  ])
]

close_step-Books :
    (x : String) (a : ℕ) (server : Option ℕ) (s : System)
    → let r = close_step a server s in Books x 0 s.hub r.1 r.0.hub
close_step-Books x a none s = idle-Books x 0 s.hub s.hub.shut
close_step-Books x a (some server) s = close_agent-Books x server a s.hub

pub take_out_conn-Books :
    (x : String) (server conn : ℕ) (h : Hub) → Books x 0 h [] (take_out_conn server conn h).0
unfolding take_out_conn
take_out_conn-Books x server conn h = ground arith

pub take_out-Books : (x : String) (server : ℕ) (h : Hub) → Books x 0 h [] (take_out server h).0
unfolding take_out
take_out-Books x server h = ground arith

pub swap_in-Books :
    (x : String) (server conn : ℕ) (h : Hub) → Books x 0 h [] (swap_in server conn h).0
unfolding swap_in
swap_in-Books x server conn h = ground (
  arith,
  pending_count-append x h.agents (record { conn = conn; pending = []; closed = false } ∷ []),
)

step-Books :
    (x : String) (sec : Section) (s : System)
    → let r = step sec s in Books x (count x (sent_by sec)) s.hub r.1 r.0.hub
unfolding step
step-Books x (swaps server conn) s = swap_in-Books x server conn s.hub
step-Books x (takes_conn server conn) s = take_out_conn-Books x server conn s.hub
step-Books x (takes server) s = take_out-Books x server s.hub
step-Books x (closes a) s = close_step-Books x a (lookup a s.closing) s
step-Books x (sends server a env w) s = send_locked-Books x server a env w s.hub
step-Books x (finishes server a id) s = finish_locked-Books x server a id s.hub

pub Books-trans :
    (x : String) (m n : ℕ) (h h' h'' : Hub) (es fs : List Event)
    → Books x m h es h'
    → Books x n h' fs h''
    → Books x (m + n) h (es ++ fs) h''
Books-trans x m n h h' h'' es fs b c =
    let se = settled_count-append x es fs in
    let ae = accepted_count-append x es fs in
    record {
      never_more = omega (arith, se, ae, b.never_more, c.never_more);
      grows = omega (arith, b.grows, c.grows);
      callback = c.callback ∙ b.callback;
      balanced = λ set small. omega (
        arith,
        se,
        ae,
        b.balanced set (omega arith),
        b.grows,
        c.balanced (b.callback ∙ set) (omega (arith, b.grows)),
      );
    }

-- Whatever the order of the sections and the answers of the connections, no command is reported
-- more often than it was accepted: with the reports still to come counted too.
pub run-never_more :
    (x : String) (schedule : List Section) (s : System)
    → let r = run schedule s in
      settled_count x r.1 + pending_count x r.0.hub.agents
      ≤ accepted_count x r.1 + pending_count x s.hub.agents
unfolding run
run-never_more x [] s = omega arith
run-never_more x (sec ∷ rest) s =
    let (s', es) = step sec s in
    let (s'', es') = run rest s' in
    omega (
      arith,
      (step-Books x sec s).never_more,
      run-never_more x rest s',
      settled_count-append x es es',
      accepted_count-append x es es',
    )

-- Where the callback is set, the books balance for an id that is pending and sent at most once in
-- all: how often it was accepted, or was pending at the start, is how often it was ended, by
-- `Finish` or by the callback, or is pending at the end.
pub run-balanced :
    (x : String) (schedule : List Section) (s : System)
    → s.hub.on_interrupted ≡ true
    → pending_count x s.hub.agents + count x (sent_ids schedule) ≤ 1
    → let r = run schedule s in
      accepted_count x r.1 + pending_count x s.hub.agents
      ≡ settled_count x r.1 + pending_count x r.0.hub.agents
unfolding run
run-balanced x [] s set once = refl
run-balanced x (sec ∷ rest) s set once =
    let (s', es) = step sec s in
    let (s'', es') = run rest s' in
    let b = step-Books x sec s in
    let split = count-append x (sent_by sec) (sent_ids rest) in
    omega (
      arith,
      b.balanced set (omega (arith, split)),
      run-balanced x rest s' (b.callback ∙ set) (omega (arith, split, b.grows)),
      settled_count-append x es es',
      accepted_count-append x es es',
    )
