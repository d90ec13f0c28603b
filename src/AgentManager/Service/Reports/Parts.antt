-- ===== src/AgentManager/Service/Reports/Parts.antt =====
-- What one call of internal/agent_manager/service.go adds to the account of a command.
use dst_go_backend.Base.{
  ℕ, ◌+◌, ◌≤◌, ◌≡◌, ◌∙◌, String, true, List, [], ◌∷◌, arith, count, inl, inr, lookup, Option-cases,
  Bool-cases, if◌then◌else◌, get_elem?, str_eq,
}
use dst_go_backend.Protocol.{CmdPayload, Ack, Envelope}
use dst_go_backend.Protocol
use dst_go_backend.AgentManager.Hub.{
  Hub, Event, accepted, finished, is_command, close_found, register, unregister, disconnect, send,
  send_locked, finish, finish_locked, WriteOutcome, swap_in, take_out, take_out_conn,
}
use dst_go_backend.AgentManager.Hub.Ledger.{
  one_if, accepted_count, settled_count, pending_count, Books, Books-trans, idle-Books,
  swap_in-Books, take_out-Books, take_out_conn-Books, send_locked-Books, finish_locked-Books,
}
use dst_go_backend.AgentManager.Hub.Operations.{no_error}
use dst_go_backend.AgentManager.Service.{
  Service, Report, relay, resulted, report_ack, handle_ack, handle_result,
}
use dst_go_backend.AgentManager.Service.Reports.{
  outcome_count, IsNotice, close_found-IsNotice, relay-IsNotice, accepted-IsNotice,
  close_found-Books, hub_change,
}

-- All callbacks are set, as internal/bootstrap/app.go does.
pub record AllSet (s : Service) : Type 0 where
  pub hub : s.hub.on_interrupted ≡ true
  pub ack : s.on_ack ≡ true
  pub result : s.on_result ≡ true
  pub interrupted : s.on_interrupted ≡ true

-- What a change of the service adds to the account of `x`, which it tries to send `n` times.
pub record Account (x : String) (n : ℕ) (s : Service) (rs : List Report) (ids : List String)
    (s' : Service) : Type 0 where
  pub never_more :
      outcome_count x rs + pending_count x s'.hub.agents
      ≤ count x ids + pending_count x s.hub.agents
  pub grows : pending_count x s'.hub.agents ≤ pending_count x s.hub.agents + n
  pub keeps : AllSet s → AllSet s'
  pub balanced :
      AllSet s
      → pending_count x s.hub.agents + n ≤ 1
      → count x ids + pending_count x s.hub.agents
        ≡ outcome_count x rs + pending_count x s'.hub.agents

-- The Hub changed, and every end that its events tell of was reported.
pub hub-Account :
    (x : String) (n : ℕ) (s : Service) (h : Hub) (es : List Event) (rs : List Report)
    (ids : List String)
    → Books x n s.hub es h
    → outcome_count x rs ≤ settled_count x es
    → (AllSet s → outcome_count x rs ≡ settled_count x es)
    → count x ids ≡ accepted_count x es
    → Account x n s rs ids (record s { hub = h })
hub-Account x n s h es rs ids b less same from = record {
  never_more = omega (arith, b.never_more);
  grows = b.grows;
  keeps = λ a. record {
    hub = b.callback ∙ a.hub;
    ack = a.ack;
    result = a.result;
    interrupted = a.interrupted;
  };
  balanced = λ a small. omega (arith, same a, b.balanced a.hub small);
}

pub notice-Account :
    (x : String) (s : Service) (r : Hub × List Event)
    → Books x 0 s.hub r.1 r.0
    → IsNotice r.1
    → Account x 0 s (relay s.on_interrupted r.1) [] (record s { hub = r.0 })
notice-Account x s r b notice =
    let told = relay-IsNotice x s.on_interrupted r.1 notice in
    hub-Account x 0 s r.0 r.1 (relay s.on_interrupted r.1) [] b (ground (arith, told))
      (λ a. ground (arith, told, a.interrupted)) (ground (arith, accepted-IsNotice x r.1 notice))

pub register-Account :
    (x : String) (server conn : ℕ) (s : Service)
    → let r = hub_change s (register server conn s.hub) in Account x 0 s r.1 r.2 r.0
unfolding register
register-Account x server conn s =
    let (h, old) = swap_in server conn s.hub in
    notice-Account x s (close_found server old h)
      (Books-trans x 0 0 s.hub h _ [] _ (swap_in-Books x server conn s.hub)
        (close_found-Books x server old h))
      (close_found-IsNotice server old h)

pub unregister-Account :
    (x : String) (server conn : ℕ) (s : Service)
    → let r = hub_change s (unregister server conn s.hub) in Account x 0 s r.1 r.2 r.0
unfolding unregister
unregister-Account x server conn s =
    let (h, current) = take_out_conn server conn s.hub in
    notice-Account x s (close_found server current h)
      (Books-trans x 0 0 s.hub h _ [] _ (take_out_conn-Books x server conn s.hub)
        (close_found-Books x server current h))
      (close_found-IsNotice server current h)

pub disconnect-Account :
    (x : String) (server : ℕ) (s : Service)
    → let r = hub_change s (disconnect server s.hub) in Account x 0 s r.1 r.2 r.0
unfolding disconnect
disconnect-Account x server s =
    let (h, agent) = take_out server s.hub in
    notice-Account x s (close_found server agent h)
      (Books-trans x 0 0 s.hub h _ [] _ (take_out-Books x server s.hub)
        (close_found-Books x server agent h))
      (close_found-IsNotice server agent h)

-- The events of `Finish` say what it returns.
pub finish-events :
    (server : ℕ) (id : String) (h : Hub)
    → let r = finish server id h in r.1 ≡ (if r.2 then finished server id ∷ [] else [])
unfolding finish finish_locked
finish-events server id h = elim (Option-cases (lookup server h.conns)) [
  | inl e ↦ rw e
  | inr (a, e) ↦ rw e (elim (Option-cases (get_elem? h.agents a)) [
    | inl gone ↦ rw gone
    | inr (c, there) ↦ rw there (ground arith)
  ])
]

pub finish-Books :
    (x : String) (server : ℕ) (id : String) (h : Hub)
    → let r = finish server id h in Books x 0 h r.1 r.0
unfolding finish
finish-Books x server id h = elim (Option-cases (lookup server h.conns)) [
  | inl e ↦ rw e (idle-Books x 0 h h.shut)
  | inr (a, e) ↦ rw e (finish_locked-Books x server a id h)
]

pub same-Account :
    (x : String) (n : ℕ) (s : Service) (rs : List Report)
    → outcome_count x rs ≡ 0
    → Account x n s rs [] s
same-Account x n s rs quiet = record {
  never_more = omega arith;
  grows = omega arith;
  keeps = λ a. a;
  balanced = λ _ _. omega arith;
}

-- A handler that reports `told` where `Finish` succeeds.
pub finish-Account :
    (x : String) (server : ℕ) (id : String) (told : List Report) (s : Service)
    → outcome_count x told ≤ one_if (str_eq id x)
    → (AllSet s → outcome_count x told ≡ one_if (str_eq id x))
    → let r = finish server id s.hub in
      Account x 0 s (if r.2 then told else []) [] (record s { hub = r.0 })
finish-Account x server id told s less same =
    let e = finish-events server id s.hub in
    hub-Account x 0 s _ _ _ [] (finish-Books x server id s.hub) (ground (arith, e))
      (λ a. ground (arith, e, same a)) (ground (arith, e))

pub ack-Account :
    (x : String) (server : ℕ) (id : String) (ack : Ack) (s : Service)
    → let r = handle_ack server id ack s in Account x 0 s r.1 [] r.0
unfolding handle_ack
ack-Account x server id ack s = elim (Bool-cases ack.accepted) [
  | inl is ↦ rw is (same-Account x 0 s _ (ground arith))
  | inr refused ↦
      let base =
        finish-Account x server id (report_ack server id ack s) s (ground arith)
          (λ a. ground (arith, a.ack)) in
      rw refused (elim (Bool-cases (finish server id s.hub).2) [
        | inl done ↦ rw done (rw done at (rw refused at base))
        | inr not_done ↦ rw not_done (rw not_done at (rw refused at base))
      ])
]

pub result-Account :
    (x : String) (server : ℕ) (id : String) (res : Protocol.Result) (s : Service)
    → let r = handle_result server id res s in Account x 0 s r.1 [] r.0
unfolding handle_result
result-Account x server id res s =
    finish-Account x server id (if s.on_result then resulted server id res ∷ [] else []) s
      (ground arith) (λ a. ground (arith, a.result))

-- A command that was sent without error is an event of the Hub, and no other is.
pub send-events :
    (server : ℕ) (env : Envelope) (w : WriteOutcome) (h : Hub)
    → is_command env ≡ true
    → let r = send server env w h in
      r.1 ≡ (if no_error r.2 then accepted server env.id ∷ [] else [])
unfolding send send_locked
send-events server env w h is = elim (Option-cases (lookup server h.conns)) [
  | inl e ↦ rw e
  | inr (a, e) ↦ rw e (elim (Option-cases (get_elem? h.agents a)) [
    | inl gone ↦ rw gone
    | inr (c, there) ↦ rw there (ground arith)
  ])
]

pub send-Books :
    (x : String) (server : ℕ) (env : Envelope) (w : WriteOutcome) (h : Hub)
    → let r = send server env w h in Books x (count x (env.id ∷ [])) h r.1 r.0
unfolding send
send-Books x server env w h = elim (Option-cases (lookup server h.conns)) [
  | inl e ↦ rw e (idle-Books x _ h h.shut)
  | inr (a, e) ↦ rw e (send_locked-Books x server a env w h)
]
