-- ===== src/AgentManager/Service/Reports.antt =====
-- The commands of internal/agent_manager/service.go from the caller's side: what is issued, and
-- what is reported of it.
pub mod Parts
pub mod Account
use dst_go_backend.Base.{
  ℕ, ◌+◌, ◌≤◌, ◌≡◌, refl, ◌∙◌, String, Bool, true, false, not, none, some, List, [], ◌∷◌, ◌++◌,
  arith, count, count-append, map, str_eq, inl, inr, lookup, Option-cases, Bool-cases, Option,
  if◌then◌else◌, get_elem?, append-nil,
}
use dst_go_backend.Protocol.{CmdPayload, Ack, Log}
use dst_go_backend.Protocol
use dst_go_backend.AgentManager.Hub.{
  Hub, Event, accepted, finished, interrupted, notify, close_agent, close_found, register,
  unregister, disconnect, send, finish, WriteOutcome,
}
use dst_go_backend.AgentManager.Hub.Ledger.{
  one_if, accepted_count, settled_count, pending_count, Books, Books-trans, idle-Books,
  close_agent-Books, swap_in-Books, take_out-Books, take_out_conn-Books, send_locked-Books,
  finish_locked-Books,
}
use dst_go_backend.AgentManager.Service.{
  Service, Report, acked, logged, resulted, lost, relay, send_command, handle_ack, handle_log,
  handle_result, SendFailure,
}

-- What happens to the service: the operations, with the answers of the connections.
pub data Call : Type 0 where
  sends : ℕ → String → CmdPayload → WriteOutcome → Call
  acks : ℕ → String → Ack → Call
  logs : ℕ → String → Log → Call
  results : ℕ → String → Protocol.Result → Call
  connects leaves : ℕ → ℕ → Call
  disconnects : ℕ → Call

abbrev pub issued : String → Option SendFailure → List String
issued id none = id ∷ []
issued id (some e) = []

-- A change of the Hub, the reports that it makes, and no id issued.
abbrev pub hub_change : Service → Hub × List Event → Service × List Report × List String
hub_change s r = (record s { hub = r.0 }, relay s.on_interrupted r.1, [])

module _ (marshal : CmdPayload → Option String) where
  unfoldable pub perform : Call → Service → Service × List Report × List String
  perform (sends server id payload w) s =
      let r = send_command marshal server id payload w s in (r.0, [], issued id r.1)
  perform (acks server id ack) s = let r = handle_ack server id ack s in (r.0, r.1, [])
  perform (logs server id line) s = let r = handle_log server id line s in (r.0, r.1, [])
  perform (results server id res) s = let r = handle_result server id res s in (r.0, r.1, [])
  perform (connects server conn) s = hub_change s (register server conn s.hub)
  perform (leaves server conn) s = hub_change s (unregister server conn s.hub)
  perform (disconnects server) s = hub_change s (disconnect server s.hub)

  unfoldable pub perform_all : List Call → Service → Service × List Report × List String
  perform_all [] s = (s, [], [])
  perform_all (c ∷ cs) s =
      let r = perform c s in let q = perform_all cs r.0 in (q.0, r.1 ++ q.1, r.2 ++ q.2)

abbrev pub tried : Call → List String
tried (sends server id payload w) = id ∷ []
tried _ = []

-- The ids drawn for the commands of the calls.
abbrev pub tried_ids : List Call → List String
tried_ids [] = []
tried_ids (c ∷ cs) = tried c ++ tried_ids cs

-- How often the reports end the command `x`: by a result, a refusal, or a lost connection.
abbrev pub outcome_count : String → List Report → ℕ
outcome_count x [] = 0
outcome_count x (acked server id ack ∷ rs) =
    (if ack.accepted then 0 else one_if (str_eq id x)) + outcome_count x rs
outcome_count x (logged server id line ∷ rs) = outcome_count x rs
outcome_count x (resulted server id res ∷ rs) = one_if (str_eq id x) + outcome_count x rs
outcome_count x (lost server id reason ∷ rs) = one_if (str_eq id x) + outcome_count x rs

pub outcome_count-append :
    (x : String) (rs qs : List Report)
    → outcome_count x (rs ++ qs) ≡ outcome_count x rs + outcome_count x qs
outcome_count-append x [] qs = omega arith
outcome_count-append x (acked n id ack ∷ rs) qs = omega (arith, outcome_count-append x rs qs)
outcome_count-append x (logged n id line ∷ rs) qs = outcome_count-append x rs qs
outcome_count-append x (resulted n id res ∷ rs) qs = omega (arith, outcome_count-append x rs qs)
outcome_count-append x (lost n id reason ∷ rs) qs = omega (arith, outcome_count-append x rs qs)

-- Events that are interruptions only are relayed one for one.
pub IsNotice : List Event → Type 0
IsNotice es = (b : Bool) × (server : ℕ) × (ids : List String) × (es ≡ notify b server ids)

close_found-IsNotice : (server : ℕ) (a : Option ℕ) (h : Hub) → IsNotice (close_found server a h).1
unfolding IsNotice close_agent
close_found-IsNotice server none h = (false, server, [], refl)
close_found-IsNotice server (some a) h = elim (Option-cases (get_elem? h.agents a)) [
  | inl e ↦ rw e (false, server, [], refl)
  | inr (c, e) ↦ rw e (h.on_interrupted, server, c.pending, refl)
]

relay-notify :
    (x : String) (set : Bool) (server : ℕ) (ids : List String)
    → outcome_count x (relay set (map (interrupted server) ids))
      ≡ (if set then settled_count x (map (interrupted server) ids) else 0)
unfolding relay
relay-notify x set server [] = ground arith
relay-notify x set server (id ∷ ids) = ground (arith, relay-notify x set server ids)

relay-IsNotice :
    (x : String) (set : Bool) (es : List Event)
    → IsNotice es
    → outcome_count x (relay set es) ≡ (if set then settled_count x es else 0)
unfolding IsNotice relay
relay-IsNotice x set es (true, server, ids, e) = rw e (relay-notify x set server ids)
relay-IsNotice x set es (false, server, ids, e) = rw e (ground arith)

accepted-IsNotice : (x : String) (es : List Event) → IsNotice es → accepted_count x es ≡ 0
unfolding IsNotice
accepted-IsNotice x es (false, server, ids, e) = rw e
accepted-IsNotice x es (true, server, ids, e) = rw e (no_accepted server ids)
  where
    no_accepted : (n : ℕ) (js : List String) → accepted_count x (map (interrupted n) js) ≡ 0
    no_accepted n [] = refl
    no_accepted n (j ∷ js) = no_accepted n js

close_found-Books :
    (x : String) (server : ℕ) (a : Option ℕ) (h : Hub)
    → let r = close_found server a h in Books x 0 h r.1 r.0
close_found-Books x server none h = idle-Books x 0 h h.shut
close_found-Books x server (some a) h = close_agent-Books x server a h
