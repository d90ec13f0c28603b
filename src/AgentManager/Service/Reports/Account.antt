-- ===== src/AgentManager/Service/Reports/Account.antt =====
-- The account of each command over any calls of the service.
use dst_go_backend.AgentManager.Service.Reports.Parts.{
  AllSet, Account, hub-Account, register-Account, unregister-Account, disconnect-Account,
  same-Account, ack-Account, result-Account, send-events, send-Books,
}
use dst_go_backend.Base.{
  ℕ, ◌+◌, ◌≤◌, ◌≡◌, refl, String, List, [], ◌∷◌, arith, count, count-append, inl, inr, Option-cases,
  Option,
}
use dst_go_backend.Protocol.{CmdPayload, Envelope}
use dst_go_backend.AgentManager.Hub.{WriteOutcome}
use dst_go_backend.AgentManager.Hub.Ledger.{pending_count}
use dst_go_backend.Protocol.MsgType
use dst_go_backend.AgentManager.Service.{Service, send_command, handle_log}
use dst_go_backend.AgentManager.Service.Reports.{
  Call, sends, acks, logs, results, connects, leaves, disconnects, issued, perform, perform_all,
  tried, tried_ids, outcome_count, outcome_count-append,
}

module _ (marshal : CmdPayload → Option String) where
  send_command-Account :
      (x : String) (server : ℕ) (id : String) (payload : CmdPayload) (w : WriteOutcome)
      (s : Service)
      → let r = send_command marshal server id payload w s in
        Account x (count x (id ∷ [])) s [] (issued id r.1) r.0
  unfolding send_command
  send_command-Account x server id payload w s = elim (Option-cases (marshal payload)) [
    | inl e ↦ rw (e, send_command) (same-Account x _ s [] refl)
    | inr (text, e) ↦
        let env : Envelope = record { id = id; msg_type = MsgType.command; payload = text } in
        let told = send-events server env w s.hub refl in
        rw (e, send_command)
          (hub-Account x _ s _ _ [] _ (send-Books x server env w s.hub) (omega arith)
            (λ a. ground (arith, told)) (ground (arith, told)))
  ]

  perform-Account :
      (x : String) (c : Call) (s : Service)
      → let r = perform marshal c s in Account x (count x (tried c)) s r.1 r.2 r.0
  unfolding perform handle_log
  perform-Account x (sends server id payload w) s = send_command-Account x server id payload w s
  perform-Account x (acks server id ack) s = ack-Account x server id ack s
  perform-Account x (logs server id line) s = same-Account x 0 s _ (ground arith)
  perform-Account x (results server id res) s = result-Account x server id res s
  perform-Account x (connects server conn) s = register-Account x server conn s
  perform-Account x (leaves server conn) s = unregister-Account x server conn s
  perform-Account x (disconnects server) s = disconnect-Account x server s

  -- Over any calls, whatever the connections and the agents answer: a command has at most as many
  -- ends reported as it was issued without error, those still to come counted too.
  pub perform_all-never_more :
      (x : String) (cs : List Call) (s : Service)
      → let r = perform_all marshal cs s in
        outcome_count x r.1 + pending_count x r.0.hub.agents
        ≤ count x r.2 + pending_count x s.hub.agents
  unfolding perform_all
  perform_all-never_more x [] s = omega arith
  perform_all-never_more x (c ∷ cs) s =
      let r = perform marshal c s in
      let q = perform_all marshal cs r.0 in
      omega (
        arith,
        (perform-Account x c s).never_more,
        perform_all-never_more x cs r.0,
        outcome_count-append x r.1 q.1,
        count-append x r.2 q.2,
      )

  -- With all callbacks set, for an id that is pending and drawn at most once in all: a command
  -- that was issued without error, or was pending at the start, is pending at the end, or had
  -- exactly one end reported, which is its result, its refusal, or its loss.
  pub perform_all-balanced :
      (x : String) (cs : List Call) (s : Service)
      → AllSet s
      → pending_count x s.hub.agents + count x (tried_ids cs) ≤ 1
      → let r = perform_all marshal cs s in
        count x r.2 + pending_count x s.hub.agents
        ≡ outcome_count x r.1 + pending_count x r.0.hub.agents
  unfolding perform_all
  perform_all-balanced x [] s set once = refl
  perform_all-balanced x (c ∷ cs) s set once =
      let r = perform marshal c s in
      let q = perform_all marshal cs r.0 in
      let a = perform-Account x c s in
      let split = count-append x (tried c) (tried_ids cs) in
      omega (
        arith,
        a.balanced set (omega (arith, split)),
        a.grows,
        perform_all-balanced x cs r.0 (a.keeps set) (omega (arith, split, a.grows)),
        outcome_count-append x r.1 q.1,
        count-append x r.2 q.2,
      )
