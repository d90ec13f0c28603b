-- ===== src/AgentManager/Service.antt =====
-- internal/agent_manager/service.go. The callbacks that a caller may set are flags; a call of one
-- is a `Report`. The command ids, which a third-party package draws, are arguments, and so is the
-- JSON encoder of a payload, which may fail.
pub mod Reports
use dst_go_backend.Base.{
  ℕ, String, Bool, true, false, not, Option, none, some, List, [], ◌∷◌, ◌++◌, ℤ, pos, if◌then◌else◌,
}
use dst_go_backend.Protocol.MsgType
use dst_go_backend.Protocol.Action
use dst_go_backend.Protocol.{Envelope, CmdPayload, Ack, Log}
use dst_go_backend.Protocol
use dst_go_backend.AgentManager.Hub.{
  Hub, Event, accepted, finished, interrupted, SendError, WriteOutcome, send, finish, is_online,
  hub_count,
}

pub record Service : Type 0 where
  pub hub : Hub
  pub on_ack : Bool
  pub on_log : Bool
  pub on_result : Bool
  pub on_interrupted : Bool

pub data Report : Type 0 where
  acked : ℕ → String → Ack → Report
  logged : ℕ → String → Log → Report
  resulted : ℕ → String → Protocol.Result → Report
  lost : ℕ → String → String → Report

abbrev lost_reason : String
lost_reason = "agent 连接中断，结果未知"

-- `NewService` sets the callback of the Hub.
unfoldable pub new_service : Hub → Service
new_service hub = record {
  hub = record hub { on_interrupted = true };
  on_ack = false;
  on_log = false;
  on_result = false;
  on_interrupted = false;
}

-- What that callback does with the interruptions among the events of the Hub.
unfoldable pub relay : Bool → List Event → List Report
relay set [] = []
relay set (interrupted server id ∷ es) =
    let rest = relay set es in if set then lost server id lost_reason ∷ rest else rest
relay set (_ ∷ es) = relay set es

pub data SendFailure : Type 0 where
  not_encoded : SendFailure
  not_sent : SendError → SendFailure

abbrev sent : String → Option SendError → Option SendFailure
sent id none = none
sent id (some e) = some (not_sent e)

module _ (marshal : CmdPayload → Option String) where
  -- `send`: the new state, and the error, if there is one; without error the id is returned.
  unfoldable pub send_command :
      ℕ → String → CmdPayload → WriteOutcome → Service → Service × Option SendFailure
  send_command server id payload w s = elim (marshal payload) [
    | none ↦ (s, some not_encoded)
    | some text ↦
        let r =
          send server (record { id = id; msg_type = MsgType.command; payload = text }) w s.hub in
        (record s { hub = r.0 }, sent id r.2)
  ]

unfoldable pub handle_log : ℕ → String → Log → Service → Service × List Report
handle_log server id line s = (s, if s.on_log then logged server id line ∷ [] else [])

abbrev pub report_ack : ℕ → String → Ack → Service → List Report
report_ack server id ack s = if s.on_ack then acked server id ack ∷ [] else []

unfoldable pub handle_ack : ℕ → String → Ack → Service → Service × List Report
handle_ack server id ack s =
    let r = finish server id s.hub in
    if ack.accepted
    then (s, report_ack server id ack s)
    else if r.2
    then (record s { hub = r.0 }, report_ack server id ack s)
    else (record s { hub = r.0 }, [])

unfoldable pub handle_result : ℕ → String → Protocol.Result → Service → Service × List Report
handle_result server id result s =
    let r = finish server id s.hub in
    (
      record s { hub = r.0 },
      if r.2 then (if s.on_result then resulted server id result ∷ [] else []) else [],
    )

abbrev pub no_slot : ℤ
no_slot = pos 0

-- The payloads of `Deploy`, `Init`, `Start`, `Stop`, `Update`, `Delete` and `Status`.
abbrev pub deploy : CmdPayload
deploy = record { action = Action.deploy; slot = no_slot; cluster_token = "" }

abbrev pub init : ℤ → String → CmdPayload
init slot token = record { action = Action.init; slot = slot; cluster_token = token }

abbrev pub start : ℤ → CmdPayload
start slot = record { action = Action.start; slot = slot; cluster_token = "" }

abbrev pub stop : ℤ → CmdPayload
stop slot = record { action = Action.stop; slot = slot; cluster_token = "" }

abbrev pub update : CmdPayload
update = record { action = Action.update; slot = no_slot; cluster_token = "" }

abbrev pub delete : ℤ → CmdPayload
delete slot = record { action = Action.delete; slot = slot; cluster_token = "" }

abbrev pub status : ℤ → CmdPayload
status slot = record { action = Action.status; slot = slot; cluster_token = "" }
