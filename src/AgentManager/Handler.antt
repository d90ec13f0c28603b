-- ===== src/AgentManager/Handler.antt =====
-- internal/agent_manager/handler.go: the websocket endpoint of the agents. What the connection
-- delivers is a list of frames; at its end the next read fails, which ends the loop. The JSON
-- decoders of the payloads are arguments.
pub mod Isolation
pub mod Bearer
use dst_go_backend.Base.{
  ℕ, String, Bool, true, false, not, Option, none, some, List, [], ◌∷◌, ◌++◌, str_eq, if◌then◌else◌,
}
use dst_go_backend.Apperr.{Error, biz, Result, ok, err}
use dst_go_backend.Protocol.MsgType
use dst_go_backend.Protocol.{Envelope, Ack, Log}
use dst_go_backend.Protocol
use dst_go_backend.AgentManager.Hub.{Hub, register, unregister}
use dst_go_backend.AgentManager.Auth.{authenticate, check_server, parse_bearer_token}
use dst_go_backend.AgentManager.Service.{
  Service, Report, relay, handle_ack, handle_log, handle_result,
}

pub record Decoder : Type 0 where
  pub ack : String → Option Ack
  pub log : String → Option Log
  pub result : String → Option Protocol.Result

-- A message that `ReadJSON` returned, and whether the read deadline could be set again.
pub record Frame : Type 0 where
  pub env : Envelope
  pub deadline_ok : Bool

-- What the switch does with a message: the loop goes on, or `none`, returns.
module _ (decode : Decoder) (server : ℕ) where
  unfoldable pub dispatch : Envelope → Service → Option (Service × List Report)
  dispatch env s =
      if str_eq env.msg_type MsgType.ping
      then some (s, [])
      else if str_eq env.msg_type MsgType.ack
      then elim (decode.ack env.payload) [
        | none ↦ none
        | some ack ↦ some (handle_ack server env.id ack s)
      ]
      else if str_eq env.msg_type MsgType.log
      then elim (decode.log env.payload) [
        | none ↦ none
        | some l ↦ some (handle_log server env.id l s)
      ]
      else if str_eq env.msg_type MsgType.result
      then elim (decode.result env.payload) [
        | none ↦ none
        | some res ↦ some (handle_result server env.id res s)
      ]
      else some (s, [])

  unfoldable pub read_loop : List Frame → Service → Service × List Report
  read_loop [] s = (s, [])
  read_loop (f ∷ frames) s = elim f.deadline_ok [
    | false ↦ (s, [])
    | true ↦ elim (dispatch f.env s) [
      | none ↦ (s, [])
      | some (s', rs) ↦ let (s'', rs') = read_loop frames s' in (s'', rs ++ rs')
    ]
  ]

-- One connection attempt: the header, what the upgrade and the first deadline answer, the name of
-- the connection and the frames that it delivers.
pub record Attempt : Type 0 where
  pub authorization : String
  pub upgraded : Bool
  pub deadline_ok : Bool
  pub conn : ℕ
  pub frames : List Frame

-- How a request ends: refused with a status and a text, or served until the connection ended.
pub data Outcome : Type 0 where
  refused : ℕ → String → Outcome
  dropped : Outcome
  unauthorized : Outcome
  served : Outcome

-- The status that `result.Fail` answers with.
abbrev pub fail : Error → Outcome
fail (biz code msg) = refused code msg
fail _ = refused 500 "服务器内部错误"

-- The deferred `conn.Close()`.
abbrev pub close_conn : ℕ → Service → Service
close_conn conn s = record s { hub = record s.hub { shut = s.hub.shut ++ conn ∷ [] } }

-- The server store is asked twice, and may have changed in between.
module _ (decode : Decoder) (parse_agent_token : String → Result ℕ)
    (exists_before exists_after : ℕ → Result Bool) where
  -- From `Register` on: the deferred `Unregister` runs at the end.
  unfoldable pub serve_conn : ℕ → Attempt → Service → Service × List Report × Outcome
  serve_conn server a s =
      let r = register server a.conn s.hub in
      let s₁ : Service = record s { hub = r.0 } in
      let told = relay s.on_interrupted r.1 in
      let leave : Service → Service × List Report = λ t.
        let u = unregister server a.conn t.hub in
        (close_conn a.conn (record t { hub = u.0 }), relay t.on_interrupted u.1) in
      elim (check_server exists_after server) [
        | err e ↦ let (s₂, rs) = leave s₁ in (s₂, told ++ rs, unauthorized)
        | ok done ↦
            let (s₂, rs) = read_loop decode server a.frames s₁ in
            let (s₃, rs') = leave s₂ in (s₃, told ++ rs ++ rs', served)
      ]

  unfoldable pub serve_ws : Attempt → Service → Service × List Report × Outcome
  unfolding serve_conn
  serve_ws a s = elim (parse_bearer_token a.authorization) [
    | err e ↦ (s, [], refused 401 "未授权")
    | ok token ↦ elim (authenticate parse_agent_token exists_before token) [
      | err e ↦ (s, [], fail e)
      | ok server ↦
          if not a.upgraded
          then (s, [], dropped)
          else if not a.deadline_ok
          then (close_conn a.conn s, [], dropped)
          else serve_conn server a s
    ]
  ]
