-- ===== src/AgentClient/Client.antt =====
-- internal/agent_client/client.go: what the agent answers on its connection. The answers of the
-- connection to the writes are an argument, a function of the number of writes tried before, and
-- so are the JSON encoders. The dialling and its retries are not modelled.
pub mod Answers
use dst_go_backend.Base.{
  ℕ, zero, suc, String, Bool, true, false, ◌&&◌, ◌⊎◌, inl, inr, Option, none, some, List, [], ◌∷◌,
  ◌++◌, str_eq, if◌then◌else◌,
}
use dst_go_backend.Apperr.{Error, other, Result, ok, err}
use dst_go_backend.Act.{Act, pure, throw, ◌>>=◌, ◌>>◌, throw_if, need, attempt}
use dst_go_backend.Protocol
use dst_go_backend.Protocol.{Envelope, CmdPayload, Log, Ack}
use dst_go_backend.Protocol.MsgType
use dst_go_backend.AgentClient.Executor.{Process, execute}

-- What the connection answers to `SetWriteDeadline` and to `WriteJSON` in one call of `send`.
pub record Reply : Type 0 where
  pub deadline_ok : Bool
  pub write_ok : Bool

-- The connection: the writes tried, the messages that went out, the `conn.Close()` calls.
pub record Wire : Type 0 where
  pub tried : ℕ
  pub written : List Envelope
  pub closes : ℕ

pub record Encoder : Type 0 where
  pub ack : Ack → Option String
  pub log : Log → Option String
  pub result : Protocol.Result → Option String

abbrev pub close : Act Wire (Unit {0})
close w = (ok tt, record w { closes = suc w.closes })

module _ (replies : ℕ → Reply) where
  -- `SetWriteDeadline` and `WriteJSON`.
  abbrev pub write : Envelope → Act Wire (Unit {0})
  write env w =
      if (replies w.tried).deadline_ok && (replies w.tried).write_ok
      then (ok tt, record w { tried = suc w.tried; written = w.written ++ env ∷ [] })
      else (err (other "websocket"), record w { tried = suc w.tried })

  -- `send`; no payload is nil, and a payload that is not encoded is an error of `json.Marshal`.
  unfoldable pub send : String → String → Option (Option String) → Act Wire (Unit {0})
  send id msg_type none = write (record { id = id; msg_type = msg_type; payload = "" })
  send id msg_type (some encoded) = do
    text ← need encoded (other "消息序列化失败")
    write (record { id = id; msg_type = msg_type; payload = text })

  -- `heartbeatLoop` with that many ticks before the context is done.
  unfoldable pub heartbeat_loop : ℕ → Act Wire (Unit {0})
  unfolding send
  heartbeat_loop zero w = throw (other "context canceled") w
  heartbeat_loop (suc ticks) w = (send "" MsgType.ping none >> heartbeat_loop ticks) w

  module _ (encode : Encoder) where
    unfoldable pub send_ack : String → Ack → Act Wire (Unit {0})
    unfolding send
    send_ack id a = send id MsgType.ack (some (encode.ack a))

    unfoldable pub send_log : String → String → Act Wire (Unit {0})
    unfolding send
    send_log id line = send id MsgType.log (some (encode.log (record { content = line })))

    unfoldable pub send_result : String → Protocol.Result → Act Wire (Unit {0})
    unfolding send
    send_result id r = send id MsgType.result (some (encode.result r))

    -- The callback of `Execute`, called with each line; only the first failure closes.
    unfoldable pub send_lines : String → Bool → List String → Wire → Wire
    unfolding send_log
    send_lines id reported [] w = w
    send_lines id reported (line ∷ lines) w =
        let r = send_log id line w in
        elim r.0 [
          | ok done ↦ send_lines id reported lines r.1
          | err e ↦ send_lines id true lines (if reported then r.1 else (close r.1).1)
        ]

    -- A failure of the write closes the connection.
    abbrev pub or_close : Act Wire (Unit {0}) → Wire → Wire
    or_close m w = (attempt m (λ e. close) pure w).1

    -- `handleCommand`, in which the command runs whether or not its acknowledgement went out.
    unfoldable pub handle_command : String → CmdPayload → Bool → Process → Wire → Wire
    unfolding send_ack send_lines send_result execute
    handle_command id p busy os w =
        let acked = or_close (send_ack id (record { accepted = true; reason = "" })) w in
        let ran = execute busy p os in
        or_close (send_result id ran.0) (send_lines id false ran.1 acked)

    -- `readLoop` on one message: `inl` is what it sends itself, `inr` the command that it starts.
    unfoldable pub on_message :
        (String → Option CmdPayload) → Envelope → Wire → Wire ⊎ (String × CmdPayload)
    unfolding send_ack
    on_message decode env w =
        if str_eq env.msg_type MsgType.command
        then elim (decode env.payload) [
          | none ↦ inl (send_ack env.id (record { accepted = false; reason = "命令参数解析失败" }) w).1
          | some payload ↦ inr (env.id, payload)
        ]
        else inl w
