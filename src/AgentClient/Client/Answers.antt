-- ===== src/AgentClient/Client/Answers.antt =====
-- A command and its answers: `handleCommand` of internal/agent_client/client.go, read by the loop
-- of internal/agent_manager/handler.go.
use dst_go_backend.Base.{
  ℕ, suc, ◌≡◌, refl, ◌∙◌, ap, String, Bool, true, false, Option, some, List, [], ◌∷◌, ◌++◌, map,
  if◌then◌else◌, append_assoc, append-nil, sym,
}
use dst_go_backend.Act.{Act, handle_result as either, pure}
use dst_go_backend.Apperr.{Result, ok}
use dst_go_backend.Protocol
use dst_go_backend.Protocol.{Envelope, CmdPayload, Log, Ack}
use dst_go_backend.Protocol.MsgType
use dst_go_backend.AgentClient.Executor.{Process, execute}
use dst_go_backend.AgentClient.Client.{
  Reply, Wire, Encoder, send, send_ack, send_log, send_result, send_lines, handle_command, or_close,
  close,
}
use dst_go_backend.AgentManager.Hub.{finish}
use dst_go_backend.AgentManager.Hub.Ownership.{IsOwned}
use dst_go_backend.AgentManager.Hub.Operations.{at_rest, view, is_pending, finish_lem}
use dst_go_backend.AgentManager.Service.{
  Service, Report, acked, logged, resulted, handle_ack, handle_log, handle_result,
}
use dst_go_backend.AgentManager.Handler.{Decoder, Frame, dispatch, read_loop}

abbrev pub yes_ack : Ack
yes_ack = record { accepted = true; reason = "" }

-- JSON: what the agent encodes of its answers to a command, the panel decodes.
pub record Codec (encode : Encoder) (decode : Decoder) (answer : Protocol.Result) : Type 0 where
  pub ack_text : String
  pub log_text : Log → String
  pub result_text : String
  pub ack_out : encode.ack yes_ack ≡ some ack_text
  pub log_out : (l : Log) → encode.log l ≡ some (log_text l)
  pub result_out : encode.result answer ≡ some result_text
  pub ack_in : decode.ack ack_text ≡ some yes_ack
  pub log_in : (l : Log) → decode.log (log_text l) ≡ some l
  pub result_in : decode.result result_text ≡ some answer

-- Every write goes out.
abbrev pub AllFine : (ℕ → Reply) → Type 0
AllFine replies = (n : ℕ) → replies n ≡ record { deadline_ok = true; write_ok = true }

-- The messages arrive in order.
abbrev pub delivered : Envelope → Frame
delivered env = record { env = env; deadline_ok = true }

module _ (encode : Encoder) (decode : Decoder) (busy : Bool) (p : CmdPayload) (os : Process)
    (codec : Codec encode decode (execute busy p os).0) where
  abbrev ack_frame : String → Envelope
  ack_frame id = record { id = id; msg_type = MsgType.ack; payload = codec.ack_text }

  abbrev log_frame : String → String → Envelope
  log_frame id line = record {
    id = id;
    msg_type = MsgType.log;
    payload = codec.log_text (record { content = line });
  }

  abbrev result_frame : String → Envelope
  result_frame id = record { id = id; msg_type = MsgType.result; payload = codec.result_text }

  module _ (replies : ℕ → Reply) (fine : AllFine replies) where
    abbrev sent : Wire → Envelope → Wire
    sent w env = record w { tried = suc w.tried; written = w.written ++ env ∷ [] }

    send_fine :
        (id msg_type text : String) (encoded : Option String) (w : Wire)
        → encoded ≡ some text
        → send replies id msg_type (some encoded) w
          ≡ (ok tt, sent w (record { id = id; msg_type = msg_type; payload = text }))
    unfolding send
    send_fine id msg_type text encoded w h = rw (h, fine w.tried) refl

    or_close_fine :
        (m : Act Wire (Unit {0})) (w w' : Wire)
        → m w ≡ (ok tt, w')
        → or_close replies encode m w ≡ w'
    or_close_fine m w w' h =
        ap
          (λ (r : Result (Unit {0}) × Wire).
            (either {B = Unit {0}} r.0 (λ e. close) (λ done. pure done) r.1).1)
          h

    send_lines_lem :
        (id : String) (lines : List String) (w : Wire)
        → (send_lines replies encode id false lines w).written
          ≡ w.written ++ map (log_frame id) lines
    unfolding send_lines send_log
    send_lines_lem id [] w = sym (append-nil w.written)
    send_lines_lem id (line ∷ lines) w =
        let goes : (send_log replies encode id line w) ≡ (ok tt, sent w (log_frame id line)) =
          send_fine id MsgType.log (codec.log_text (record { content = line })) _ w
            (codec.log_out (record { content = line })) in
        rw (send_lines, goes)
          (send_lines_lem id lines (send_log replies encode id line w).1
            ∙ ap (λ (q : Result (Unit {0}) × Wire). q.1.written ++ map (log_frame id) lines) goes
            ∙ append_assoc w.written (log_frame id line ∷ []) (map (log_frame id) lines))

    handle_command-written :
        (id : String) (w : Wire)
        → (handle_command replies encode id p busy os w).written
          ≡ ((w.written ++ ack_frame id ∷ []) ++ map (log_frame id) (execute busy p os).1)
            ++ result_frame id ∷ []
    unfolding handle_command send_ack send_result
    handle_command-written id w =
        let ran = execute busy p os in
        let acked = or_close replies encode (send_ack replies encode id yes_ack) w in
        let told = send_lines replies encode id false ran.1 acked in
        let first : acked ≡ sent w (ack_frame id) =
          or_close_fine (send_ack replies encode id yes_ack) w _
            (send_fine id MsgType.ack _ _ w (codec.ack_out)) in
        ap (λ (q : Wire). q.written)
          (or_close_fine (send_result replies encode id ran.0) told _
            (send_fine id MsgType.result _ _ told (codec.result_out)))
        ∙ ap (λ (l : List Envelope). l ++ result_frame id ∷ [])
            (send_lines_lem id ran.1 acked
              ∙ ap (λ (q : Wire). q.written ++ map (log_frame id) ran.1) first)

  -- The loop on the lines and the result.
  read_loop-tail :
      (server : ℕ) (id : String) (lines : List String) (s : Service)
      → s.on_log ≡ true
      → s.on_result ≡ true
      → (finish server id s.hub).2 ≡ true
      → (read_loop decode server
          (map delivered (map (log_frame id) lines ++ result_frame id ∷ []))
          s).1
        ≡ map (λ line. logged server id (record { content = line })) lines
          ++ resulted server id (execute busy p os).0 ∷ []
  unfolding read_loop dispatch handle_log handle_result
  read_loop-tail server id [] s a b f = rw (codec.result_in) (rw (f, b) refl)
  read_loop-tail server id (line ∷ lines) s a b f = rw (codec.log_in (record { content = line })) (
      ap
        (λ (b : Bool).
          (if b then logged server id (record { content = line }) ∷ [] else [])
          ++ (read_loop decode server
              (map delivered (map (log_frame id) lines ++ result_frame id ∷ [])) s).1)
        a
      ∙ ap (λ (q : List Report). logged server id (record { content = line }) ∷ q)
          (read_loop-tail server id lines s a b f))

  -- With `IsOwned` at the panel, all its callbacks set, and JSON that decodes what it encoded: for
  -- a command that is pending and that the agent handles over a new connection that carries every
  -- message in order, the panel reports the acknowledgement, then the lines of the script in
  -- their order, then the result of the executor, and nothing else.
  pub handle_command-read_loop :
      (replies : ℕ → Reply) (server : ℕ) (id : String) (w : Wire) (s : Service)
      → AllFine replies
      → w.written ≡ []
      → s.on_ack ≡ true
      → s.on_log ≡ true
      → s.on_result ≡ true
      → IsOwned (at_rest s.hub)
      → is_pending id (view server s.hub) ≡ true
      → let ran = execute busy p os in
        (read_loop decode server
          (map delivered (handle_command replies encode id p busy os w).written)
          s).1
        ≡ acked server id (record { accepted = true; reason = "" })
          ∷ (map (λ line. logged server id (record { content = line })) ran.1
              ++ resulted server id ran.0 ∷ [])
  unfolding read_loop dispatch handle_ack
  handle_command-read_loop replies server id w s fine new a b c owned pending =
      let ran = execute busy p os in
      let rest = map (log_frame id) ran.1 ++ result_frame id ∷ [] in
      let out : (handle_command replies encode id p busy os w).written ≡ ack_frame id ∷ rest =
        handle_command-written replies fine id w
        ∙ ap
            (λ (l : List Envelope).
              ((l ++ ack_frame id ∷ []) ++ map (log_frame id) ran.1) ++ result_frame id ∷ [])
            new in
      let done : (finish server id s.hub).2 ≡ true =
        (finish_lem server server id s.hub owned).0 ∙ pending in
      rw (out, codec.ack_in)
        (ap
            (λ (f : Bool).
              (if f then acked server id yes_ack ∷ [] else [])
              ++ (read_loop decode server (map delivered rest) s).1)
            a
          ∙ ap (λ (q : List Report). acked server id yes_ack ∷ q)
              (read_loop-tail server id ran.1 s b c done))
