-- ===== src/Tests/HubRuns.antt =====
-- Runs of internal/agent_manager: two servers, one of which connects twice.
use dst_go_backend.Base.{
  ℕ, map, ◌++◌, ◌+◌, ◌≤◌, ◌≡◌, refl, String, true, false, Option, none, some, List, [], ◌∷◌, arith,
  pos, count,
}
use dst_go_backend.Protocol
use dst_go_backend.Protocol.{Envelope, CmdPayload, Ack}
use dst_go_backend.AgentManager.Hub.{
  Hub, WriteOutcome, swap_in, send_locked, register, unregister, disconnect, send, finish,
  sent_events, finished,
}
use dst_go_backend.AgentManager.Hub.System.{Section, swaps, closes, sends, step, run}
use dst_go_backend.AgentManager.Hub.Ledger.{
  accepted_count, settled_count, pending_count, run-never_more, run-balanced,
}
use dst_go_backend.AgentManager.Hub.Ownership.{IsOwned, IsHeld, run-IsOwned, pending-IsHeld}
use dst_go_backend.AgentManager.Hub.Operations.{
  at_rest, view, told, fresh_conn, after_finish, after_send, no_error, register_lem, unregister_lem,
  disconnect_lem, send_lem, finish_lem,
}
use dst_go_backend.AgentManager.Service
use dst_go_backend.AgentManager.Service.{Service, new_service}
use dst_go_backend.AgentManager.Service.Reports.{Call, perform_all, tried_ids, outcome_count}
use dst_go_backend.AgentManager.Service.Reports
use dst_go_backend.AgentManager.Service.Reports.Account.{
  perform_all-never_more, perform_all-balanced,
}
use dst_go_backend.AgentManager.Handler.{Decoder, Frame, read_loop}
use dst_go_backend.AgentManager.Handler.Isolation.{Confined, read_loop-Confined}
use dst_go_backend.AgentClient.Executor.{execute}
use dst_go_backend.AgentClient.Client.{Encoder, Reply, Wire, handle_command}
use dst_go_backend.AgentClient.Client.Answers.{Codec, yes_ack, delivered, handle_command-read_loop}
use dst_go_backend.AgentManager.Service.{acked, logged, resulted}
use dst_go_backend.Tests.AgentRuns.{status, stopped}

abbrev start : Hub
start = record { conns = []; agents = []; on_interrupted = true; shut = [] }

start-IsOwned : IsOwned (at_rest start)
start-IsOwned = record {
  current = λ n a h. cc;
  alone = λ n m a h k. cc;
  leaving = λ a n h. cc;
  held = λ a h. cc;
  drained = λ a c h k. cc;
}

abbrev command : String → Envelope
command id = record { id = id; msg_type = "command"; payload = "{}" }

abbrev fine : WriteOutcome
fine = record { deadline_ok = true; write_ok = true }

-- Server 1 connects, is sent a command, and connects again before the old connection is closed.
abbrev takeover : List Section
takeover = swaps 1 100 ∷ sends 1 0 (command "x") fine ∷ swaps 2 200 ∷ swaps 1 101 ∷ closes 0 ∷ []

abbrev half_way : List Section
half_way = swaps 1 100 ∷ sends 1 0 (command "x") fine ∷ swaps 1 101 ∷ []

run-never_more_example :
    settled_count "x" (run takeover (at_rest start)).1
      + pending_count "x" (run takeover (at_rest start)).0.hub.agents
    ≤ accepted_count "x" (run takeover (at_rest start)).1 + pending_count "x" start.agents
run-never_more_example = run-never_more "x" takeover (at_rest start)

run-balanced_example :
    accepted_count "x" (run takeover (at_rest start)).1 + pending_count "x" start.agents
    ≡ settled_count "x" (run takeover (at_rest start)).1
      + pending_count "x" (run takeover (at_rest start)).0.hub.agents
run-balanced_example = run-balanced "x" takeover (at_rest start) refl (omega arith)

run-IsOwned_example : IsOwned (run takeover (at_rest start)).0
run-IsOwned_example = run-IsOwned takeover (at_rest start) start-IsOwned

pending-IsHeld_example : IsHeld 0 (run half_way (at_rest start)).0
unfolding run step swap_in send_locked
pending-IsHeld_example =
    pending-IsHeld half_way (at_rest start) 0
      (record { conn = 100; pending = "x" ∷ []; closed = false }) "x" start-IsOwned refl refl

-- Server 1 is connected, with a command pending.
abbrev busy : Hub
busy = record {
  conns = (1, 0) ∷ [];
  agents = record { conn = 100; pending = "x" ∷ []; closed = false } ∷ [];
  on_interrupted = true;
  shut = [];
}

abbrev busy_schedule : List Section
busy_schedule = swaps 1 100 ∷ sends 1 0 (command "x") fine ∷ []

busy-IsOwned : IsOwned (at_rest busy)
unfolding run step swap_in send_locked
busy-IsOwned = run-IsOwned busy_schedule (at_rest start) start-IsOwned

register_lem_example :
    (view 1 (register 1 101 busy).0 ≡ some (fresh_conn 101))
    × ((register 1 101 busy).1 ≡ told busy 1 (view 1 busy))
register_lem_example = register_lem 1 101 1 busy busy-IsOwned

unregister_lem_example :
    (view 1 (unregister 1 99 busy).0 ≡ view 1 busy) × ((unregister 1 99 busy).1 ≡ [])
unregister_lem_example = unregister_lem 1 99 1 busy busy-IsOwned

disconnect_lem_example :
    (view 1 (disconnect 1 busy).0 ≡ none) × ((disconnect 1 busy).1 ≡ told busy 1 (view 1 busy))
disconnect_lem_example = disconnect_lem 1 1 busy busy-IsOwned

send_lem_example :
    (no_error (send 1 (command "y") fine busy).2 ≡ true)
    × ((send 1 (command "y") fine busy).1 ≡ sent_events 1 (command "y"))
    × (view 1 (send 1 (command "y") fine busy).0 ≡ after_send (command "y") fine (view 1 busy))
send_lem_example = send_lem 1 1 (command "y") fine busy busy-IsOwned

finish_lem_example :
    ((finish 1 "x" busy).2 ≡ true)
    × ((finish 1 "x" busy).1 ≡ finished 1 "x" ∷ [])
    × (view 1 (finish 1 "x" busy).0 ≡ after_finish "x" (view 1 busy))
finish_lem_example = finish_lem 1 1 "x" busy busy-IsOwned

abbrev marshal : CmdPayload → Option String
marshal p = some p.action

abbrev service : Service
service = record {
  hub = start;
  on_ack = true;
  on_log = true;
  on_result = true;
  on_interrupted = true;
}

abbrev deployed : Protocol.Result
deployed = record { action = "deploy"; slot = pos 0; success = true; exit_code = pos 0; error = "" }

-- A command is issued, its result arrives twice, and the agent leaves.
abbrev calls : List Call
calls =
    Reports.connects 1 100
    ∷ Reports.sends 1 "x" Service.deploy fine
    ∷ Reports.results 1 "x" deployed
    ∷ Reports.results 1 "x" deployed
    ∷ Reports.leaves 1 100
    ∷ []

perform_all-never_more_example :
    outcome_count "x" (perform_all marshal calls service).1
      + pending_count "x" (perform_all marshal calls service).0.hub.agents
    ≤ count "x" (perform_all marshal calls service).2 + pending_count "x" service.hub.agents
perform_all-never_more_example = perform_all-never_more marshal "x" calls service

perform_all-balanced_example :
    count "x" (perform_all marshal calls service).2 + pending_count "x" service.hub.agents
    ≡ outcome_count "x" (perform_all marshal calls service).1
      + pending_count "x" (perform_all marshal calls service).0.hub.agents
perform_all-balanced_example =
    perform_all-balanced marshal "x" calls service
      (record { hub = refl; ack = refl; result = refl; interrupted = refl }) (omega arith)

abbrev decoder : Decoder
decoder = record {
  ack = λ text. some (record { accepted = false; reason = text });
  log = λ text. none;
  result = λ text. some deployed;
}

abbrev frames : List Frame
frames =
    record { env = record { id = "x"; msg_type = "result"; payload = "" }; deadline_ok = true } ∷ []

read_loop-Confined_example :
    let r = read_loop decoder 1 frames (record service { hub = busy }) in
    Confined 1 (record service { hub = busy }) r.1 r.0
read_loop-Confined_example =
    read_loop-Confined decoder 1 frames (record service { hub = busy }) busy-IsOwned

-- JSON of the three messages that answer the command `status` with the run `stopped`.
abbrev encode : Encoder
encode = record {
  ack = λ a. some "accepted";
  log = λ l. some l.content;
  result = λ r. some "answer";
}

abbrev decode : Decoder
decode = record {
  ack = λ text. some yes_ack;
  log = λ text. some (record { content = text });
  result = λ text. some (execute false status stopped).0;
}

answers : Codec encode decode (execute false status stopped).0
answers = record {
  ack_text = "accepted";
  log_text = λ l. l.content;
  result_text = "answer";
  ack_out = refl;
  log_out = λ l. refl;
  result_out = refl;
  ack_in = refl;
  log_in = λ l. refl;
  result_in = refl;
}

abbrev all_fine : ℕ → Reply
all_fine n = record { deadline_ok = true; write_ok = true }

abbrev silent : Wire
silent = record { tried = 0; written = []; closes = 0 }

handle_command-read_loop_example :
    let ran = execute false status stopped in
    (read_loop decode 1
      (map delivered (handle_command all_fine encode "x" status false stopped silent).written)
      (record service { hub = busy })).1
    ≡ acked 1 "x" yes_ack
      ∷ (map (λ line. logged 1 "x" (record { content = line })) ran.1 ++ resulted 1 "x" ran.0 ∷ [])
handle_command-read_loop_example =
    handle_command-read_loop encode decode false status stopped answers all_fine 1 "x" silent
      (record service { hub = busy }) (λ n. refl) refl refl refl refl busy-IsOwned refl
