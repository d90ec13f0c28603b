-- ===== src/Tests/StartRuns.antt =====
-- Runs of `Start` of internal/agent_client/client.go.
use Prim.Native.String.{◌++◌ as join}
use dst_go_backend.Base.{
  ℕ, zero, suc, ◌≡◌, ◌≤◌, true, false, ◌⊎◌, refl, Option, none, some, List, [], ◌∷◌, map, arith,
}
use dst_go_backend.Apperr.{Error, err}
use dst_go_backend.Strings.{is_space, trim_space}
use dst_go_backend.AgentClient.Identity.{save_token}
use dst_go_backend.AgentClient.Connection.{
  Client, Network, Ping, Dial, accepted, refused, Agent, canceled, start, start_token,
}
use dst_go_backend.AgentClient.Connection.Ends.{IsPrompt}
use dst_go_backend.AgentClient.Connection.Reconnects.{
  run, read_token, idle, IsPaced, next_at, start-Returns, start-KeepsDialling,
}
use dst_go_backend.Tests.AgentRuns.{one_file}

abbrev agent : Client
agent = record {
  cfg = record {
    ws_url = "ws://panel";
    heartbeat_interval = 4;
    connect_timeout = 3;
    reconnect_interval = 2;
  };
  identity = record { path = "token" };
  executor = record { script_path = "dst.sh"; exec_timeout = 60_000 };
  token = "";
}

abbrev prompt_ping : ℕ → Ping
prompt_ping k = record { took = 1; fails = false; before_context = true }

-- Three pings, and a fourth one that fails.
abbrev broken_ping : ℕ → Ping
broken_ping zero = prompt_ping 0
broken_ping (suc zero) = prompt_ping 1
broken_ping (suc (suc zero)) = prompt_ping 2
broken_ping (suc (suc (suc k))) = record { took = 1; fails = true; before_context = true }

-- The first dial is refused, the second one meets silence, and later connections fail to be read.
abbrev networks : ℕ → Network
networks zero = record {
  answer = some (1, refused (some 503));
  gives_up = 0;
  read_fails = none;
  ping = prompt_ping;
}
networks (suc zero) = record { answer = none; gives_up = 1; read_fails = none; ping = prompt_ping }
networks (suc (suc n)) = record {
  answer = some (1, accepted);
  gives_up = 1;
  read_fails = some 5;
  ping = broken_ping;
}

broken_ping-le : (k : ℕ) → (broken_ping k).took ≤ 1
broken_ping-le zero = omega arith
broken_ping-le (suc zero) = omega arith
broken_ping-le (suc (suc zero)) = omega arith
broken_ping-le (suc (suc (suc k))) = omega arith

networks-IsPrompt : (k : ℕ) → IsPrompt 1 (networks k)
networks-IsPrompt zero = record { gives_up_le = omega arith; took_le = λ k. omega arith }
networks-IsPrompt (suc zero) = record { gives_up_le = omega arith; took_le = λ k. omega arith }
networks-IsPrompt (suc (suc n)) = record { gives_up_le = omega arith; took_le = broken_ping-le }

start-Returns_example :
    (e : Error) × (w : Agent) × (run one_file agent 20 0 22 networks " abc " "" ≡ some (e, w))
    × (w.open_conns ≡ [])
    × (((read_token one_file agent 20 0 22 networks " abc " "" ≡ err e) × (w ≡ idle 0))
        ⊎ ((e ≡ canceled) × (20 ≤ w.clock) × (w.clock ≤ 21)))
start-Returns_example =
    start-Returns one_file agent 20 0 22 networks " abc " "" 1 networks-IsPrompt (omega arith)
      (omega arith) (omega arith) (omega arith)

start-KeepsDialling_example :
    (w : Agent) × (run one_file agent 20 0 22 networks " abc " "" ≡ some (canceled, w))
    × IsPaced (join "Bearer " "abc") 2 0 w.dials
    × (20 ≤ next_at 2 0 w.dials)
unfolding start_token save_token trim_space is_space
start-KeepsDialling_example =
    start-KeepsDialling one_file agent 20 0 22 networks " abc " "" 1 networks-IsPrompt (omega arith)
      (omega arith) (omega arith) (omega arith) "abc" refl

abbrev dials_of : Option (Error × Agent) → List Dial
dials_of none = []
dials_of (some (e, w)) = w.dials

abbrev dial_times : Option (Error × Agent) → List (ℕ × ℕ)
dial_times none = []
dial_times (some (e, w)) = map (λ (d : Dial). (d.began, d.ended)) w.dials

dials_in_time :
    dial_times (run one_file agent 20 0 22 networks " abc " "")
    ≡ (17, 20) ∷ (9, 15) ∷ (3, 7) ∷ (0, 1) ∷ []
unfolding start trim_space is_space save_token
dials_in_time = refl

-- A context that is never cancelled, and a connection that is never lost: no fuel is enough.
serves_for_ever :
    (start one_file agent none 2
      (λ n. record {
        answer = some (1, accepted);
        gives_up = 0;
        read_fails = none;
        ping = prompt_ping;
      })
      "abc"
      ""
      (idle 0)).0
    ≡ none
unfolding start trim_space is_space save_token
serves_for_ever = refl

-- A ping of the first connection that is being sent as the context ends holds `Start` up.
stalled :
    map
      (λ (d : Dial). d.ended)
      (dials_of
        (start one_file agent
          (some 7)
          12
          (λ n. record {
            answer = some (1, accepted);
            gives_up = 0;
            read_fails = none;
            ping = λ k. record { took = 3; fails = true; before_context = true };
          })
          "abc"
          ""
          (idle 0)).0)
    ≡ 8 ∷ []
unfolding start trim_space is_space save_token
stalled = refl
