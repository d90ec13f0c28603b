-- ===== src/Tests/AgentRuns.antt =====
-- Runs of internal/agent_client and of the bearer header of internal/agent_manager/handler.go.
use Prim.Native.String.{◌++◌ as join}
use dst_go_backend.Base.{◌≡◌, refl, String, true, false, none, [], ◌∷◌, pos}
use dst_go_backend.Apperr.{ok}
use dst_go_backend.Strings.{is_empty, is_space, trim_space, cut_prefix}
use dst_go_backend.Protocol.{CmdPayload}
use dst_go_backend.AgentManager.Auth.{parse_bearer_token}
use dst_go_backend.AgentManager.Handler.Bearer.{
  parse_bearer_token-trimmed, parse_bearer_token-round_trip,
}
use dst_go_backend.AgentClient.Executor.{Process, Output, exited, execute}
use dst_go_backend.AgentClient.Executor.Outcome.{IsResultOf, execute-IsResultOf}
use dst_go_backend.AgentClient.Identity.{
  Files, FileLaws, save_token, load_token, save_token-load_token,
}

abbrev bearer : String
bearer = "Bearer abc "

parse_bearer_token-trimmed_example :
    (is_empty "abc" ≡ false)
    × (trim_space "abc" ≡ "abc")
    × (rest : String) × (trim_space bearer ≡ join "Bearer " rest)
    × ("abc" ≡ trim_space rest)
unfolding parse_bearer_token trim_space is_space cut_prefix
parse_bearer_token-trimmed_example = parse_bearer_token-trimmed bearer "abc" refl

parse_bearer_token-round_trip_example :
    parse_bearer_token (join "Bearer " (trim_space " abc ")) ≡ ok (trim_space " abc ")
unfolding trim_space is_space
parse_bearer_token-round_trip_example = parse_bearer_token-round_trip " abc " refl

abbrev quiet : Output
quiet = record { lines = "line" ∷ []; failure = none }

-- A slot that is stopped: the script exits with 2.
abbrev pub stopped : Process
stopped = record {
  stdout_error = none;
  stderr_error = none;
  start_error = none;
  stdout = quiet;
  stderr = quiet;
  from_stderr = true ∷ [];
  exit = exited (pos 2);
  context_error = none;
}

abbrev pub status : CmdPayload
status = record { action = "status"; slot = pos 3; cluster_token = "" }

execute-IsResultOf_example : IsResultOf false status stopped (execute false status stopped).0
execute-IsResultOf_example = execute-IsResultOf false status stopped

-- A file system of one file.
abbrev pub one_file : Files
one_file = record {
  State = String;
  dir = λ path. path;
  read_file = λ path s. (ok s, s);
  mkdir_all = λ path s. (ok tt, s);
  write_file = λ path text s. (ok tt, text);
}

one_file-FileLaws : FileLaws one_file
one_file-FileLaws = record { written = λ path text s s' h. cc }

save_token-load_token_example : (load_token one_file "p" "abc").0 ≡ ok (trim_space " abc ")
unfolding save_token trim_space is_space
save_token-load_token_example =
    save_token-load_token one_file one_file-FileLaws "p" " abc " "" "abc" refl
