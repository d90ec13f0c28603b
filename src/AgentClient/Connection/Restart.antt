-- ===== src/AgentClient/Connection/Restart.antt =====
-- The token of an agent across a restart, and at the panel: `Start` of
-- internal/agent_client/client.go with parseBearerToken of internal/agent_manager/handler.go.
use Prim.Native.String.{◌++◌ as join}
use dst_go_backend.Base.{◌≡◌, String, false, arith}
use dst_go_backend.Apperr.{ok}
use dst_go_backend.Act.{pure, continue-eq-ok}
use dst_go_backend.Strings.{is_empty, trim_space}
use dst_go_backend.Strings.Trim.{trim_space_idem}
use dst_go_backend.AgentClient.Identity.{Files, FileLaws, save_token, save_token-load_token}
use dst_go_backend.AgentClient.Connection.{start_token}
use dst_go_backend.AgentManager.Auth.{parse_bearer_token}
use dst_go_backend.AgentManager.Handler.Bearer.{parse_bearer_token-round_trip}

module _ (files : Files) (laws : FileLaws files) where
  -- A token that is not blank, once an agent was started with it, is the token of every later start
  -- without one, and the panel reads it, trimmed, from the header of the agent's dials.
  start_token-restart :
      (path given token : String) (s s' : files.State)
      → is_empty (trim_space given) ≡ false
      → start_token files path given s ≡ (ok token, s')
      → (token ≡ trim_space given)
        × ((start_token files path "" s').0 ≡ ok token)
        × (parse_bearer_token (join "Bearer " token) ≡ ok token)
  unfolding start_token trim_space
  start_token-restart path given token s s' full h =
      let saved = trim_space given in
      let (u, x, done, ended) =
        continue-eq-ok (save_token files path saved s) (λ stored. pure saved) (rw full at h) in
      let named : token ≡ saved = ground (arith, ended) in
      let back = save_token-load_token files laws path saved s x done in
      (
        named,
        ground (arith, ended, back, trim_space_idem given),
        rw named (parse_bearer_token-round_trip given full),
      )
