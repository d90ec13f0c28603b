-- ===== src/AgentClient/Command.antt =====
-- cmd/agent/main.go, and `Load` of internal/agent_client/config.go.
use dst_go_backend.Base.{
  ℕ, ◌+◌, ◌<◌, ◌≤◌, ◌≡◌, true, arith, String, Bool, false, str_eq, Option, none, some,
  if◌then◌else◌,
}
use dst_go_backend.Apperr.{Error, is_ok, other, Result, ok, err, or_fail, ◌>>◌}
use dst_go_backend.Settings.{Viper, source}
use dst_go_backend.AgentClient.Identity.{Files}
use dst_go_backend.AgentClient.Connection.{Config, Network, Agent, new_client, start, start_token}
use dst_go_backend.AgentClient.Connection.Ends.{IsPrompt}
use dst_go_backend.AgentClient.Connection.Reconnects.{idle, start-Returns}

unfoldable pub load : Viper Config → String → Result Config
load v config_path = do
  or_fail (other "配置文件读取失败") (v.read_in_config (source config_path))
  or_fail (other "配置文件解析失败") (v.unmarshal (source config_path))

-- `errors.Is(err, context.Canceled)`.
abbrev is_canceled : Error → Bool
is_canceled (other text) = str_eq text "context canceled"
is_canceled _ = false

abbrev exit_status : Option (Error × Agent) → Option ℕ
exit_status none = none
exit_status (some (e, w)) = some (if is_canceled e then 0 else 1)

module _ (files : Files) where
  abbrev run_agent :
      Result Config → Option ℕ → ℕ → (ℕ → Network) → String → files.State → Agent → Option ℕ
  run_agent (err e) cancelled fuel networks token s w = some 1
  run_agent (ok cfg) cancelled fuel networks token s w =
      exit_status
        (start files (new_client cfg.server cfg.identity cfg.executor) cancelled fuel networks token
          s w).0

  -- `main`: the status that the agent exits with, if it ends. A signal is the cancellation.
  unfoldable pub main :
      Viper Config → String → Option ℕ → ℕ → (ℕ → Network) → String → files.State → Agent → Option ℕ
  unfolding load start
  main v config_path cancelled fuel networks token s w =
      run_agent (load v config_path) cancelled fuel networks token s w

  -- With settings, a positive reconnect interval, a slack as `start-Returns` asks for and a token that
  -- it could read or save, the agent ends with status 0 when a signal comes, whatever else the
  -- network did before.
  main-exits :
      (v : Viper Config) (config_path : String) (cfg : Config) (t begun fuel : ℕ)
      (networks : ℕ → Network) (token : String) (s : files.State)
      → load v config_path ≡ ok cfg
      → (slack : ℕ) → ((k : ℕ) → IsPrompt slack (networks k))
      → slack < cfg.server.heartbeat_interval
      → 0 < cfg.server.reconnect_interval
      → begun ≤ t
      → t + slack < fuel + begun
      → is_ok (start_token files cfg.identity.path token s).0 ≡ true
      → main v config_path (some t) fuel networks token s (idle begun) ≡ some 0
  unfolding main
  main-exits v config_path cfg t begun fuel networks token s loaded slack prompt beats waits early
        enough read =
      let c = new_client cfg.server cfg.identity cfg.executor in
      let (e, w, ended, left, why) =
        start-Returns files c t begun fuel networks token s slack prompt beats waits early enough in
      rw loaded (rw ended (ground (arith, read, why)))
