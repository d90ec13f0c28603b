-- ===== src/Bootstrap/Wiring.antt =====
-- What `Run` of internal/bootstrap/app.go puts together of its settings before it listens: the
-- managers, the handlers and the router over the third-party parts, and the agent service with its
-- callbacks, which write the log.
use dst_go_backend.Base.{String, Bool, true, false, refl, List, [], ◌∷◌, format_uint, itoa}
use dst_go_backend.Settings.{Config}
use dst_go_backend.Platform.Logger.{Level}
use dst_go_backend.Service.World.{Env}
use dst_go_backend.Http.{Handler}
use dst_go_backend.Http.Users
use dst_go_backend.Http.Router.{Route, respond_to}
use dst_go_backend.AgentManager.Hub.{Hub}
use dst_go_backend.AgentManager.Service.Reports.Parts.{AllSet}
use dst_go_backend.AgentManager.Service.{
  Service, Report, acked, logged, resulted, lost, new_service,
}

-- The captcha and the token manager have their settings.
abbrev pub panel_env : Config → Env → Env
panel_env cfg e = record e {
  jwt_config = record {
    access_secret = cfg.jwt.access_secret;
    access_expire = cfg.jwt.access_expire;
    refresh_secret = cfg.jwt.refresh_secret;
    refresh_expire = cfg.jwt.refresh_expire;
    agent_secret = cfg.jwt.agent_secret;
    issuer = cfg.jwt.issuer;
  };
  captcha_config = record {
    expire = cfg.captcha.expire;
    img_width = cfg.captcha.img_width;
    img_height = cfg.captcha.img_height;
    length = cfg.captcha.length;
    max_skew = cfg.captcha.max_skew;
    dot_count = cfg.captcha.dot_count;
  };
}

abbrev pub auth_handler : Config → Users.Config
auth_handler cfg = record {
  refresh_expire = cfg.jwt.refresh_expire;
  cookie_secure = cfg.server.cookie_secure;
}

-- `InitRouter` with the settings.
unfoldable pub engine : (cfg : Config) (e : Env) → Route → Handler (panel_env cfg e)
engine cfg e = respond_to (panel_env cfg e) (auth_handler cfg) cfg.server.allowed_origins

-- The service of the agents, with all four callbacks set.
abbrev pub agent_service : Hub → Service
agent_service hub = record (new_service hub) {
  on_ack = true;
  on_log = true;
  on_result = true;
  on_interrupted = true;
}

-- The theorems on a service with all callbacks set are about this one.
agent_service-AllSet : (hub : Hub) → AllSet (agent_service hub)
unfolding new_service
agent_service-AllSet hub = record { hub = refl; ack = refl; result = refl; interrupted = refl }

abbrev bool_text : Bool → String
bool_text true = "true"
bool_text false = "false"

-- What the callbacks write of a report.
unfoldable pub report_line : Report → Level × String × List (String × String)
report_line (acked server id ack) = (
  Level.info,
  "agent 命令确认",
  ("serverID", format_uint server)
      ∷ ("commandID", id)
      ∷ ("accepted", bool_text ack.accepted)
      ∷ ("reason", ack.reason)
      ∷ [],
)
report_line (logged server id line) = (
  Level.info,
  "agent 执行日志",
  ("serverID", format_uint server) ∷ ("commandID", id) ∷ ("content", line.content) ∷ [],
)
report_line (resulted server id res) = (
  Level.info,
  "agent 执行结果",
  ("serverID", format_uint server)
      ∷ ("commandID", id)
      ∷ ("success", bool_text res.success)
      ∷ ("exitCode", itoa res.exit_code)
      ∷ ("error", res.error)
      ∷ [],
)
report_line (lost server id reason) = (
  Level.warn,
  "agent 命令结果未知",
  ("serverID", format_uint server) ∷ ("commandID", id) ∷ ("reason", reason) ∷ [],
)
