-- ===== src/AgentClient/Connection/Values.antt =====
-- internal/agent_client/config.go, `Client` of client.go, and what a dial meets: the panel's answer and
-- the ends of the waits. Instants are in milliseconds.

use dst_go_backend.Base.{ℕ, ◌+◌, String, Bool, false, Option, none, some, leb, if◌then◌else◌}
use dst_go_backend.Apperr.{Error, other}

pub record ServerConfig : Type 0 where
  pub ws_url : String
  pub heartbeat_interval : ℕ
  pub connect_timeout : ℕ
  pub reconnect_interval : ℕ

pub record ExecutorConfig : Type 0 where
  pub script_path : String
  pub exec_timeout : ℕ

pub record IdentityConfig : Type 0 where
  pub path : String

pub record Config : Type 0 where
  pub server : ServerConfig
  pub executor : ExecutorConfig
  pub identity : IdentityConfig

-- `Client`, whose lock is the sequence of its writes in AgentClient/Client.
pub record Client : Type 0 where
  pub cfg : ServerConfig
  pub identity : IdentityConfig
  pub executor : ExecutorConfig
  pub token : String

abbrev pub new_client : ServerConfig → IdentityConfig → ExecutorConfig → Client
new_client server_cfg identity_cfg exec = record {
  cfg = server_cfg;
  identity = identity_cfg;
  executor = exec;
  token = "";
}

-- The panel's answer to a handshake; a refusal may come with the status of a response.
pub data Handshake : Type 0 where
  accepted : Handshake
  refused : Option ℕ → Handshake

-- One ping of `heartbeatLoop`: how long its `send` takes, which waits for the lock and then for the
-- write up to its deadline, whether it fails, and whether the `select` before it takes the tick
-- where the context is done too.
pub record Ping : Type 0 where
  pub took : ℕ
  pub fails : Bool
  pub before_context : Bool

-- What one dial meets. `answer` is the answer and how long it takes, `gives_up` how long the
-- dialer goes on behind its timeout or the end of its context, `read_fails` how long after the
-- handshake a read fails, and `ping` what becomes of each ping in turn.
pub record Network : Type 0 where
  pub answer : Option (ℕ × Handshake)
  pub gives_up : ℕ
  pub read_fails : Option ℕ
  pub ping : ℕ → Ping

-- The end of a wait, and the error that it returns.
abbrev pub End : Type 0
End = ℕ × Error

-- The first of two; at one instant the left one counts, which shows in the printed error only.
abbrev pub first_of : Option End → Option End → Option End
first_of none b = b
first_of (some a) none = some a
first_of (some a) (some b) = some (if leb a.0 b.0 then a else b)

abbrev pub end_at : Error → Option ℕ → Option End
end_at e none = none
end_at e (some t) = some (t, e)

abbrev pub after : ℕ → Option ℕ → Option ℕ
after now none = none
after now (some k) = some (now + k)

abbrev pub is_reached : Option ℕ → ℕ → Bool
is_reached none now = false
is_reached (some t) now = leb t now

abbrev pub canceled : Error
canceled = other "context canceled"

abbrev pub later : ℕ → ℕ → ℕ
later a b = if leb a b then b else a
