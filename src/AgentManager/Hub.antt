-- ===== src/AgentManager/Hub.antt =====
-- internal/agent_manager/hub.go. Connections are shared objects: `agents` is the heap of
-- `agentConn` objects, an address is a position in it, and `conns` maps a server to an address.
-- Each function with a Hub and an address or a map access in one step is one critical section of
-- the source (under `h.mu`, or under `agent.mu`); the operations are composed of the sections as
-- the source composes them. What a caller or the callback learns is returned as a list of `Event`.
pub mod System
pub mod Ledger
pub mod Ownership
pub mod Operations
use dst_go_backend.Base.{
  ℕ, String, Bool, true, false, Option, none, some, List, [], ◌∷◌, ◌++◌, map, length, get_elem?,
  set, lookup, insert, remove, has_text, add_text, drop_text, not, ◌==◌, str_eq, if◌then◌else◌,
}
use dst_go_backend.Protocol.MsgType
use dst_go_backend.Protocol.{Envelope}

-- `conn` names the websocket connection. `pending` is the map of command ids.
pub record AgentConn : Type 0 where
  pub conn : ℕ
  pub pending : List String
  pub closed : Bool

-- `on_interrupted` says whether the callback is set, and `shut` lists the `conn.Close()` calls.
pub record Hub : Type 0 where
  pub conns : List (ℕ × ℕ)
  pub agents : List AgentConn
  pub on_interrupted : Bool
  pub shut : List ℕ

-- `accepted`: `Send` returned no error for a command. `finished`: `Finish` returned true.
-- `interrupted`: the callback was called.
pub data Event : Type 0 where
  accepted finished interrupted : ℕ → String → Event

pub data SendError : Type 0 where
  offline closed_conn deadline_failed write_failed : ℕ → SendError

-- What the websocket package answers to `SetWriteDeadline` and to `WriteJSON`.
pub record WriteOutcome : Type 0 where
  pub deadline_ok : Bool
  pub write_ok : Bool

unfoldable pub new_hub : Hub
new_hub = record { conns = []; agents = []; on_interrupted = false; shut = [] }

abbrev pub put_agent : ℕ → AgentConn → Hub → Hub
put_agent a c h = record h { agents = set h.agents a c }

-- The section of `Register` under `h.mu`: the new connection, and the address of the old one.
unfoldable pub swap_in : ℕ → ℕ → Hub → Hub × Option ℕ
swap_in server conn h = (
  record h {
    conns = insert server (length h.agents) h.conns;
    agents = h.agents ++ record { conn = conn; pending = []; closed = false } ∷ [];
  },
  lookup server h.conns,
)

abbrev pub notify : Bool → ℕ → List String → List Event
notify true server ids = map (interrupted server) ids
notify false server ids = []

abbrev pub close_at : ℕ → ℕ → Option AgentConn → Hub → Hub × List Event
close_at server a none h = (h, [])
close_at server a (some c) h = (
  record h {
    agents = set h.agents a (record c { pending = []; closed = true });
    shut = h.shut ++ c.conn ∷ [];
  },
  notify h.on_interrupted server c.pending,
)

-- `closeAgent`: the section under `agent.mu`, and the callbacks for the ids that it collected.
unfoldable pub close_agent : ℕ → ℕ → Hub → Hub × List Event
close_agent server a h = close_at server a (get_elem? h.agents a) h

abbrev pub close_found : ℕ → Option ℕ → Hub → Hub × List Event
close_found server none h = (h, [])
close_found server (some a) h = close_agent server a h

unfoldable pub register : ℕ → ℕ → Hub → Hub × List Event
unfolding swap_in close_agent
register server conn h = let (h', old) = swap_in server conn h in close_found server old h'

abbrev pub is_conn : ℕ → Option AgentConn → Bool
is_conn conn none = false
is_conn conn (some c) = c.conn == conn

abbrev pub take_out_at : ℕ → ℕ → Option ℕ → Hub → Hub × Option ℕ
take_out_at server conn none h = (h, none)
take_out_at server conn (some a) h =
    if is_conn conn (get_elem? h.agents a)
    then (record h { conns = remove server h.conns }, some a)
    else (h, none)

-- The section of `Unregister` under `h.mu`: only the current connection is taken out.
unfoldable pub take_out_conn : ℕ → ℕ → Hub → Hub × Option ℕ
take_out_conn server conn h = take_out_at server conn (lookup server h.conns) h

unfoldable pub unregister : ℕ → ℕ → Hub → Hub × List Event
unfolding take_out_conn close_agent
unregister server conn h =
    let (h', current) = take_out_conn server conn h in close_found server current h'

-- The section of `Disconnect` under `h.mu`.
unfoldable pub take_out : ℕ → Hub → Hub × Option ℕ
take_out server h = (record h { conns = remove server h.conns }, lookup server h.conns)

unfoldable pub disconnect : ℕ → Hub → Hub × List Event
unfolding take_out close_agent
disconnect server h = let (h', agent) = take_out server h in close_found server agent h'

abbrev pub is_command : Envelope → Bool
is_command env = str_eq env.msg_type MsgType.command

abbrev pub sent_events : ℕ → Envelope → List Event
sent_events server env = if is_command env then accepted server env.id ∷ [] else []

-- `agent.pending[env.ID] = struct{}{}` for a command, and its removal when the write fails.
abbrev pub send_at :
    ℕ → ℕ → Envelope → WriteOutcome → Option AgentConn → Hub → Hub × List Event × Option SendError
send_at server a env w none h = (h, [], some (offline server))
send_at server a env w (some c) h =
    let marked : List String = if is_command env then add_text env.id c.pending else c.pending in
    let broken : Hub = record h { shut = h.shut ++ c.conn ∷ [] } in
    if c.closed
    then (h, [], some (closed_conn server))
    else if not w.deadline_ok
    then (broken, [], some (deadline_failed server))
    else if not w.write_ok
    then (
      put_agent a (record c { pending = drop_text env.id marked }) broken,
      [],
      some (write_failed server),
    )
    else (put_agent a (record c { pending = marked }) h, sent_events server env, none)

-- The section of `Send` under `agent.mu`.
unfoldable pub send_locked :
    ℕ → ℕ → Envelope → WriteOutcome → Hub → Hub × List Event × Option SendError
send_locked server a env w h = send_at server a env w (get_elem? h.agents a) h

abbrev pub send_found :
    ℕ → Envelope → WriteOutcome → Option ℕ → Hub → Hub × List Event × Option SendError
send_found server env w none h = (h, [], some (offline server))
send_found server env w (some a) h = send_locked server a env w h

unfoldable pub send : ℕ → Envelope → WriteOutcome → Hub → Hub × List Event × Option SendError
unfolding send_locked
send server env w h = send_found server env w (lookup server h.conns) h

abbrev pub finish_at : ℕ → ℕ → String → Option AgentConn → Hub → Hub × List Event × Bool
finish_at server a id none h = (h, [], false)
finish_at server a id (some c) h =
    if has_text id c.pending
    then (
      put_agent a (record c { pending = drop_text id c.pending }) h,
      finished server id ∷ [],
      true,
    )
    else (h, [], false)

-- The section of `Finish` under `agent.mu`.
unfoldable pub finish_locked : ℕ → ℕ → String → Hub → Hub × List Event × Bool
finish_locked server a id h = finish_at server a id (get_elem? h.agents a) h

abbrev pub finish_found : ℕ → String → Option ℕ → Hub → Hub × List Event × Bool
finish_found server id none h = (h, [], false)
finish_found server id (some a) h = finish_locked server a id h

unfoldable pub finish : ℕ → String → Hub → Hub × List Event × Bool
unfolding finish_locked
finish server id h = finish_found server id (lookup server h.conns) h

unfoldable pub is_online : ℕ → Hub → Bool
is_online server h = elim (lookup server h.conns) [ none ↦ false | some a ↦ true ]

unfoldable pub hub_count : Hub → ℕ
hub_count h = length h.conns
