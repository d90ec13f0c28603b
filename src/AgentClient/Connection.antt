-- ===== src/AgentClient/Connection.antt =====
-- `Start` and `connectAndServe` of internal/agent_client/client.go. The network is an argument: for
-- each dial in turn, when and how the panel answers, how late a dial is given up, when a read fails,
-- and how long each ping takes. The context is the instant of its cancellation, if there is one. What the
-- loops send is in AgentClient/Client.
pub mod Ends
pub mod Attempts
pub mod Reconnects
pub mod Restart
mod Values
pub use Values.*
use Prim.Native.String.{◌++◌ as join}
use dst_go_backend.Base.{
  ℕ, zero, suc, ◌+◌, ◌-◌, ◌*◌, ◌/◌, ◌||◌, ltb, String, Bool, true, false, not, ◌&&◌, Option, none,
  some, List, [], ◌∷◌, length, keep, leb, ◌==◌, format_uint, if◌then◌else◌,
}
use dst_go_backend.Apperr.{Error, other, Result, ok, err}
use dst_go_backend.Act.{Act, pure, ◌>>=◌, ◌>>◌}
use dst_go_backend.Strings.{is_empty, trim_space}
use dst_go_backend.AgentClient.Identity.{Files, load_token, save_token}

-- One call of `DialContext`: its header, and when `connectAndServe` began and ended.
pub record Dial : Type 0 where
  pub header : String
  pub began : ℕ
  pub ended : ℕ

-- The agent: the time, the connections that are open by the number of their dial, the dials and the
-- printed errors, the latest first.
pub record Agent : Type 0 where
  pub clock : ℕ
  pub open_conns : List ℕ
  pub dials : List Dial
  pub printed : List Error

abbrev pub open_conn : ℕ → Agent → Agent
open_conn conn w = record w { open_conns = conn ∷ w.open_conns }

abbrev pub close_conn : ℕ → Agent → Agent
close_conn conn w = record w { open_conns = keep (λ c. not (c == conn)) w.open_conns }

abbrev pub ended_at : String → ℕ → Agent → Agent
ended_at header t w = record w {
  clock = t;
  dials = record { header = header; began = w.clock; ended = t } ∷ w.dials;
}

-- An end that is a while later.
abbrev pub put_off : ℕ → Option End → Option End
put_off late none = none
put_off late (some e) = some (e.0 + late, e.1)

abbrev pub refusal : Option ℕ → Error
refusal none = other "websocket 连接失败"
refusal (some status) = other (join "websocket 连接失败 status=" (format_uint status))

module _ (cfg : ServerConfig) (cancelled : Option ℕ) where
  -- `HandshakeTimeout`, where 0 is none, and the context, both of which end a dial, as soon as the
  -- dialer gives up; an answer that comes before counts.
  abbrev pub dial_limit : Network → ℕ → Option End
  dial_limit n now =
      let timeout = if cfg.connect_timeout == 0 then none else some cfg.connect_timeout in
      put_off n.gives_up
        (first_of (end_at (refusal none) cancelled) (end_at (refusal none) (after now timeout)))

  -- What comes before its limit.
  abbrev pub before : Option End → End → Option End
  before none e = some e
  before (some limit) e = some (if leb limit.0 e.0 then limit else e)

  -- What the `select` of `heartbeatLoop` takes that waits since `ready`: the context, or else the
  -- tick of `due`.
  abbrev pub heard : Bool → ℕ → ℕ → Option ℕ → Option End
  heard tick_first ready due none = none
  heard tick_first ready due (some t) =
      let done = later ready t in
      let ticked = later ready due in
      if ltb done ticked || (done == ticked && not tick_first) then some (done, canceled) else none

  -- The tick behind one of `due` that was taken at `now`: those between are dropped.
  abbrev pub tick_after : ℕ → ℕ → ℕ
  tick_after due now = due + suc ((now - due) / cfg.heartbeat_interval) * cfg.heartbeat_interval

  -- The first error of the two loops. `readLoop` ends when a read fails; `heartbeatLoop`, which has
  -- sent `k` pings and waits since `ready`, with the context or a failed ping. A ping that is being
  -- sent does not look at the context.
  unfoldable pub first_failure : ℕ → Network → ℕ → ℕ → ℕ → ℕ → Option End
  first_failure zero n opened k ready due = none
  first_failure (suc fuel) n opened k ready due =
      let read = after opened n.read_fails in
      let read_end = end_at (other "websocket 消息读取失败") read in
      let ping = n.ping k in
      let sent = later ready due + ping.took in
      elim (is_reached read ready) [
        | true ↦ read_end
        | false ↦ elim (heard ping.before_context ready due cancelled) [
          | some e ↦ first_of read_end (some e)
          | none ↦ elim ping.fails [
            | true ↦ first_of read_end (some (sent, other "心跳发送失败"))
            | false ↦ first_failure fuel n opened (suc k) sent (tick_after due (later ready due))
          ]
        ]
      ]

  -- A connection that is up: the first error of the two loops ends it, and it is closed, once by
  -- the code and once as it returns.
  abbrev pub hang_up : String → ℕ → Agent → Option End → Option (Error × Agent)
  hang_up header conn w none = none
  hang_up header conn w (some (t, e)) =
      some (e, close_conn conn (close_conn conn (ended_at header t w)))

  -- `time.NewTicker` panics at an interval of 0: there is no result then.
  abbrev pub serve : ℕ → String → Network → ℕ → Agent → Option (Error × Agent)
  serve fuel header n opened w =
      let conn = length w.dials in
      if cfg.heartbeat_interval == 0
      then none
      else hang_up header conn (open_conn conn w)
          (first_failure fuel n opened 0 opened (opened + cfg.heartbeat_interval))

  abbrev pub not_opened : String → Agent → Option End → Option (Error × Agent)
  not_opened header w none = none
  not_opened header w (some (t, e)) = some (e, ended_at header t w)

  abbrev pub serve_unless_late :
      ℕ → String → Network → ℕ → Agent → Option End → Option (Error × Agent)
  serve_unless_late fuel header n t w none = serve fuel header n t w
  serve_unless_late fuel header n t w (some limit) =
      if leb limit.0 t then not_opened header w (some limit) else serve fuel header n t w

  abbrev pub answered : ℕ → String → Network → ℕ → Handshake → Agent → Option (Error × Agent)
  answered fuel header n t (refused status) w =
      not_opened header w (before (dial_limit n w.clock) (t, refusal status))
  answered fuel header n t accepted w = serve_unless_late fuel header n t w (dial_limit n w.clock)

  abbrev pub met : ℕ → String → Network → Option (ℕ × Handshake) → Agent → Option (Error × Agent)
  met fuel header n none w = not_opened header w (dial_limit n w.clock)
  met fuel header n (some (took, handshake)) w = answered fuel header n (w.clock + took) handshake w

  -- `connectAndServe`, which returns no nil; no result is a call that does not return, or not
  -- within as many pings as the fuel.
  unfoldable pub connect_and_serve : ℕ → String → Network → Agent → Option (Error × Agent)
  unfolding first_failure
  connect_and_serve fuel token n w = met fuel (join "Bearer " token) n n.answer w

  abbrev pub report : Error → Agent → Agent
  report e w = record w {
    printed = if is_reached cancelled w.clock then w.printed else e ∷ w.printed;
  }

  -- The `select` behind an attempt: whether the context was done, or else the wait is over.
  unfoldable pub wait : Agent → Bool × Agent
  wait w = elim cancelled [
    | none ↦ (false, record w { clock = w.clock + cfg.reconnect_interval })
    | some t ↦
        if leb t (w.clock + cfg.reconnect_interval)
        then (true, record w { clock = if leb t w.clock then w.clock else t })
        else (false, record w { clock = w.clock + cfg.reconnect_interval })
  ]

  abbrev pub go_on : Bool × Agent → (Agent → Option (Error × Agent)) → Option (Error × Agent)
  go_on (true, w) again = some (canceled, w)
  go_on (false, w) again = again w

  abbrev pub served :
      Option (Error × Agent) → (Agent → Option (Error × Agent)) → Option (Error × Agent)
  served none again = none
  served (some (e, w)) again = go_on (wait (report e w)) again

  -- The loop of `Start`; `networks` says what the n-th dial meets.
  unfoldable pub serve_loop : ℕ → (ℕ → Network) → String → Agent → Option (Error × Agent)
  unfolding connect_and_serve wait first_failure
  serve_loop zero networks token w = none
  serve_loop (suc fuel) networks token w = elim (is_reached cancelled w.clock) [
    | true ↦ some (canceled, w)
    | false ↦
        served (connect_and_serve (suc fuel) token (networks (length w.dials)) w)
          (serve_loop fuel networks token)
  ]

module _ (files : Files) where
  -- The token that `Start` uses: the one given, which it saves, or the one saved before.
  unfoldable pub start_token : String → String → Act files.State String
  start_token path token =
      if is_empty (trim_space token)
      then load_token files path
      else save_token files path (trim_space token) >> pure (trim_space token)

  abbrev pub serve_with :
      Client → Option ℕ → ℕ → (ℕ → Network) → Agent → Result String → Option (Error × Agent)
  serve_with c cancelled fuel networks w (err e) = some (e, w)
  serve_with c cancelled fuel networks w (ok token) =
      serve_loop c.cfg cancelled fuel networks token w

  unfoldable pub start :
      Client
      → Option ℕ
      → ℕ
      → (ℕ → Network)
      → String
      → files.State
      → Agent
      → Option (Error × Agent) × files.State
  unfolding start_token serve_loop
  start c cancelled fuel networks token s w =
      let read = start_token c.identity.path token s in
      (serve_with c cancelled fuel networks w read.0, read.1)
