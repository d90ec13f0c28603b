-- ===== src/AgentManager/Hub/System.antt =====
-- The Hub under concurrency: the critical sections of internal/agent_manager/hub.go in any order.
-- A thread that took a connection out of the map closes it later, so `closing` keeps the addresses
-- taken out and not yet closed, each with the server in whose name it will be closed. A thread that
-- runs the locked part of `Send` or `Finish` may hold any address, however old. The callbacks of
-- `closeAgent` are counted with its section, where their ids are fixed.
use dst_go_backend.Base.{ℕ, String, Option, none, some, List, [], ◌∷◌, ◌++◌, lookup, insert, remove}
use dst_go_backend.Protocol.{Envelope}
use dst_go_backend.AgentManager.Hub.{
  Hub, Event, WriteOutcome, swap_in, take_out_conn, take_out, close_agent, send_locked,
  finish_locked,
}

pub record System : Type 0 where
  pub hub : Hub
  pub closing : List (ℕ × ℕ)

pub data Section : Type 0 where
  swaps takes_conn : ℕ → ℕ → Section
  takes closes : ℕ → Section
  sends : ℕ → ℕ → Envelope → WriteOutcome → Section
  finishes : ℕ → ℕ → String → Section

abbrev pub to_close : ℕ → Option ℕ → List (ℕ × ℕ) → List (ℕ × ℕ)
to_close server none closing = closing
to_close server (some a) closing = insert a server closing

abbrev pub close_step : ℕ → Option ℕ → System → System × List Event
close_step a none s = (s, [])
close_step a (some server) s =
    let (h, es) = close_agent server a s.hub in
    (record s { hub = h; closing = remove a s.closing }, es)

unfoldable pub step : Section → System → System × List Event
unfolding swap_in take_out_conn take_out close_agent send_locked finish_locked
step (swaps server conn) s =
    let (h, old) = swap_in server conn s.hub in
    (record s { hub = h; closing = to_close server old s.closing }, [])
step (takes_conn server conn) s =
    let (h, current) = take_out_conn server conn s.hub in
    (record s { hub = h; closing = to_close server current s.closing }, [])
step (takes server) s =
    let (h, agent) = take_out server s.hub in
    (record s { hub = h; closing = to_close server agent s.closing }, [])
step (closes a) s = close_step a (lookup a s.closing) s
step (sends server a env w) s =
    let r = send_locked server a env w s.hub in (record s { hub = r.0 }, r.1)
step (finishes server a id) s =
    let r = finish_locked server a id s.hub in (record s { hub = r.0 }, r.1)

unfoldable pub run : List Section → System → System × List Event
run [] s = (s, [])
run (sec ∷ rest) s = let (s', es) = step sec s in let (s'', es') = run rest s' in (s'', es ++ es')

abbrev pub sent_by : Section → List String
sent_by (sends server a env w) = env.id ∷ []
sent_by _ = []

-- The ids of the envelopes that a schedule tries to send.
abbrev pub sent_ids : List Section → List String
sent_ids [] = []
sent_ids (sec ∷ rest) = sent_by sec ++ sent_ids rest
