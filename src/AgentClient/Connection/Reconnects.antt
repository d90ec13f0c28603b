-- ===== src/AgentClient/Connection/Reconnects.antt =====
-- `Start` of internal/agent_client/client.go over any network: when it returns, and when it dials.
use Prim.Native.String.{◌++◌ as join}
use dst_go_backend.Base.{
  ℕ, zero, suc, ◌+◌, ◌≤◌, ◌<◌, String, Option, some, List, [], ◌∷◌, ◌≡◌, ◌⊎◌, refl, arith, inl, inr,
  Bool-cases, leb, true, false, length,
}
use dst_go_backend.Apperr.{Error, Result, ok, err}
use dst_go_backend.Act.{Result-cases}
use dst_go_backend.AgentClient.Identity.{Files}
use dst_go_backend.AgentClient.Connection.{
  ServerConfig, Client, Network, Agent, Dial, canceled, serve_loop, start_token, start, ended_at,
  wait, report, later,
}
use dst_go_backend.AgentClient.Connection.Ends.{IsPrompt}
use dst_go_backend.AgentClient.Connection.Attempts.{connect_and_serve-IsOver}

-- When the next dial is due: at the start, or the interval after the last one ended.
abbrev pub next_at : ℕ → ℕ → List Dial → ℕ
next_at interval first [] = first
next_at interval first (d ∷ ds) = d.ended + interval

-- Every dial, with this header, began when it was due.
abbrev pub IsPaced : String → ℕ → ℕ → List Dial → Type 0
IsPaced header interval first [] = Unit {0}
IsPaced header interval first (d ∷ ds) =
    (d.header ≡ header)
    × (d.began ≡ next_at interval first ds)
    × (d.began ≤ d.ended)
    × IsPaced header interval first ds

module _ (cfg : ServerConfig) (t : ℕ) (w : Agent) where
  wait-over :
      leb t (w.clock + cfg.reconnect_interval) ≡ true
      → wait cfg (some t) w ≡ (true, record w { clock = later w.clock t })
  unfolding wait
  wait-over over = rw over (ground arith)

  wait-again :
      leb t (w.clock + cfg.reconnect_interval) ≡ false
      → wait cfg (some t) w ≡ (false, record w { clock = w.clock + cfg.reconnect_interval })
  unfolding wait
  wait-again again = rw again refl

module _ (cfg : ServerConfig) (t slack first : ℕ) (networks : ℕ → Network) (token : String) where
  -- The agent within the slack of the cancellation: nothing is open, every dial was made when it was due,
  -- and the next one was not due before.
  abbrev pub IsStopped : Agent → Type 0
  IsStopped w =
      (t ≤ w.clock)
      × (w.clock ≤ t + slack)
      × (w.open_conns ≡ [])
      × IsPaced (join "Bearer " token) cfg.reconnect_interval first w.dials
      × (t ≤ next_at cfg.reconnect_interval first w.dials)

  -- The agent before a dial.
  abbrev IsDue : Agent → Type 0
  IsDue w =
      (w.clock ≤ t)
      × (w.open_conns ≡ [])
      × IsPaced (join "Bearer " token) cfg.reconnect_interval first w.dials
      × (w.clock ≡ next_at cfg.reconnect_interval first w.dials)

  serve_loop-stops :
      (fuel : ℕ) (w : Agent)
      → ((k : ℕ) → IsPrompt slack (networks k))
      → slack < cfg.heartbeat_interval
      → 0 < cfg.reconnect_interval
      → IsDue w
      → t + slack < fuel + w.clock
      → (w' : Agent) × (serve_loop cfg (some t) fuel networks token w ≡ some (canceled, w'))
        × IsStopped w'
  unfolding serve_loop
  serve_loop-stops zero w prompt beats waits due enough = absurd (omega arith)
  serve_loop-stops (suc fuel) w prompt beats waits due enough = elim (Bool-cases (leb t w.clock)) [
    | inl done ↦ (w, rw (serve_loop, done) refl, ground (arith, done))
    | inr early ↦
        let (e, u, ended, low, high) =
          connect_and_serve-IsOver cfg t slack token (networks (length w.dials))
            (prompt (length w.dials)) w (suc fuel) beats due.1 due.0 enough in
        let reported : Agent = report cfg (some t) e (ended_at (join "Bearer " token) u w) in
        elim (Bool-cases (leb t (u + cfg.reconnect_interval))) [
          | inl over ↦ (
            record reported { clock = later u t },
            rw (serve_loop, early, ended, wait-over cfg t reported over) refl,
            (ground arith, ground arith, due.1, (refl, due.3, low, due.2), ground (arith, over)),
          )
          | inr again ↦
              let rest =
                serve_loop-stops fuel (record reported { clock = u + cfg.reconnect_interval })
                  prompt beats waits (ground (arith, again), due.1, (refl, due.3, low, due.2), refl)
                  (omega arith) in
              (
                rest.0,
                rw (serve_loop, early, ended, wait-again cfg t reported again) rest.1,
                rest.2,
              )
        ]
  ]

-- The agent as `Start` is called.
abbrev pub idle : ℕ → Agent
idle begun = record { clock = begun; open_conns = []; dials = []; printed = [] }

module _ (files : Files) (c : Client) (t begun fuel : ℕ) (networks : ℕ → Network) (given : String)
    (s : files.State) where
  abbrev pub run : Option (Error × Agent)
  run = (start files c (some t) fuel networks given s (idle begun)).0

  abbrev pub read_token : Result String
  read_token = (start_token files c.identity.path given s).0

  -- Where the context is cancelled at some instant from the start on, the reconnect interval is
  -- positive, the dialer gives up and every ping is written or fails within a slack below the
  -- heartbeat interval, and the fuel is more than the time up to the end of the slack: `Start` returns, whatever else the network does: at once with the error of the token's file,
  -- before any dial, or else with the context's error, not before the cancellation and at most the
  -- slack later; no connection is left open.
  pub start-Returns :
      (slack : ℕ)
      → ((k : ℕ) → IsPrompt slack (networks k))
      → slack < c.cfg.heartbeat_interval
      → 0 < c.cfg.reconnect_interval
      → begun ≤ t
      → t + slack < fuel + begun
      → (e : Error) × (w : Agent) × (run ≡ some (e, w))
        × (w.open_conns ≡ [])
        × (((read_token ≡ err e) × (w ≡ idle begun))
            ⊎ ((e ≡ canceled) × (t ≤ w.clock) × (w.clock ≤ t + slack)))
  unfolding start
  start-Returns slack prompt beats waits early enough = elim (Result-cases read_token) [
    | inl (e, failed) ↦ (e, idle begun, rw failed refl, refl, inl (failed, refl))
    | inr (token, read) ↦
        let (w, ended, stopped) =
          serve_loop-stops c.cfg t slack begun networks token fuel (idle begun) prompt beats waits
            (early, refl, tt, refl) enough in
        (canceled, w, rw read ended, stopped.2, inr (refl, stopped.0, stopped.1))
  ]

  -- Where the context is cancelled at some instant from the start on, the reconnect interval is
  -- positive, the dialer gives up and every ping is written or fails within a slack below the
  -- heartbeat interval, the fuel is more than the time up to the end of the slack, and there is a token: `Start` returns the context's error, every dial carries the token, the first
  -- one begins at once and each other one exactly the interval after the one before ended, however
  -- that ended; and no dial was due before the cancellation and was not made.
  pub start-KeepsDialling :
      (slack : ℕ)
      → ((k : ℕ) → IsPrompt slack (networks k))
      → slack < c.cfg.heartbeat_interval
      → 0 < c.cfg.reconnect_interval
      → begun ≤ t
      → t + slack < fuel + begun
      → (token : String) → read_token ≡ ok token
      → (w : Agent) × (run ≡ some (canceled, w))
        × IsPaced (join "Bearer " token) c.cfg.reconnect_interval begun w.dials
        × (t ≤ next_at c.cfg.reconnect_interval begun w.dials)
  unfolding start
  start-KeepsDialling slack prompt beats waits early enough token read =
      let (w, ended, stopped) =
        serve_loop-stops c.cfg t slack begun networks token fuel (idle begun) prompt beats waits
          (early, refl, tt, refl) enough in
      (w, rw read ended, stopped.3, stopped.4)
