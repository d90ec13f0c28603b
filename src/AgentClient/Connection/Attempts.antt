-- ===== src/AgentClient/Connection/Attempts.antt =====
-- internal/agent_client/client.go: what one call of `connectAndServe` leaves.
use Prim.Native.String.{◌++◌ as join}
use dst_go_backend.Base.{
  ℕ, ◌+◌, ◌≤◌, ◌<◌, String, Option, none, some, [], ◌≡◌, refl, arith, inl, inr, Bool-cases, leb,
  length, ◌==◌, false, if◌then◌else◌,
}
use dst_go_backend.Apperr.{Error}
use dst_go_backend.AgentClient.Connection.{
  ServerConfig, Network, Handshake, refused, accepted, Agent, End, connect_and_serve, ended_at,
  dial_limit, first_failure, refusal, not_opened, serve, serve_unless_late, answered, met,
  open_conn, hang_up,
}
use dst_go_backend.AgentClient.Connection.Ends.{
  IsPrompt, IsIn, IsIn-some, IsIn-later, dial_limit-IsIn, first_failure-IsIn,
}

-- An attempt that ended in the time, with no connection left open.
abbrev pub IsOver : ℕ → String → Agent → Option (Error × Agent) → Type 0
IsOver t token w r =
    (e : Error) × (u : ℕ) × (r ≡ some (e, ended_at (join "Bearer " token) u w))
    × (w.clock ≤ u)
    × (u ≤ t)

module _ (cfg : ServerConfig) (t slack : ℕ) (token : String) (n : Network)
    (prompt : IsPrompt slack n) (w : Agent) where
  not_opened-IsOver :
      (o : Option End)
      → IsIn w.clock (t + slack) o
      → IsOver (t + slack) token w (not_opened cfg (some t) (join "Bearer " token) w o)
  not_opened-IsOver none h = absurd h
  not_opened-IsOver (some e) h = (e.1, e.0, refl, h.0, h.1)

  -- The connection is closed again, and no other was open.
  hang_up-IsOver :
      w.open_conns ≡ []
      → (o : Option End) → IsIn w.clock (t + slack) o
      → IsOver (t + slack) token w (
          hang_up cfg
            (some t)
            (join "Bearer " token)
            (length w.dials)
            (open_conn (length w.dials) w)
            o)
  hang_up-IsOver closed none h = absurd h
  hang_up-IsOver closed (some e) h = (e.1, e.0, ground (arith, closed), h.0, h.1)

  serve-IsOver :
      (fuel opened : ℕ)
      → slack < cfg.heartbeat_interval
      → w.open_conns ≡ []
      → w.clock ≤ opened
      → opened ≤ t + slack
      → t + slack < fuel + w.clock
      → IsOver (t + slack) token w (serve cfg (some t) fuel (join "Bearer " token) n opened w)
  serve-IsOver fuel opened beats closed h k enough =
      let beat : (cfg.heartbeat_interval == 0) ≡ false = ground arith in
      let first =
        first_failure cfg (some t) fuel n opened 0 opened (opened + cfg.heartbeat_interval) in
      rw beat (
        hang_up-IsOver closed first (
          IsIn-later (t + slack) first
            (first_failure-IsIn cfg t slack n prompt opened fuel 0 opened _ beats (omega arith)
              (omega arith) k (omega arith))
            h))

  serve_unless_late-IsOver :
      (fuel opened : ℕ) (limit : End)
      → slack < cfg.heartbeat_interval
      → w.open_conns ≡ []
      → w.clock ≤ opened
      → w.clock ≤ limit.0
      → limit.0 ≤ t + slack
      → t + slack < fuel + w.clock
      → IsOver
          (t + slack)
          token
          w
          (serve_unless_late cfg (some t) fuel (join "Bearer " token) n opened w (some limit))
  serve_unless_late-IsOver fuel opened limit beats closed h low high enough =
      elim (Bool-cases (leb limit.0 opened)) [
        | inl late ↦ rw late (not_opened-IsOver (some limit) (low, high))
        | inr early ↦ rw early (serve-IsOver fuel opened beats closed h (ground arith) enough)
      ]

  answered-IsOver :
      (fuel took : ℕ) (handshake : Handshake)
      → slack < cfg.heartbeat_interval
      → w.open_conns ≡ []
      → w.clock ≤ t
      → t + slack < fuel + w.clock
      → IsOver
          (t + slack)
          token
          w
          (answered cfg (some t) fuel (join "Bearer " token) n (w.clock + took) handshake w)
  answered-IsOver fuel took (refused status) beats closed h enough =
      let (limit, e, low, high) =
        IsIn-some (dial_limit cfg (some t) n w.clock)
          (dial_limit-IsIn cfg t slack n prompt w.clock h) in
      rw e (
        not_opened-IsOver
          (some (if leb limit.0 (w.clock + took) then limit else (w.clock + took, refusal status)))
          (ground arith))
  answered-IsOver fuel took accepted beats closed h enough =
      let (limit, e, low, high) =
        IsIn-some (dial_limit cfg (some t) n w.clock)
          (dial_limit-IsIn cfg t slack n prompt w.clock h) in
      rw e (
        serve_unless_late-IsOver fuel (w.clock + took) limit beats closed (omega arith) low high
          enough)

  met-IsOver :
      (fuel : ℕ) (answer : Option (ℕ × Handshake))
      → slack < cfg.heartbeat_interval
      → w.open_conns ≡ []
      → w.clock ≤ t
      → t + slack < fuel + w.clock
      → IsOver (t + slack) token w (met cfg (some t) fuel (join "Bearer " token) n answer w)
  met-IsOver fuel none beats closed h enough =
      not_opened-IsOver (dial_limit cfg (some t) n w.clock)
        (dial_limit-IsIn cfg t slack n prompt w.clock h)
  met-IsOver fuel (some (took, handshake)) beats closed h enough =
      answered-IsOver fuel took handshake beats closed h enough

  -- An attempt that began before the cancellation ends within the slack of it, and leaves no
  -- connection open.
  pub connect_and_serve-IsOver :
      (fuel : ℕ)
      → slack < cfg.heartbeat_interval
      → w.open_conns ≡ []
      → w.clock ≤ t
      → t + slack < fuel + w.clock
      → IsOver (t + slack) token w (connect_and_serve cfg (some t) fuel token n w)
  unfolding connect_and_serve
  connect_and_serve-IsOver fuel beats closed h enough =
      met-IsOver fuel n.answer beats closed h enough
