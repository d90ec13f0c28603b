-- ===== src/AgentClient/Connection/Ends.antt =====
-- internal/agent_client/client.go: when a dial is given up, and when a connection is lost.

use dst_go_backend.Base.{
  ℕ, zero, suc, ◌+◌, true, Bool, ◌⊎◌, ◌≤◌, ◌<◌, Option, none, some, ◌≡◌, refl, arith, inl, inr,
  Bool-cases,
}
use dst_go_backend.Apperr.{Error}
use dst_go_backend.AgentClient.Connection.{
  ServerConfig, Network, End, first_of, end_at, after, dial_limit, heard, tick_after, put_off,
  is_reached, later, first_failure, refusal, canceled,
}

-- An end that does not come before an instant, or never comes.
abbrev pub IsFrom : ℕ → Option End → Type 0
IsFrom now none = Unit {0}
IsFrom now (some e) = now ≤ e.0

-- An end between two instants.
abbrev pub IsIn : ℕ → ℕ → Option End → Type 0
IsIn now t none = ⊥
IsIn now t (some e) = (now ≤ e.0) × (e.0 ≤ t)

pub IsIn-some :
    {now t : ℕ} (o : Option End) → IsIn now t o → (e : End) × (o ≡ some e) × (now ≤ e.0) × (e.0 ≤ t)
IsIn-some none h = absurd h
IsIn-some (some e) h = (e, refl, h.0, h.1)

pub IsIn-later :
    {now later : ℕ} (t : ℕ) (o : Option End) → IsIn later t o → now ≤ later → IsIn now t o
IsIn-later t none h k = absurd h
IsIn-later t (some e) h k = omega arith

first_of-IsIn_left :
    (now : ℕ) (a : End) (b : Option End)
    → now ≤ a.0
    → IsFrom now b
    → IsIn now a.0 (first_of (some a) b)
first_of-IsIn_left now a none h k = omega arith
first_of-IsIn_left now a (some b) h k = ground arith

first_of-IsIn_right :
    (now t : ℕ) (a b : Option End) → IsFrom now a → IsIn now t b → IsIn now t (first_of a b)
first_of-IsIn_right now t none b h k = k
first_of-IsIn_right now t (some a) none h k = absurd k
first_of-IsIn_right now t (some a) (some b) h k = ground arith

after-IsFrom : (e : Error) (now : ℕ) (o : Option ℕ) → IsFrom now (end_at e (after now o))
after-IsFrom e now none = tt
after-IsFrom e now (some k) = omega arith

put_off-IsIn :
    (now t late slack : ℕ) (o : Option End)
    → late ≤ slack
    → IsIn now t o
    → IsIn now (t + slack) (put_off late o)
put_off-IsIn now t late slack none k h = absurd h
put_off-IsIn now t late slack (some e) k h = (omega arith, omega arith)

-- The dialer gives up, and each ping is written or fails, within the slack. In the code a ping waits
-- for the lock behind the other writes, and each write has a deadline of five seconds.
pub record IsPrompt (slack : ℕ) (n : Network) : Type 0 where
  pub gives_up_le : n.gives_up ≤ slack
  pub took_le : (k : ℕ) → (n.ping k).took ≤ slack

module _ (cfg : ServerConfig) (t slack : ℕ) (n : Network) (prompt : IsPrompt slack n) where
  pub dial_limit-IsIn : (now : ℕ) → now ≤ t → IsIn now (t + slack) (dial_limit cfg (some t) n now)
  dial_limit-IsIn now h =
      put_off-IsIn now t n.gives_up slack _ prompt.gives_up_le
        (first_of-IsIn_left now (t, refusal none) _ h (after-IsFrom (refusal none) now _))

  heard-cases :
      (tick_first : Bool) (ready due : ℕ)
      → ready < due
      → (heard cfg (some t) tick_first ready due (some t) ≡ some (later ready t, canceled))
        ⊎ ((heard cfg (some t) tick_first ready due (some t) ≡ none) × (due ≤ t))
  heard-cases tick_first ready due h = ground arith

  -- The next tick comes an interval later, since the one before was taken as it came.
  tick_after-due : (due : ℕ) → tick_after cfg (some t) due due ≡ due + cfg.heartbeat_interval
  tick_after-due due = omega arith

  read_end-IsIn :
      (e : Error) (opened ready : ℕ) (o : Option ℕ)
      → is_reached (after opened o) ready ≡ true
      → ready ≤ t + slack
      → IsIn opened (t + slack) (end_at e (after opened o))
  read_end-IsIn e opened ready none h k = absurd (ground (arith, h))
  read_end-IsIn e opened ready (some r) h k = ground (arith, h)

  pub first_failure-IsIn :
      (opened fuel k ready due : ℕ)
      → slack < cfg.heartbeat_interval
      → opened ≤ ready
      → ready < due
      → ready ≤ t + slack
      → t + slack < fuel + ready
      → IsIn opened (t + slack) (first_failure cfg (some t) fuel n opened k ready due)
  unfolding first_failure
  first_failure-IsIn opened zero k ready due quick low wait high enough = absurd (omega arith)
  first_failure-IsIn opened (suc fuel) k ready due quick low wait high enough =
      elim (Bool-cases (is_reached (after opened n.read_fails) ready)) [
        | inl lost ↦ rw (first_failure, lost) (read_end-IsIn _ opened ready n.read_fails lost high)
        | inr up ↦ elim (heard-cases (n.ping k).before_context ready due wait) [
          | inl done ↦
              rw (first_failure, up, done)
                (first_of-IsIn_right opened (t + slack) _ _ (after-IsFrom _ opened n.read_fails)
                  (ground arith))
          | inr (tick, early) ↦
              let sent_in : (opened ≤ due + (n.ping k).took) × (due + (n.ping k).took ≤ t + slack) =
                (omega arith, omega (arith, prompt.took_le k)) in
              let on_time : later ready due ≡ due = ground arith in
              elim (Bool-cases (n.ping k).fails) [
                | inl broken ↦
                    rw (first_failure, up, tick, broken)
                      (first_of-IsIn_right opened (t + slack) _ _
                        (after-IsFrom _ opened n.read_fails) (rw on_time sent_in))
                | inr fine ↦
                    rw (first_failure, up, tick, fine, on_time, tick_after-due due)
                      (first_failure-IsIn opened fuel (suc k) (due + (n.ping k).took)
                        (due + cfg.heartbeat_interval) quick sent_in.0
                        (omega (arith, prompt.took_le k)) sent_in.1 (omega arith))
              ]
        ]
      ]
