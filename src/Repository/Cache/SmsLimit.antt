-- ===== src/Repository/Cache/SmsLimit.antt =====
-- internal/repository/cache/sms_limit.go: the four quotas of the text messages, as sliding windows
-- in sorted sets. The Lua scripts are functions over the server's commands, run in one step.
use Prim.Native.String.{◌++◌}
use dst_go_backend.Base.{
  ℕ, zero, suc, ◌+◌, ◌-◌, ◌*◌, ◌/◌, String, Bool, true, false, ◌||◌, Option, none, some, List, [],
  ◌∷◌, leb, ltb, ◌==◌, if◌then◌else◌,
}
use dst_go_backend.Apperr.{other}
use dst_go_backend.Act.{Act, pure, ◌>>=◌, ◌>>◌, throw_if}
use dst_go_backend.Platform.Redis.{Redis, call}

pub data SmsLimitReason : Type 0 where
  allowed ip_minute phone_minute ip_day phone_day : SmsLimitReason
  unknown : ℕ → SmsLimitReason

abbrev pub reason_of : ℕ → SmsLimitReason
reason_of zero = allowed
reason_of (suc zero) = ip_minute
reason_of (suc (suc zero)) = phone_minute
reason_of (suc (suc (suc zero))) = ip_day
reason_of (suc (suc (suc (suc zero)))) = phone_day
reason_of n = unknown n

pub record SmsLimitPolicy : Type 0 where
  pub ip_minute : ℕ
  pub phone_minute : ℕ
  pub ip_day : ℕ
  pub phone_day : ℕ

pub record SmsReservation : Type 0 where
  pub id : String
  pub keys : List String

-- The start of the day of UTC+8 that `now` lies in, written for an instant after 1970-01-01 in that
-- zone, so that nothing is negative: `offset` is subtracted from a day's start that is at least it.
abbrev pub offset : ℕ
offset = 8 * 60 * 60 * 1000

abbrev pub day : ℕ
day = 24 * 60 * 60 * 1000

unfoldable pub day_start : ℕ → ℕ
day_start now = (now + offset) / day * day - offset

unfoldable pub day_end : ℕ → ℕ
unfolding day_start
day_end now = day_start now + day

-- One of the four windows: its key, its quota, and whether it counts a day.
pub record Quota : Type 0 where
  pub key : String
  pub limit : ℕ
  pub daily : Bool

abbrev pub quotas_of : String → String → SmsLimitPolicy → List Quota
quotas_of ip phone p =
    record { key = "sms:limit:ip:minute:" ++ ip; limit = p.ip_minute; daily = false }
    ∷ record { key = "sms:limit:phone:minute:" ++ phone; limit = p.phone_minute; daily = false }
    ∷ record { key = "sms:limit:ip:day:" ++ ip; limit = p.ip_day; daily = true }
    ∷ record { key = "sms:limit:phone:day:" ++ phone; limit = p.phone_day; daily = true }
    ∷ []

abbrev pub keys_of : List Quota → List String
keys_of [] = []
keys_of (q ∷ qs) = q.key ∷ keys_of qs

module _ (r : Redis) (now : ℕ) where
  -- `ZREMRANGEBYSCORE` to `now - 60000`, or to just below the start of the day.
  abbrev pub is_old : Bool → ℕ → Bool
  is_old true score = ltb score (day_start now)
  is_old false score = leb (score + 60000) now

  unfoldable pub clean : List Quota → r.State → r.State
  clean [] s = s
  clean (q ∷ qs) s = clean qs (r.zremrangebyscore now q.key (is_old q.daily) s)

  -- The number of the first window that is full, from `i`, or 0.
  unfoldable pub first_full : ℕ → List Quota → r.State → ℕ
  first_full i [] s = 0
  first_full i (q ∷ qs) s =
      let rest = first_full (suc i) qs s in if leb q.limit (r.zcard now q.key s) then i else rest

  abbrev pub expire_window : Quota → r.State → r.State
  expire_window q s =
      if q.daily then r.pexpireat now q.key (day_end now) s else r.pexpire now q.key 60000 s

  unfoldable pub occupy : String → List Quota → r.State → r.State
  occupy id [] s = s
  occupy id (q ∷ qs) s = occupy id qs (expire_window q (r.zadd now q.key now id s))

  unfoldable pub reserve_sms_lua : List Quota → String → r.State → ℕ × r.State
  unfolding clean first_full occupy
  reserve_sms_lua quotas id s =
      let cleaned = clean quotas s in
      let full = first_full 1 quotas cleaned in
      if full == 0 then (0, occupy id quotas cleaned) else (full, cleaned)

  unfoldable pub release_sms_lua : List String → String → r.State → ℕ × r.State
  release_sms_lua [] id s = (1, s)
  release_sms_lua (k ∷ ks) id s = release_sms_lua ks id (r.zrem now k id s)

  -- The id is drawn by a third-party package.
  unfoldable pub reserve :
      String
      → String
      → String
      → SmsLimitPolicy
      → Act r.State (Option SmsReservation × SmsLimitReason)
  unfolding reserve_sms_lua
  reserve id ip phone p = do
    throw_if (leb p.ip_minute 0 || leb p.phone_minute 0 || leb p.ip_day 0 || leb p.phone_day 0)
        (other "短信限流额度须大于 0")
    let quotas = quotas_of ip phone p
    reason ← call r (reserve_sms_lua quotas id)
    pure (
        if reason == 0
        then (some (record { id = id; keys = keys_of quotas }), allowed)
        else (none, reason_of reason))

  unfoldable pub release : Option SmsReservation → Act r.State (Unit {0})
  unfolding release_sms_lua
  release none = pure tt
  release (some reservation) = do call r (release_sms_lua reservation.keys reservation.id); pure tt
