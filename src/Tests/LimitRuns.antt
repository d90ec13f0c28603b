-- ===== src/Tests/LimitRuns.antt =====
-- Runs of internal/platform/redis/limiter.go on a Redis of sorted sets.
use dst_go_backend.Base.{
  ℕ, ◌+◌, false, not, String, none, List, [], ◌∷◌, if◌then◌else◌, ltb, str_eq, length, keep,
}
use dst_go_backend.Platform.Redis.{Redis, fine, drop_member}
use dst_go_backend.Platform.Limiter.{allow}

-- What each key holds at each instant, if nothing is done to it until then.
abbrev Windows : Type 0
Windows = ℕ → String → List (ℕ × String)

abbrev hold : String → (ℕ → List (ℕ × String)) → Windows → Windows
hold k held s u j = if str_eq k j then held u else s u j

abbrev window_redis : Redis
window_redis = record {
  State = Windows;
  link = λ s. (fine, s);
  text_at = λ t k s. none;
  hash_at = λ t k s. [];
  zset_at = λ t k s. s t k;
  get = λ t k s. none;
  exists = λ t k s. 0;
  set = λ t k v ttl s. s;
  setnx = λ t k v ttl s. (false, s);
  del = λ t k s. hold k (λ u. []) s;
  getdel = λ t k s. (none, s);
  hset = λ t k fs s. s;
  hget = λ t k f s. none;
  hincrby = λ t k f by s. (by, s);
  pexpire = λ t k ms s. hold k (λ u. if ltb u (t + ms) then s t k else []) s;
  pexpireat = λ t k at s. hold k (λ u. if ltb u at then s t k else []) s;
  zremrangebyscore = λ t k old s. hold k (λ u. keep (λ e. not (old e.0)) (s u k)) s;
  zcard = λ t k s. length (s t k);
  zadd = λ t k score m s. hold k (λ u. (score, m) ∷ drop_member m (s t k)) s;
  zrem = λ t k m s. hold k (λ u. drop_member m (s u k)) s;
}

-- Two requests, one of which has left the window of a second at 1500.
abbrev asked : Windows
asked u k = if str_eq k "ip" then (400, "a") ∷ (900, "b") ∷ [] else []

abbrev allowed : Windows
allowed = (allow window_redis 1500 "ip" 2 1000 "c" asked).1
