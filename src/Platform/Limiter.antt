-- ===== src/Platform/Limiter.antt =====
-- internal/platform/redis/limiter.go: a sliding window over the requests, as a sorted set.
pub mod Bounds
use dst_go_backend.Base.{ℕ, ◌+◌, ◌*◌, ◌/◌, String, Bool, ◌==◌, leb, if◌then◌else◌}
use dst_go_backend.Act.{Act, pure, ◌>>=◌}
use dst_go_backend.Platform.Redis.{Redis, call}

module _ (r : Redis) (now : ℕ) where
  -- `EXPIRE` counts in seconds, and `math.ceil(window / 1000)` rounds up.
  unfoldable pub rate_limit_lua : String → ℕ → ℕ → String → r.State → ℕ × r.State
  rate_limit_lua key window limit member s =
      let cleaned = r.zremrangebyscore now key (λ score. leb (score + window) now) s in
      let current_requests = r.zcard now key cleaned in
      let added = r.zadd now key now member cleaned in
      if leb limit current_requests
      then (0, cleaned)
      else (1, r.pexpire now key (1000 * ((window + 999) / 1000)) added)

  unfoldable pub allow : String → ℕ → ℕ → String → Act r.State Bool
  unfolding rate_limit_lua
  allow key limit window member = do
    result ← call r (rate_limit_lua key window limit member)
    pure (result == 1)
