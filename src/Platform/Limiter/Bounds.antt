-- ===== src/Platform/Limiter/Bounds.antt =====
-- The bound that `Allow` of internal/platform/redis/limiter.go keeps.
use dst_go_backend.Platform.Redis.{Redis}
