-- ===== src/Repository/Cache.antt =====
-- internal/repository/cache.
pub mod AuthCache
pub mod SmsCache
pub mod SmsLimit
