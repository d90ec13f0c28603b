-- ===== src/Platform.antt =====
-- internal/platform and the services behind it.
pub mod Crypto
pub mod Password
pub mod Redis
pub mod Jwt
pub mod Captcha
pub mod Limiter
pub mod Logger
pub mod SmsClient
pub mod Machine
pub mod Drivers
