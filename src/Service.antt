-- ===== src/Service.antt =====
-- internal/service: the use cases of the panel.
pub mod World
pub mod Captcha
pub mod Sms
pub mod Auth
pub mod Server
pub mod Dst
pub mod Task
pub mod Panel
