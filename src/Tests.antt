-- ===== src/Tests.antt =====
-- Runs of the model on concrete inputs, and one instance of each third-party part.
pub mod DemoDb
pub mod Demo
pub mod HubRuns
pub mod AuthRuns
pub mod AgentRuns
pub mod StartRuns
pub mod BootRuns
pub mod SmsRuns
pub mod LimitRuns
pub mod PanelRuns
pub mod RaceRuns
pub mod HttpRuns
pub mod CryptoRuns
