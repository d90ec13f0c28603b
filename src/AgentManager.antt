-- ===== src/AgentManager.antt =====
-- internal/agent_manager: the panel's side of the agent connections.
pub mod Hub
pub mod Auth
pub mod Service
pub mod Handler
