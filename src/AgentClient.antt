-- ===== src/AgentClient.antt =====
-- internal/agent_client: the agent on a server, which runs the script and keeps its token.
pub mod Executor
pub mod Identity
pub mod Client
pub mod Connection
pub mod Command
