-- ===== src/Config.antt =====
-- internal/config: the settings of the server and of the agent.
pub mod Common
pub mod Server
pub mod Parse
pub mod Agent
