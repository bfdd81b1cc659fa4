-- ===== src/Bridge.antt =====
-- internal/bridge: from an incoming message to a run of the agent, and the commands around it.
pub mod Access
pub mod Commands
pub mod Desk
pub mod Intake
pub mod Message
pub mod Prompt
pub mod Scope
