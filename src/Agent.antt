-- ===== src/Agent.antt =====
-- internal/agent: the normalized event stream of the coding agents, and the choice of a session.
pub mod Acp
pub mod AppServer
pub mod Claude
pub mod Codex
pub mod Cursor
pub mod Event
pub mod Grok
pub mod Json
pub mod Kimi
pub mod Marshal
pub mod Match
pub mod OpenCode
pub mod Pi
pub mod Runs
pub mod Stream
