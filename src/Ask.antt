-- ===== src/Ask.antt =====
-- internal/ask: questions of an agent, shown as interactive cards and settled once.
pub mod Types
pub mod Validate
pub mod Broker
pub mod Answer
pub mod Click
pub mod Trace
pub mod Change
pub mod Life
pub mod Outcome
pub mod Open
pub mod Bulk
pub mod Select
pub mod Hook
