-- ===== src/Tests.antt =====
-- The theorems at concrete inputs, and runs of the definitions.
pub mod Asks
pub mod Access
pub mod Chats
pub mod Desks
pub mod Stores
pub mod Cards
pub mod Agents
pub mod Prompts
