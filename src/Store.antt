-- ===== src/Store.antt =====
-- internal/state: the stores that survive a restart. The clock is an argument where a time is kept;
-- a store remembers what its file holds, and the JSON of a value is taken to read back as that value.
pub mod Sessions
pub mod Workspaces
pub mod Bindings
pub mod UserGroups
pub mod Reads
