-- ===== src/Registry.antt =====
-- The registry of agents: internal/registry.
pub mod Tests
pub mod Codec
pub mod Store
mod Rows
pub mod Writes
pub mod History
pub mod Reads
