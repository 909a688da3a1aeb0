-- ===== src/Coordinator.antt =====
-- internal/coordinator and internal/globalid: the shards, their states and the global package ids.
pub mod GlobalId
pub mod Repo
pub mod Registry
mod Tests
