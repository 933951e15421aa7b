-- ===== src/Storage/Integrity.antt =====
-- The checks of stored objects against their checksums: the queue of tasks and the runner.
pub mod Tasks
pub mod Targets
mod Examples
pub mod Verify
pub mod Runner
