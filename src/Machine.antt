-- ===== src/Machine.antt =====
-- crates/machine: the node that runs on each machine.
pub mod Acp
pub mod Codex
pub mod Title
pub mod Watcher
mod Tests
