-- ===== src/Cli.antt =====
-- crates/cli: the command line.
pub mod Resolve
mod Tests
