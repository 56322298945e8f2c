-- ===== src/Cli/Commands.antt =====
-- crates/a2g-cli/src/main.rs: the commands that change the ledger, decide, or summarize.
pub mod Types
pub mod Authority
pub mod Govern
pub mod Decide
pub mod Compress
pub mod Reached
pub mod Stopped
pub mod Compressed
pub mod Delegated
