-- ===== src/Cli.antt =====
-- crates/a2g-cli/src: the command line's ledger and what is rebuilt from it.
pub mod Ledger
pub mod Lineage
pub mod Compile
pub mod Compiled
pub mod Sign
pub mod Signed
pub mod Summary
pub mod Commands
