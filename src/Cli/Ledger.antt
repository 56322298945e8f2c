-- ===== src/Cli/Ledger.antt =====
-- crates/a2g-cli/src/ledger.rs: the ledger's tables and their operations.
pub mod Tables
pub mod Record
pub mod Audit
pub mod Steps
pub mod Revoked
pub mod Chained
