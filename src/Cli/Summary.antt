-- ===== src/Cli/Summary.antt =====
-- crates/a2g-cli/src/trust_summary.rs: trust summaries of an agent's decisions over a window.
pub mod Tally
pub mod Ordered
pub mod Merkle
pub mod Binds
pub mod Window
pub mod Sign
pub mod Covered
pub mod Counted
