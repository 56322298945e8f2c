-- ===== src/Receipt.antt =====
-- crates/a2g-core/src/receipt.rs: receipts of decisions and their chain.
pub mod Types
pub mod Chain
pub mod Sound
