-- ===== src/Proposal.antt =====
-- crates/a2g-core/src/proposal.rs: the life of a proposal before its mandate is signed.
pub mod Types
pub mod Risk
pub mod Review
pub mod Signed
pub mod Cases
pub mod Settled
pub mod Life
