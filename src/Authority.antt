-- ===== src/Authority.antt =====
-- crates/a2g-core/src/authority.rs: delegation certificates, chains of them, and their scopes.
pub mod Types
pub mod Scope
pub mod Chain
pub mod Delegate
pub mod Linked
pub mod Verified
pub mod Subset
pub mod Unlimited
pub mod Issued
