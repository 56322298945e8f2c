-- ===== src/Mandate.antt =====
-- crates/a2g-core/src/mandate.rs and cbor.rs: the mandate, its wire envelope, and the check of the
-- envelope's signature.
pub mod Types
pub mod Verify
