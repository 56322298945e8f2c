-- ===== src/Hitl.antt =====
-- crates/a2g-core/src/hitl.rs: the two-phase approval types: the pending binding, the approver's
-- grant, and the binding that the gateway signs.
pub mod Types
pub mod Grant
pub mod Binding
pub mod RoundTrip
pub mod Granted
