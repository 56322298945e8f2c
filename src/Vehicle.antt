-- ===== src/Vehicle.antt =====
-- crates/a2g-core/src/vehicle.rs: the capability taxonomy of vehicle tools, the physical state of
-- the vehicle and its gates. The children hold the table of VHAL properties, the classifier and
-- what is proved of it, and the attested state.
pub mod Types
pub mod Table
pub mod Classify
pub mod Gate
pub mod Attest
pub mod Laws
pub mod Fresh
