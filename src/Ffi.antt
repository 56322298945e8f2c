-- ===== src/Ffi.antt =====
-- crates/a2g-ffi/src/lib.rs: the C interface. A C pointer is an `Option`, NULL is `none`.
pub mod Types
pub mod Handle
pub mod Decide
pub mod Sound
pub mod Written
pub mod Approved
