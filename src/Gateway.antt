-- ===== src/Gateway.antt =====
-- crates/a2g-gateway/src: the enforcing gateway, the only writer of the vehicle bus.
pub mod Crc
pub mod Frames
pub mod Ingest
pub mod Pending
pub mod Types
pub mod Bus
pub mod Check
pub mod Server
pub mod RoundTrip
pub mod Invert
pub mod Served
pub mod Enforced
pub mod Replay
pub mod Restart
pub mod Silent
pub mod Window
