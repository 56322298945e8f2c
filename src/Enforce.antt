-- ===== src/Enforce.antt =====
-- crates/a2g-core/src/enforce.rs: the decision pipeline, its helpers on text, and phase 2 of the
-- approval protocol.
pub mod Paths
pub mod Glob
pub mod Hours
pub mod Types
pub mod Trust
pub mod Steps
pub mod Escalate
pub mod Decide
pub mod Approval
pub mod Allow
pub mod Decision
pub mod Handoff
pub mod Outcome
pub mod Components
pub mod OpenHours
pub mod Canonical
pub mod Climb
