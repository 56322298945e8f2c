-- ===== src/Enforce/Allow.antt =====
-- What it takes for the pipeline to allow a request: the conditions, one record of them, and the
-- proof that the pipeline allows exactly where they hold.
pub mod Flow
pub mod Conditions
pub mod Passes
pub mod NoHuman
pub mod Exact
