-- ===== src/Diff.antt =====
-- src/diff.rs: run records and their comparison across fields.
pub mod Values
pub mod Errors
pub mod Records
pub mod Compare
pub mod Rendering
