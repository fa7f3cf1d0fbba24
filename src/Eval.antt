-- ===== src/Eval.antt =====
-- src/eval.rs: the evaluator.
pub mod Scalar
pub mod Operators
pub mod Cells
pub mod Matching
pub mod Format
pub mod Places
pub mod Assign
pub mod Calls
pub mod Control
pub mod Step
