-- ===== src/Laws.antt =====
-- Theorems on the operations of src/eval.rs, src/intrinsics.rs and src/input.rs.
pub mod Comparison
pub mod Payloads
pub mod Verdicts
pub mod Predictions
pub mod Symmetry
pub mod Violations
pub mod Counts
pub mod Totals
pub mod Tables
pub mod Typing
pub mod After
pub mod Tuples
pub mod Bindings
pub mod Readings
pub mod Contents
pub mod Sourced
pub mod Parameters
pub mod Records
pub mod Reports
pub mod Sources
pub mod Capabilities
pub mod Checks
pub mod Encoding
pub mod Acceptance
pub mod Outcomes
pub mod Complement
pub mod Copying
pub mod Division
pub mod Inputs
pub mod Operators
pub mod Vectors
pub mod Digits
pub mod Globals
pub mod Runs
