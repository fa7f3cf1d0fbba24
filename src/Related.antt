-- ===== src/Related.antt =====
-- A property of commands that is closed under the ways in which src/ composes them holds of the
-- whole evaluator. `Closed` lists the ways; the children go through the evaluator once for all.
pub mod Closed
pub mod Cells
pub mod Matching
pub mod Places
pub mod Format
pub mod Intrinsics
pub mod Calls
pub mod Control
pub mod Step
