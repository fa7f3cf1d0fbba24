-- ===== src/Intrinsics.antt =====
-- src/intrinsics.rs: the builtins, one child for each family, and the dispatch on their names.
pub mod Arguments
pub mod Vectors
pub mod Conversions
pub mod Radix
pub mod Hints
pub mod BlackBoxes
pub mod Dispatch
pub mod Bn254
