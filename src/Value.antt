-- ===== src/Value.antt =====
-- src/value.rs: machine integers, the values that hold them, and the laws of both.
pub mod Ints
pub mod Wrap
pub mod Pattern
pub mod Data
