-- ===== src/Prover.antt =====
-- src/input.rs: inputs and the recorded return, from a parsed `Prover.toml`.
pub mod Abi
pub mod Bind
