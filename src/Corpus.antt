-- ===== src/Corpus.antt =====
-- src/corpus.rs: the run of one program, step by step, and the checks of what it runs against.
pub mod Paths
pub mod Steps
pub mod Run
pub mod Program
pub mod Checkout
pub mod Diagnostics
