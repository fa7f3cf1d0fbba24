-- ===== src/Status.antt =====
-- src/status.rs: the verdicts on a program's runs under two fields.
pub mod Tables
pub mod Expected
pub mod Refusals
pub mod Verdicts
pub mod Rows
pub mod Report
