-- ===== src/Examples.antt =====
-- Tests of the model, and the theorems at concrete inputs.
mod Programs
mod Values
mod Reports
mod Records
