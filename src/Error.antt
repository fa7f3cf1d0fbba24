-- ===== src/Error.antt =====
-- src/error.rs: the failures of the interpreter, and the outcome of a computation that has no state.
-- A message holds the fixed text of the source's format string; the operands that the source
-- prints into it are left out, except in assertion messages, which programs can observe, and in the
-- errors of the bridge from `Prover.toml`, which the verdicts of the report read.
use ast_interpreter.Base.{ℕ, String, List, Option}

-- Rust text as its code points.
abbrev pub Text : Type 0
Text = List ℕ

-- A source location, which the interpreter only passes on.
abbrev pub Location : Type 0
Location = ℕ

pub data InterpretError : Type 0 where
  assertion_failed : Location → Option Text → InterpretError
  overflow : String → InterpretError
  division_by_zero : InterpretError
  value_out_of_range : String → InterpretError
  invalid_input : String → InterpretError
  type_error : String → InterpretError
  unsupported : String → InterpretError
  internal : String → InterpretError

-- `Result<A, InterpretError>`, or a panic of the host program.
pub data Result {ℓ} (A : Type ℓ) : Type ℓ where
  panic : Result A
  err : InterpretError → Result A
  ok : A → Result A

-- `?`: an error or a panic ends the function.
abbrev pub continued {ℓ κ} : {A : Type ℓ} {B : Type κ} → (A → Result B) → Result A → Result B
continued rest panic = panic
continued rest (err error) = err error
continued rest (ok value) = rest value

infixl 5 ◌>>=◌
abbrev pub ◌>>=◌ {ℓ κ} : {A : Type ℓ} {B : Type κ} → Result A → (A → Result B) → Result B
result >>= rest = continued rest result

-- `Option::ok_or`.
abbrev pub ok_or {ℓ} : {A : Type ℓ} → Option A → InterpretError → Result A
ok_or Option.none error = err error
ok_or (Option.some value) error = ok value
