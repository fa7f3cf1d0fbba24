-- ===== src/Corpus/Run.antt =====
-- src/corpus.rs: the record of a program's run. What a run reads of the file system and of the compiler
-- are the parts of `Package`.
use ast_interpreter.Base.{
  ℕ, String, Bool, true, List, [], ◌++◌, Option, none, some, ◌==◌, ◌||◌, not, if◌then◌else◌, codes,
}
use ast_interpreter.Error.{Text}
use ast_interpreter.Ast.{Program}
use ast_interpreter.Value.Data.{Value}
use ast_interpreter.Host.{Host, Context, FieldId}
use ast_interpreter.Machine.{Outcome, returned, failed, M, pure, ◌>>=◌}
use ast_interpreter.Entry.{new_machine, interpret_with_inputs}
use ast_interpreter.Prover.Abi.{Bridge, Abi, Signature}
use ast_interpreter.Prover.Bind.{inputs_from_prover_toml, expected_return_from_prover_toml}
use ast_interpreter.Diff.Values.{DiffValue, eqb_DiffValue, from_value}
use ast_interpreter.Diff.Errors.{FailureKind, ComparableError, comparable, normalize_text}
use ast_interpreter.Diff.Records.{StepOutcome, RunRecord}
use ast_interpreter.Diff.Compare.{same, differs, values_equivalent, is_gap_kind}
use ast_interpreter.Diff.Rendering.{Escapes, show_value, show_mismatch}
use ast_interpreter.Corpus.Steps.{
  Attempt, map_error, Step, value, stopped, run_step, ValidationError, compile_error_of,
  interpret_failure,
}

pub record Validated : Type 0 where
  pub program : Program
  pub main : Signature
  pub abi : Abi
  pub field_id : FieldId

-- A program's directory: how it loads, compiles under a field and projects, and its `Prover.toml`.
pub record Package : Type 0 where
  pub new_project : Attempt Text (Unit {0})
  pub compile : FieldId → Attempt ValidationError Validated
  pub projection_hash : Program → Attempt (ComparableError × Text) Text
  pub prover_toml : Option Text

abbrev pub not_run : String → StepOutcome
not_run reason = StepOutcome.not_run (codes reason)

unfoldable pub compare_with_recorded :
    Escapes → (bn254 : FieldId) → DiffValue → DiffValue → FieldId → StepOutcome
compare_with_recorded escapes bn254 actual expected field =
    elim (values_equivalent actual expected) [
      | differs reason ↦
          StepOutcome.failed
            (comparable FailureKind.oracle_mismatch (normalize_text (show_mismatch escapes reason)))
            (codes "interpreter returned " ++ show_value escapes actual)
      | same ↦
          if not (field == bn254) || eqb_DiffValue actual expected
          then StepOutcome.passed
          else StepOutcome.failed
              (comparable FailureKind.oracle_mismatch
                (codes "field value differs from the recorded return"))
              (codes "interpreter returned "
                ++ show_value escapes actual
                ++ codes ", recorded "
                ++ show_value escapes expected)
    ]

-- A recorded return that the program's types or the field refuse leaves the check not run.
abbrev pub is_tolerated_kind : FailureKind → Bool
is_tolerated_kind FailureKind.input_error = true
is_tolerated_kind kind = is_gap_kind kind

abbrev pub recorded_failure : StepOutcome → StepOutcome
recorded_failure (StepOutcome.failed error detail) =
    if is_tolerated_kind error.kind
    then StepOutcome.not_run (codes "recorded return: " ++ error.payload)
    else StepOutcome.failed error detail
recorded_failure step = step

-- The text of an interpreter's panic is a parameter; a run that the model cuts short has no attempt.
unfoldable pub attempt_of :
    {F A : Type 0} → Text → Outcome F A → Option (Attempt (ComparableError × Text) A)
unfolding interpret_failure
attempt_of message (returned a _) = some (Attempt.done a)
attempt_of message (failed e _) = some (Attempt.refused (interpret_failure e))
attempt_of message Outcome.panicked = some (Attempt.panicked message)
attempt_of message Outcome.out_of_fuel = none

-- A run's own parameters: the crates that it calls, the fuel of the model, and the text of a panic.
pub record Harness (F S : Type 0) : Type 0 where
  pub host : Host F
  pub bridge : Bridge F S
  pub escapes : Escapes
  pub bn254 : FieldId
  pub fuel : ℕ
  pub panic_message : Text

unfoldable pub initial_record : Text → RunRecord
initial_record source_hash = record {
  source_hash = source_hash;
  load = not_run "not attempted";
  compile = not_run "not loaded";
  interpret = not_run "not compiled";
  oracle = not_run "not interpreted";
  projection = not_run "not compiled";
  returned = none;
  projection_hash = none;
}

unfoldable pub with_projection : Step Text → RunRecord → RunRecord
with_projection (value hash) r = record r {
  projection = StepOutcome.passed;
  projection_hash = some hash;
}
with_projection (stopped step) r = record r { projection = step }

module _ {F S : Type 0} (harness : Harness F S) where
  -- An optional value encoded.
  abbrev pub encode_option : Option (Value F) → M F (Option DiffValue)
  encode_option none = pure none
  encode_option (some v) = do d ← from_value harness.host harness.fuel v; pure (some d)

  unfoldable pub recorded_return : Validated → Text → M F (Option DiffValue)
  unfolding expected_return_from_prover_toml from_value
  recorded_return validated src = do
    expected ←
        expected_return_from_prover_toml harness.bridge validated.field_id validated.program
          validated.main validated.abi src
    encode_option expected

  abbrev pub check_recorded : FieldId → DiffValue → Step (Option DiffValue) → StepOutcome
  check_recorded field actual (stopped step) = recorded_failure step
  check_recorded field actual (value none) = not_run "no recorded return"
  check_recorded field actual (value (some expected)) =
      compare_with_recorded harness.escapes harness.bn254 actual expected field

  unfoldable pub oracle_step : Validated → Option Text → DiffValue → Option StepOutcome
  unfolding recorded_return attempt_of run_step compare_with_recorded
  oracle_step validated none actual = some (not_run "no Prover.toml")
  oracle_step validated (some src) actual =
      elim (attempt_of harness.panic_message (recorded_return validated src (new_machine []))) [
        | none ↦ none
        | some tried ↦ some (check_recorded validated.field_id actual (run_step tried))
      ]

  abbrev pub read_inputs : Validated → Option Text → M F (List (Value F))
  read_inputs validated none = pure []
  read_inputs validated (some src) =
      inputs_from_prover_toml harness.bridge validated.field_id validated.program validated.main
        validated.abi src

  abbrev pub context : Validated → Context F
  context validated = record {
    host = harness.host;
    program = validated.program;
    field = validated.field_id;
  }

  -- The inputs read, the program run on them, in the heap that holds their cells, and its value encoded.
  unfoldable pub interpretation : Validated → Option Text → M F DiffValue
  unfolding inputs_from_prover_toml interpret_with_inputs from_value
  interpretation validated prover_src = do
    inputs ← read_inputs validated prover_src
    result ← (λ s. interpret_with_inputs (context validated) harness.fuel s.heap inputs)
    from_value harness.host harness.fuel result

  abbrev pub with_oracle : DiffValue → Option StepOutcome → RunRecord → Option RunRecord
  with_oracle actual none r = none
  with_oracle actual (some oracle) r =
      some (record r { interpret = StepOutcome.passed; oracle = oracle; returned = some actual })

  unfoldable pub with_interpreted :
      Validated → Option Text → Step DiffValue → RunRecord → Option RunRecord
  unfolding oracle_step
  with_interpreted validated prover_src (value actual) r =
      with_oracle actual (oracle_step validated prover_src actual) r
  with_interpreted validated prover_src (stopped step) r = some (record r { interpret = step })

  unfoldable pub with_attempt :
      Validated
      → Option Text
      → Option (Attempt (ComparableError × Text) DiffValue)
      → RunRecord
      → Option RunRecord
  unfolding run_step with_interpreted
  with_attempt validated prover_src none r = none
  with_attempt validated prover_src (some tried) r =
      with_interpreted validated prover_src (run_step tried) r

  unfoldable pub run_validated : Package → Validated → RunRecord → Option RunRecord
  unfolding attempt_of run_step with_projection interpretation with_attempt
  run_validated pkg validated r =
      let projected = with_projection (run_step (pkg.projection_hash validated.program)) r in
      with_attempt validated pkg.prover_toml
        (attempt_of harness.panic_message
          (interpretation validated pkg.prover_toml (new_machine [])))
        projected

  unfoldable pub with_compiled : Package → Step Validated → RunRecord → Option RunRecord
  unfolding run_validated
  with_compiled pkg (value validated) r =
      run_validated pkg validated (record r { compile = StepOutcome.passed })
  with_compiled pkg (stopped step) r = some (record r { compile = step })

  unfoldable pub with_loaded : Package → FieldId → Step (Unit {0}) → RunRecord → Option RunRecord
  unfolding run_step compile_error_of with_compiled
  with_loaded pkg field (value _) r =
      with_compiled pkg
        (run_step
          (map_error (λ (e : ValidationError). (compile_error_of e, e.detail)) (pkg.compile field)))
        (record r { load = StepOutcome.passed })
  with_loaded pkg field (stopped step) r = some (record r { load = step })

  -- `none` is a run that the model's fuel cuts short.
  unfoldable pub run_steps : Package → Text → FieldId → Option RunRecord
  unfolding initial_record run_step with_loaded
  run_steps pkg source_hash field =
      with_loaded pkg field
        (run_step (
          map_error (λ (e : Text). (comparable FailureKind.project_load (normalize_text e), e))
            pkg.new_project))
        (initial_record source_hash)
