-- ===== src/Diff/Records.antt =====
-- src/diff.rs: the steps of a run, its record and its outcome.
use ast_interpreter.Base.{Option, none, some, [], codes}
use ast_interpreter.Error.{Text}
use ast_interpreter.Diff.Values.{DiffValue}
use ast_interpreter.Diff.Errors.{ComparableError, FailureKind, comparable}

-- `detail` is triage text, which no comparison reads.
pub data DiffOutcome : Type 0 where
  returned : DiffValue → DiffOutcome
  errored : (error : ComparableError) → (detail : Text) → DiffOutcome

pub data StepOutcome : Type 0 where
  passed : StepOutcome
  failed : (error : ComparableError) → (detail : Text) → StepOutcome
  not_run : (reason : Text) → StepOutcome

unfoldable pub failure : StepOutcome → Option ComparableError
failure (StepOutcome.failed error _) = some error
failure _ = none

pub record RunRecord : Type 0 where
  pub source_hash : Text
  pub load : StepOutcome
  pub compile : StepOutcome
  pub interpret : StepOutcome
  pub oracle : StepOutcome
  pub projection : StepOutcome
  pub returned : Option DiffValue
  pub projection_hash : Option Text

-- The failure of a step as an outcome, or what the later steps give.
abbrev pub failed_or : StepOutcome → DiffOutcome → DiffOutcome
failed_or (StepOutcome.failed error detail) later = DiffOutcome.errored error detail
failed_or _ later = later

unfoldable pub neither : DiffOutcome
neither =
    DiffOutcome.errored
      (comparable FailureKind.internal
        (codes "record has neither a returned value nor a failed step"))
      []

-- The returned value, else the first failed step; the oracle and the projection never count.
unfoldable pub outcome : RunRecord → DiffOutcome
unfolding neither
outcome r = elim r.returned [
  | some value ↦ DiffOutcome.returned value
  | none ↦ failed_or r.load (failed_or r.compile (failed_or r.interpret neither))
]
