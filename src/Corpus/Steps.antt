-- ===== src/Corpus/Steps.antt =====
-- src/corpus.rs: one guarded step of a run, and how its failure is recorded.
use ast_interpreter.Base.{[], ◌∷◌, ◌++◌, ◌==◌, if◌then◌else◌, codes}
use ast_interpreter.Base.Search.{trim}
use ast_interpreter.Error.{Text, InterpretError}
use ast_interpreter.Diff.Errors.{
  FailureKind, ComparableError, comparable, normalize_text, comparable_error_of,
}
use ast_interpreter.Diff.Records.{StepOutcome}
use ast_interpreter.Diff.Rendering.{show_interpret_error}

-- How a guarded closure ends: with a value, an error, or a panic with the text of its payload.
pub data Attempt (E A : Type 0) : Type 0 where
  done : A → Attempt E A
  refused : E → Attempt E A
  panicked : (message : Text) → Attempt E A

-- `Result::map_err`.
abbrev pub map_error : {E E' A : Type 0} → (E → E') → Attempt E A → Attempt E' A
map_error f (done a) = done a
map_error f (refused e) = refused (f e)
map_error f (panicked message) = panicked message

pub data Step (A : Type 0) : Type 0 where
  value : A → Step A
  stopped : StepOutcome → Step A

abbrev pub nonblank : Text → Text → Text
nonblank [] other = other
nonblank t other = t

-- The first line that is not blank, of the line so far and the rest of the text.
unfoldable pub first_line : Text → Text → Text
first_line line [] = nonblank (trim line) (codes "panic")
first_line line (c ∷ s) =
    let next = first_line [] s in
    let more = first_line (line ++ c ∷ []) s in if c == 10 then nonblank (trim line) next else more

unfoldable pub run_step : {A : Type 0} → Attempt (ComparableError × Text) A → Step A
unfolding first_line
run_step (done a) = value a
run_step (refused (error, detail)) = stopped (StepOutcome.failed error detail)
run_step (panicked message) = stopped (
    StepOutcome.failed (comparable FailureKind.panic (normalize_text (first_line [] message)))
      message)

-- src/validation_frontend.rs's error, by its accessors.
pub record ValidationError : Type 0 where
  pub summary : Text
  pub detail : Text

unfoldable pub compile_error_of : ValidationError → ComparableError
compile_error_of error = comparable FailureKind.compile_error (normalize_text error.summary)

unfoldable pub interpret_failure : InterpretError → ComparableError × Text
unfolding comparable_error_of show_interpret_error
interpret_failure error = (comparable_error_of error, show_interpret_error error)
