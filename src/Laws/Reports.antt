-- ===== src/Laws/Reports.antt =====
-- src/corpus.rs and src/diff.rs: what the record of a run reports.
use mathlib.Core.Path.{subst}
use ast_interpreter.Base.{
  ℕ, ◌≡◌, refl, sym, ◌∙◌, ◌⊎◌, inl, inr, Bool, false, List, Option, none, some, if◌then◌else◌,
  arith,
}
use ast_interpreter.Error.{Text}
use ast_interpreter.Host.{FieldId}
use ast_interpreter.Diff.Values.{DiffValue}
use ast_interpreter.Diff.Errors.{ComparableError}
use ast_interpreter.Diff.Records.{DiffOutcome, StepOutcome, RunRecord, outcome}
use ast_interpreter.Corpus.Run.{Harness, run_steps}
use ast_interpreter.Corpus.Program.{
  CorpusProgram, workspace_record, normalize_record, normalized, run_record,
}
use ast_interpreter.Corpus.Paths.{normalize_step}
use ast_interpreter.Laws.Records.{
  IsPassed, IsFailed, IsIdle, Ended, at_load, at_compile, at_interpret, completed, run_steps-Ended,
}

-- What the comparison across fields sees of an ended run: its value, or the failure of a step that failed.
pub Reported : RunRecord → Type 0
Reported r =
    ((d : DiffValue) × (r.returned ≡ some d) × (outcome r ≡ DiffOutcome.returned d))
    ⊎ ((error : ComparableError) × (detail : Text) × ((r.load ≡ StepOutcome.failed error detail)
          ⊎ ((r.compile ≡ StepOutcome.failed error detail)
              ⊎ (r.interpret ≡ StepOutcome.failed error detail)))
        × (outcome r ≡ DiffOutcome.errored error detail))

failed_of :
    (step : StepOutcome)
    → IsFailed step
    → (error : ComparableError) × (detail : Text) × (step ≡ StepOutcome.failed error detail)
failed_of (StepOutcome.failed error detail) h = (error, detail, refl)
failed_of StepOutcome.passed h = absurd h
failed_of (StepOutcome.not_run reason) h = absurd h

passed_of : (step : StepOutcome) → IsPassed step → step ≡ StepOutcome.passed
passed_of StepOutcome.passed h = refl
passed_of (StepOutcome.failed error detail) h = absurd h
passed_of (StepOutcome.not_run reason) h = absurd h

outcome-Reported : (r : RunRecord) → Ended r → Reported r
unfolding Reported outcome
outcome-Reported r (at_load f c i o p n) =
    let (error, detail, e) = failed_of r.load f in inr (error, detail, inl e, rw (n, e) refl)
outcome-Reported r (at_compile l f i o p n) =
    let (error, detail, e) = failed_of r.compile f in
    inr (error, detail, inr (inl e), rw (n, passed_of r.load l, e) refl)
outcome-Reported r (at_interpret l c f o n) =
    let (error, detail, e) = failed_of r.interpret f in
    inr (error, detail, inr (inr e), rw (n, passed_of r.load l, passed_of r.compile c, e) refl)
outcome-Reported r (completed l c i d n) = inl (d, n, rw n refl)

normalize_step-IsPassed :
    (a : ℕ → Bool) (step : StepOutcome) (roots : List (List Text × Text))
    → IsPassed step
    → IsPassed (normalize_step a step roots)
unfolding normalize_step
normalize_step-IsPassed a StepOutcome.passed roots h = tt
normalize_step-IsPassed a (StepOutcome.failed error detail) roots h = absurd h
normalize_step-IsPassed a (StepOutcome.not_run reason) roots h = absurd h

normalize_step-IsFailed :
    (a : ℕ → Bool) (step : StepOutcome) (roots : List (List Text × Text))
    → IsFailed step
    → IsFailed (normalize_step a step roots)
unfolding normalize_step
normalize_step-IsFailed a (StepOutcome.failed error detail) roots h = tt
normalize_step-IsFailed a StepOutcome.passed roots h = absurd h
normalize_step-IsFailed a (StepOutcome.not_run reason) roots h = absurd h

normalize_step-IsIdle :
    (a : ℕ → Bool) (step : StepOutcome) (roots : List (List Text × Text))
    → IsIdle step
    → IsIdle (normalize_step a step roots)
unfolding normalize_step
normalize_step-IsIdle a (StepOutcome.not_run reason) roots h = tt
normalize_step-IsIdle a (StepOutcome.failed error detail) roots h = absurd h
normalize_step-IsIdle a StepOutcome.passed roots h = absurd h

normalize_record-Ended :
    (a : ℕ → Bool) (roots : List (List Text × Text)) (r : RunRecord)
    → Ended r
    → Ended (normalize_record a roots r)
unfolding normalize_record
normalize_record-Ended a roots r (at_load f c i o p n) =
    at_load (normalize_step-IsFailed a _ roots f) (normalize_step-IsIdle a _ roots c)
      (normalize_step-IsIdle a _ roots i) (normalize_step-IsIdle a _ roots o)
      (normalize_step-IsIdle a _ roots p) n
normalize_record-Ended a roots r (at_compile l f i o p n) =
    at_compile (normalize_step-IsPassed a _ roots l) (normalize_step-IsFailed a _ roots f)
      (normalize_step-IsIdle a _ roots i) (normalize_step-IsIdle a _ roots o)
      (normalize_step-IsIdle a _ roots p) n
normalize_record-Ended a roots r (at_interpret l c f o n) =
    at_interpret (normalize_step-IsPassed a _ roots l) (normalize_step-IsPassed a _ roots c)
      (normalize_step-IsFailed a _ roots f) (normalize_step-IsIdle a _ roots o) n
normalize_record-Ended a roots r (completed l c i d n) =
    completed (normalize_step-IsPassed a _ roots l) (normalize_step-IsPassed a _ roots c)
      (normalize_step-IsPassed a _ roots i) d n

normalized-Ended :
    (a : ℕ → Bool) (roots : List (List Text × Text)) (o : Option RunRecord)
    → ((r : RunRecord) → o ≡ some r → Ended r)
    → (r : RunRecord) → normalized a roots o ≡ some r
    → Ended r
unfolding normalized
normalized-Ended a roots none h r e = absurd (ground arith)
normalized-Ended a roots (some q) h r e =
    let inner : (x y : RunRecord) → some x ≡ some y → x ≡ y = λ x y k. ground arith in
    subst Ended (inner (normalize_record a roots q) r e)
      (normalize_record-Ended a roots q (h q refl))

-- The record of a program that is no workspace stops at its first failed step, and its outcome is the
-- value of a completed run, else the failure of the step that failed.
pub run_record-Reported :
    {F S : Type 0} (harness : Harness F S) (is_alphanumeric : ℕ → Bool) (program : CorpusProgram)
    (field : FieldId) (r : RunRecord)
    → program.workspace ≡ false
    → run_record harness is_alphanumeric program field ≡ some r
    → Ended r × Reported r
unfolding run_record
run_record-Reported harness is_alphanumeric program field r w e =
    let steps = run_steps harness program.dir program.source_hash field in
    let chosen : (b : Bool)
        → b ≡ false
        → (if b
            then some (workspace_record program.source_hash)
            else normalized is_alphanumeric program.path_roots steps)
          ≡ normalized is_alphanumeric program.path_roots steps =
      λ b k. rw k refl in
    let ended =
      normalized-Ended is_alphanumeric program.path_roots steps
        (run_steps-Ended harness program.dir program.source_hash field) r
        (sym (chosen program.workspace w) ∙ e) in
    (ended, outcome-Reported r ended)
