-- ===== src/Laws/Records.antt =====
-- src/corpus.rs: how a run ends, as its record says it.
use mathlib.Core.Path.{subst}
use ast_interpreter.Base.{◌≡◌, refl, Option, none, some}
use ast_interpreter.Error.{Text}
use ast_interpreter.Host.{FieldId}
use ast_interpreter.Diff.Values.{DiffValue}
use ast_interpreter.Diff.Errors.{ComparableError}
use ast_interpreter.Diff.Records.{StepOutcome, RunRecord}
use ast_interpreter.Corpus.Steps.{Attempt, done, refused, panicked, Step, value, stopped, run_step}
use ast_interpreter.Corpus.Run.{
  Package, Harness, Validated, initial_record, with_projection, with_oracle, oracle_step,
  with_interpreted, with_attempt, run_validated, with_compiled, with_loaded, run_steps,
}

abbrev pub IsPassed : StepOutcome → Type 0
IsPassed StepOutcome.passed = Unit
IsPassed _ = ⊥

abbrev pub IsFailed : StepOutcome → Type 0
IsFailed (StepOutcome.failed _ _) = Unit
IsFailed _ = ⊥

abbrev pub IsIdle : StepOutcome → Type 0
IsIdle (StepOutcome.not_run _) = Unit
IsIdle _ = ⊥

-- Where a run ends: every step before has passed, and every step after has not run. The projection runs
-- once the program is compiled.
pub data Ended (r : RunRecord) : Type 0 where
  at_load :
      IsFailed r.load
      → IsIdle r.compile
      → IsIdle r.interpret
      → IsIdle r.oracle
      → IsIdle r.projection
      → r.returned ≡ none
      → Ended r
  at_compile :
      IsPassed r.load
      → IsFailed r.compile
      → IsIdle r.interpret
      → IsIdle r.oracle
      → IsIdle r.projection
      → r.returned ≡ none
      → Ended r
  at_interpret :
      IsPassed r.load
      → IsPassed r.compile
      → IsFailed r.interpret
      → IsIdle r.oracle
      → r.returned ≡ none
      → Ended r
  completed :
      IsPassed r.load
      → IsPassed r.compile
      → IsPassed r.interpret
      → (d : DiffValue) → r.returned ≡ some d
      → Ended r

abbrev Each : (RunRecord → Type 0) → Option RunRecord → Type 0
Each P none = Unit
Each P (some r) = P r

-- A step that is stopped has failed.
abbrev StopsFailed : {A : Type 0} → Step A → Type 0
StopsFailed (value a) = Unit
StopsFailed (stopped step) = IsFailed step

run_step-StopsFailed :
    {A : Type 0} (tried : Attempt (ComparableError × Text) A) → StopsFailed (run_step tried)
unfolding run_step
run_step-StopsFailed (done a) = tt
run_step-StopsFailed (refused (error, detail)) = tt
run_step-StopsFailed (panicked message) = tt

module _ {F S : Type 0} (harness : Harness F S) where
  -- The record of a compiled program.
  abbrev IsCompiled : RunRecord → Type 0
  IsCompiled r = IsPassed r.load × IsPassed r.compile × IsIdle r.oracle × (r.returned ≡ none)

  with_projection-IsCompiled :
      (step : Step Text) (r : RunRecord) → IsCompiled r → IsCompiled (with_projection step r)
  unfolding with_projection
  with_projection-IsCompiled (value hash) r h = h
  with_projection-IsCompiled (stopped step) r h = h

  with_oracle-Ended :
      (d : DiffValue) (o : Option StepOutcome) (r : RunRecord)
      → IsCompiled r
      → Each Ended (with_oracle harness d o r)
  with_oracle-Ended d none r h = tt
  with_oracle-Ended d (some oracle) r (l, c, _, _) = completed l c tt d refl

  with_interpreted-Ended :
      (validated : Validated) (prover : Option Text) (step : Step DiffValue) (r : RunRecord)
      → StopsFailed step
      → IsCompiled r
      → Each Ended (with_interpreted harness validated prover step r)
  unfolding with_interpreted
  with_interpreted-Ended validated prover (value d) r f h =
      with_oracle-Ended d (oracle_step harness validated prover d) r h
  with_interpreted-Ended validated prover (stopped step) r f (l, c, o, n) = at_interpret l c f o n

  with_attempt-Ended :
      (validated : Validated) (prover : Option Text)
      (tried : Option (Attempt (ComparableError × Text) DiffValue)) (r : RunRecord)
      → IsCompiled r
      → Each Ended (with_attempt harness validated prover tried r)
  unfolding with_attempt
  with_attempt-Ended validated prover none r h = tt
  with_attempt-Ended validated prover (some tried) r h =
      with_interpreted-Ended validated prover (run_step tried) r (run_step-StopsFailed tried) h

  run_validated-Ended :
      (pkg : Package) (validated : Validated) (r : RunRecord)
      → IsCompiled r
      → Each Ended (run_validated harness pkg validated r)
  unfolding run_validated
  run_validated-Ended pkg validated r h =
      with_attempt-Ended validated pkg.prover_toml _ _
        (with_projection-IsCompiled (run_step (pkg.projection_hash validated.program)) r h)

  abbrev IsLoaded : RunRecord → Type 0
  IsLoaded r =
      IsPassed r.load
      × IsIdle r.interpret
      × IsIdle r.oracle
      × IsIdle r.projection
      × (r.returned ≡ none)

  with_compiled-Ended :
      (pkg : Package) (step : Step Validated) (r : RunRecord)
      → StopsFailed step
      → IsLoaded r
      → Each Ended (with_compiled harness pkg step r)
  unfolding with_compiled
  with_compiled-Ended pkg (value validated) r f (l, i, o, p, n) =
      run_validated-Ended pkg validated (record r { compile = StepOutcome.passed }) (l, tt, o, n)
  with_compiled-Ended pkg (stopped step) r f (l, i, o, p, n) = at_compile l f i o p n

  with_loaded-Ended :
      (pkg : Package) (field : FieldId) (step : Step (Unit {0})) (source_hash : Text)
      → StopsFailed step
      → Each Ended (with_loaded harness pkg field step (initial_record source_hash))
  unfolding initial_record with_loaded
  with_loaded-Ended pkg field (value _) source_hash f =
      with_compiled-Ended pkg _ _ (run_step-StopsFailed _) (tt, tt, tt, tt, refl)
  with_loaded-Ended pkg field (stopped step) source_hash f = at_load f tt tt tt tt refl

  run_steps-Each :
      (pkg : Package) (source_hash : Text) (field : FieldId)
      → Each Ended (run_steps harness pkg source_hash field)
  unfolding run_steps
  run_steps-Each pkg source_hash field =
      with_loaded-Ended pkg field _ source_hash (run_step-StopsFailed _)

  -- A run that the fuel does not cut short stops at its first failed step, and has a value exactly when
  -- it is completed.
  pub run_steps-Ended :
      (pkg : Package) (source_hash : Text) (field : FieldId) (r : RunRecord)
      → run_steps harness pkg source_hash field ≡ some r
      → Ended r
  run_steps-Ended pkg source_hash field r e =
      subst (Each Ended) e (run_steps-Each pkg source_hash field)
