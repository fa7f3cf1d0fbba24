-- ===== src/Laws/Sources.antt =====
-- src/corpus.rs: where a record's value comes from.
use mathlib.Core.Path.{subst}
use ast_interpreter.Base.{◌≡◌, refl, ap, ◌∙◌, List, [], Option, none, some, arith}
use ast_interpreter.Error.{Text}
use ast_interpreter.Host.{FieldId}
use ast_interpreter.Machine.{Outcome, Machine, M, and_then}
use ast_interpreter.Value.Data.{Value}
use ast_interpreter.Prover.Bind.{inputs_from_prover_toml}
use ast_interpreter.Entry.{new_machine, interpret_with_inputs}
use ast_interpreter.Diff.Values.{DiffValue, from_value}
use ast_interpreter.Diff.Errors.{ComparableError}
use ast_interpreter.Diff.Records.{StepOutcome, RunRecord}
use ast_interpreter.Corpus.Steps.{
  Attempt, done, refused, panicked, map_error, ValidationError, Step, value, stopped, run_step,
}
use ast_interpreter.Corpus.Run.{
  Package, Harness, Validated, initial_record, with_projection, with_oracle, oracle_step,
  with_interpreted, with_attempt, run_validated, with_compiled, with_loaded, run_steps,
  interpretation, attempt_of, read_inputs,
}

module _ {F S : Type 0} (harness : Harness F S) where
  -- A record with a value has it from the command.
  abbrev FromCommand : Outcome F DiffValue → RunRecord → Type 0
  FromCommand o r =
      (d : DiffValue) → r.returned ≡ some d → (t : Machine F) × (o ≡ Outcome.returned d t)

  abbrev EachFrom : (RunRecord → Type 0) → Option RunRecord → Type 0
  EachFrom P none = Unit
  EachFrom P (some r) = P r

  same_some : (x y : DiffValue) → some x ≡ some y → x ≡ y
  same_some x y e = ground arith

  no_value : (d : DiffValue) (o : Option DiffValue) → o ≡ none → o ≡ some d → ⊥
  no_value d o e e' = ground arith

  with_oracle-FromCommand :
      (o : Outcome F DiffValue) (d : DiffValue) (t : Machine F) (oracle : Option StepOutcome)
      (r : RunRecord)
      → o ≡ Outcome.returned d t
      → EachFrom (FromCommand o) (with_oracle harness d oracle r)
  with_oracle-FromCommand o d t none r e = tt
  with_oracle-FromCommand o d t (some oracle) r e =
      λ d' k. (t, e ∙ ap (λ (x : DiffValue). Outcome.returned x t) (same_some d d' k))

  with_attempt-FromCommand :
      (validated : Validated) (prover : Option Text) (o : Outcome F DiffValue) (r : RunRecord)
      → r.returned ≡ none
      → EachFrom
          (FromCommand o)
          (with_attempt harness validated prover (attempt_of harness.panic_message o) r)
  unfolding with_attempt attempt_of run_step with_interpreted
  with_attempt-FromCommand validated prover (Outcome.returned d t) r n =
      with_oracle-FromCommand (Outcome.returned d t) d t (oracle_step harness validated prover d) r
        refl
  with_attempt-FromCommand validated prover (Outcome.failed e t) r n =
      λ d k. absurd (no_value d r.returned n k)
  with_attempt-FromCommand validated prover Outcome.panicked r n =
      λ d k. absurd (no_value d r.returned n k)
  with_attempt-FromCommand validated prover Outcome.out_of_fuel r n = tt

  -- The program that the package compiles to gives the value.
  abbrev FromProgram : Package → FieldId → RunRecord → Type 0
  FromProgram pkg field r =
      (d : DiffValue)
      → r.returned ≡ some d
      → (validated : Validated) × (pkg.compile field ≡ done validated)
        × ((t : Machine F) × (interpretation harness validated pkg.prover_toml (new_machine [])
              ≡ Outcome.returned d t))

  FromCommand-FromProgram :
      (pkg : Package) (field : FieldId) (validated : Validated) (o : Option RunRecord)
      → pkg.compile field ≡ done validated
      → EachFrom (FromCommand (interpretation harness validated pkg.prover_toml (new_machine []))) o
      → EachFrom (FromProgram pkg field) o
  FromCommand-FromProgram pkg field validated none e h = tt
  FromCommand-FromProgram pkg field validated (some r) e h = λ d k. (validated, e, h d k)

  with_projection-returned :
      (step : Step Text) (r : RunRecord)
      → r.returned ≡ none
      → (with_projection step r).returned ≡ none
  unfolding with_projection
  with_projection-returned (value hash) r n = n
  with_projection-returned (stopped step) r n = n

  run_validated-FromProgram :
      (pkg : Package) (field : FieldId) (validated : Validated) (r : RunRecord)
      → pkg.compile field ≡ done validated
      → r.returned ≡ none
      → EachFrom (FromProgram pkg field) (run_validated harness pkg validated r)
  unfolding run_validated
  run_validated-FromProgram pkg field validated r e n =
      FromCommand-FromProgram pkg field validated _ e (
        with_attempt-FromCommand validated pkg.prover_toml
          (interpretation harness validated pkg.prover_toml (new_machine [])) _
          (with_projection-returned (run_step (pkg.projection_hash validated.program)) r n))

  with_compiled-FromProgram :
      (pkg : Package) (field : FieldId) (tried : Attempt ValidationError Validated)
      (f : ValidationError → ComparableError × Text) (r : RunRecord)
      → pkg.compile field ≡ tried
      → r.returned ≡ none
      → EachFrom
          (FromProgram pkg field)
          (with_compiled harness pkg (run_step (map_error f tried)) r)
  unfolding with_compiled run_step
  with_compiled-FromProgram pkg field (done validated) f r e n =
      run_validated-FromProgram pkg field validated (record r { compile = StepOutcome.passed }) e n
  with_compiled-FromProgram pkg field (refused error) f r e n =
      λ d k. absurd (no_value d r.returned n k)
  with_compiled-FromProgram pkg field (panicked message) f r e n =
      λ d k. absurd (no_value d r.returned n k)

  with_loaded-FromProgram :
      (pkg : Package) (field : FieldId) (step : Step (Unit {0})) (source_hash : Text)
      → EachFrom
          (FromProgram pkg field)
          (with_loaded harness pkg field step (initial_record source_hash))
  unfolding with_loaded initial_record
  with_loaded-FromProgram pkg field (value _) source_hash =
      with_compiled-FromProgram pkg field (pkg.compile field) _ _ refl refl
  with_loaded-FromProgram pkg field (stopped step) source_hash =
      λ d k. absurd (no_value d none refl k)

  run_steps_source :
      (pkg : Package) (source_hash : Text) (field : FieldId) (r : RunRecord)
      → run_steps harness pkg source_hash field ≡ some r
      → FromProgram pkg field r
  unfolding run_steps
  run_steps_source pkg source_hash field r e =
      subst (EachFrom (FromProgram pkg field)) e (with_loaded-FromProgram pkg field _ source_hash)

  and_then_lem :
      {A B : Type 0} (o : Outcome F A) (k : A → M F B) (b : B) (u : Machine F)
      → and_then o k ≡ Outcome.returned b u
      → (a : A) × (t : Machine F) × (o ≡ Outcome.returned a t) × (k a t ≡ Outcome.returned b u)
  and_then_lem (Outcome.returned a t) k b u e = (a, t, refl, e)
  and_then_lem (Outcome.failed x t) k b u e = ground arith
  and_then_lem Outcome.panicked k b u e = ground arith
  and_then_lem Outcome.out_of_fuel k b u e = ground arith

  -- What `main` is run on: the inputs that its Prover.toml binds, in the heap that holds their cells, or
  -- none where the package has no such file.
  abbrev pub IsRead : Validated → Option Text → List (Value F) → Machine F → Type 0
  IsRead validated none inputs s = (inputs ≡ []) × (s ≡ new_machine [])
  IsRead validated (some src) inputs s =
      inputs_from_prover_toml harness.bridge validated.field_id validated.program validated.main
        validated.abi src (new_machine [])
      ≡ Outcome.returned inputs s

  read_inputs-IsRead :
      (validated : Validated) (prover : Option Text) (inputs : List (Value F)) (s : Machine F)
      → read_inputs harness validated prover (new_machine []) ≡ Outcome.returned inputs s
      → IsRead validated prover inputs s
  read_inputs-IsRead validated none inputs s e = (ground arith, ground arith)
  read_inputs-IsRead validated (some src) inputs s e = e

  -- The inputs are read, the program returns `v` on them, and `v` is encoded as `d`.
  abbrev pub IsRun : Validated → Option Text → DiffValue → Type 0
  IsRun validated prover d =
      (inputs : List (Value F)) × (s : Machine F) × IsRead validated prover inputs s
      × ((v : Value F) × (t : Machine F) × (interpret_with_inputs
              (record {
                host = harness.host;
                program = validated.program;
                field = validated.field_id;
              })
              harness.fuel s.heap inputs
            ≡ Outcome.returned v t)
          × ((u : Machine F) × (from_value harness.host harness.fuel v t ≡ Outcome.returned d u)))

  interpretation-IsRun :
      (validated : Validated) (prover : Option Text) (d : DiffValue) (u : Machine F)
      → interpretation harness validated prover (new_machine []) ≡ Outcome.returned d u
      → IsRun validated prover d
  unfolding interpretation
  interpretation-IsRun validated prover d u e =
      let (inputs, s, read, run) = and_then_lem _ _ d u e in
      let (v, t, ran, encoded) = and_then_lem _ _ d u run in
      (inputs, s, read_inputs-IsRead validated prover inputs s read, (v, t, ran, (u, encoded)))

  -- A record with a value has it from a run of the program that the package compiles to: on the inputs
  -- that its Prover.toml binds, or on none without such a file, the program returns a value, and the
  -- record has that value's encoding.
  pub run_steps-IsRun :
      (pkg : Package) (source_hash : Text) (field : FieldId) (r : RunRecord) (d : DiffValue)
      → run_steps harness pkg source_hash field ≡ some r
      → r.returned ≡ some d
      → (validated : Validated) × (pkg.compile field ≡ done validated)
        × IsRun validated pkg.prover_toml d
  run_steps-IsRun pkg source_hash field r d e k =
      let (validated, compiled, (u, run)) = run_steps_source pkg source_hash field r e d k in
      (validated, compiled, interpretation-IsRun validated pkg.prover_toml d u run)
