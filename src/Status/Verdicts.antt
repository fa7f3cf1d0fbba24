-- ===== src/Status/Verdicts.antt =====
-- src/status.rs: the verdict on a pair of outcomes.
use ast_interpreter.Base.{Bool, true, false, not, Option, none, some, String, ◌&&◌, if◌then◌else◌}
use ast_interpreter.Host.{FieldId, Fields}
use ast_interpreter.Diff.Values.{eqb_DiffValue}
use ast_interpreter.Diff.Errors.{FailureKind}
use ast_interpreter.Diff.Records.{DiffOutcome}
use ast_interpreter.Diff.Compare.{
  equivalent, disagrees, outcomes_equivalent, outcome_is_tolerated, is_coverage_gap,
}
use ast_interpreter.Status.Expected
use ast_interpreter.Status.Expected.{is_allowlisted}
use ast_interpreter.Status.Refusals.{is_field_refusal}

pub data Verdict : Type 0 where
  not_run equal equal_modulo_field predicted_gap field_dependent : Verdict
  coverage_gap unexpected_gap divergence : Verdict

abbrev pub is_hard_kind : FailureKind → Bool
is_hard_kind FailureKind.panic = true
is_hard_kind FailureKind.internal = true
is_hard_kind _ = false

unfoldable pub is_hard_failure : DiffOutcome → Bool
is_hard_failure (DiffOutcome.returned _) = false
is_hard_failure (DiffOutcome.errored error _) = is_hard_kind error.kind

unfoldable pub divergence_is_allowlistable : DiffOutcome → DiffOutcome → Bool
unfolding is_hard_failure
divergence_is_allowlistable a b = not (is_hard_failure a) && not (is_hard_failure b)

pub record Sides : Type 0 where
  pub a : FieldId
  pub b : FieldId

-- The field that refuses the program, where one side returns a value.
unfoldable pub refusing_side : Fields → DiffOutcome → DiffOutcome → Sides → Option FieldId
unfolding is_field_refusal
refusing_side fields (DiffOutcome.returned _) (DiffOutcome.errored error detail) sides =
    if is_field_refusal fields error detail sides.b then some sides.b else none
refusing_side fields (DiffOutcome.errored error detail) (DiffOutcome.returned _) sides =
    if is_field_refusal fields error detail sides.a then some sides.a else none
refusing_side fields _ _ sides = none

abbrev pub is_some_and {ℓ} : {A : Type ℓ} → Option A → (A → Bool) → Bool
is_some_and none p = false
is_some_and (some x) p = p x

unfoldable pub classify_divergence : Fields → String → DiffOutcome → DiffOutcome → Sides → Verdict
unfolding refusing_side Expected.predicted_gap is_allowlisted divergence_is_allowlistable
classify_divergence fields name a b sides =
    if is_some_and (refusing_side fields a b sides)
      (λ field. Expected.predicted_gap fields name field)
    then Verdict.predicted_gap
    else if is_allowlisted name && divergence_is_allowlistable a b
    then Verdict.field_dependent
    else Verdict.divergence

abbrev pub is_returned : DiffOutcome → Bool
is_returned (DiffOutcome.returned _) = true
is_returned _ = false

unfoldable pub classify_gap : String → DiffOutcome → DiffOutcome → Verdict
unfolding is_allowlisted
classify_gap name a b =
    if is_coverage_gap a && is_coverage_gap b
    then Verdict.coverage_gap
    else if not (is_returned (if is_coverage_gap a then b else a))
    then Verdict.coverage_gap
    else if is_allowlisted name
    then Verdict.field_dependent
    else Verdict.unexpected_gap

unfoldable pub classify_agreement : DiffOutcome → DiffOutcome → Verdict
classify_agreement (DiffOutcome.returned x) (DiffOutcome.returned y) =
    if not (eqb_DiffValue x y) then Verdict.equal_modulo_field else Verdict.equal
classify_agreement _ _ = Verdict.equal

unfoldable pub classify : Fields → String → DiffOutcome → DiffOutcome → Sides → Verdict
unfolding classify_divergence classify_gap classify_agreement
classify fields name a b sides = elim (outcomes_equivalent a b) [
  | disagrees _ ↦ classify_divergence fields name a b sides
  | equivalent ↦ if outcome_is_tolerated a b then classify_gap name a b else classify_agreement a b
]
