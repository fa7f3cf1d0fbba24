-- ===== src/Laws/Verdicts.antt =====
-- src/status.rs: what a verdict says of the pair of outcomes it was given.
use ast_interpreter.Base.{
  ◌≡◌, ◌≢◌, refl, sym, ◌∙◌, ◌↔◌, ◌⊎◌, inl, inr, Bool, true, false, not, String, none, ◌&&◌, ◌||◌,
  if◌then◌else◌, arith,
}
use ast_interpreter.Host.{Fields}
use ast_interpreter.Diff.Values.{DiffValue, eqb_DiffValue}
use ast_interpreter.Diff.Errors.{FailureKind, eqb_FailureKind}
use ast_interpreter.Diff.Records.{DiffOutcome}
use ast_interpreter.Diff.Compare.{
  Comparison, equivalent, values_equivalent, same, results_equivalent, outcomes_equivalent,
  outcome_is_tolerated, is_coverage_gap, is_panic, is_internal,
}
use ast_interpreter.Status.Expected.{is_allowlisted}
use ast_interpreter.Status.Refusals.{is_field_refusal}
use ast_interpreter.Status.Verdicts.{
  Verdict, Sides, is_hard_failure, is_hard_kind, divergence_is_allowlistable, refusing_side,
  classify, classify_agreement, classify_divergence,
}
use ast_interpreter.Laws.Comparison.{erase, values_equivalent_iff}
use ast_interpreter.Laws.Outcomes.{eqb_DiffValue_iff, outcomes_equivalent_iff, IsHard}

is_hard_failure_iff : (a : DiffOutcome) → (is_hard_failure a ≡ true) ↔ IsHard a
unfolding is_hard_failure is_panic is_internal eqb_FailureKind
is_hard_failure_iff (DiffOutcome.returned v) = ground arith
is_hard_failure_iff (DiffOutcome.errored error detail) = go error.kind
  where
    go :
        (k : FailureKind)
        → (is_hard_kind k ≡ true)
          ↔ ((eqb_FailureKind k FailureKind.panic || eqb_FailureKind k FailureKind.internal) ≡ true)
    go k = ground arith

-- The field refuses no program by a panic or an internal error.
refusing_side-hard :
    (fields : Fields) (a b : DiffOutcome) (sides : Sides)
    → (is_hard_failure a || is_hard_failure b) ≡ true
    → refusing_side fields a b sides ≡ none
unfolding refusing_side is_field_refusal is_hard_failure
refusing_side-hard fields a b sides h = ground arith

disagrees_of_hard :
    (a b : DiffOutcome)
    → (is_hard_failure a || is_hard_failure b) ≡ true
    → ¬ (outcomes_equivalent a b ≡ equivalent)
disagrees_of_hard a b h e =
    let (na, nb, _) = (outcomes_equivalent_iff a b).0 e in
    let p = is_hard_failure_iff a in let q = is_hard_failure_iff b in ground arith

-- What a pair that disagrees is classified as.
pub classify_of_disagrees :
    (fields : Fields) (name : String) (a b : DiffOutcome) (sides : Sides)
    → ¬ (outcomes_equivalent a b ≡ equivalent)
    → classify fields name a b sides ≡ classify_divergence fields name a b sides
unfolding classify
classify_of_disagrees fields name a b sides n = ground arith

pub classify_divergence-hard :
    (fields : Fields) (name : String) (a b : DiffOutcome) (sides : Sides)
    → (is_hard_failure a || is_hard_failure b) ≡ true
    → classify_divergence fields name a b sides ≡ Verdict.divergence
unfolding classify_divergence divergence_is_allowlistable
classify_divergence-hard fields name a b sides h =
    let listed : (l p q : Bool) → (p || q) ≡ true → (l && (not p && not q)) ≡ false =
      λ l p q e. ground arith in
    rw
      (
        refusing_side-hard fields a b sides h,
        listed (is_allowlisted name) (is_hard_failure a) (is_hard_failure b) h,
      )
      refl

-- A panic or an internal error on either side is a divergence, whatever the tables say.
pub classify-hard :
    (fields : Fields) (name : String) (a b : DiffOutcome) (sides : Sides)
    → (is_hard_failure a || is_hard_failure b) ≡ true
    → classify fields name a b sides ≡ Verdict.divergence
classify-hard fields name a b sides h =
    classify_of_disagrees fields name a b sides (disagrees_of_hard a b h)
    ∙ classify_divergence-hard fields name a b sides h

-- A pair that disagrees is predicted, allowlisted or a divergence.
divergence_cases :
    (p l : Bool)
    → (if p
        then Verdict.predicted_gap
        else if l
        then Verdict.field_dependent
        else Verdict.divergence)
      ≢ Verdict.equal_modulo_field
divergence_cases p l = ground arith

classify_divergence_not_equal :
    (fields : Fields) (name : String) (a b : DiffOutcome) (sides : Sides)
    → classify_divergence fields name a b sides ≢ Verdict.equal_modulo_field
unfolding classify_divergence
classify_divergence_not_equal fields name a b sides = divergence_cases _ _

equivalent_returned_iff :
    (x y : DiffValue)
    → (outcomes_equivalent (DiffOutcome.returned x) (DiffOutcome.returned y) ≡ equivalent)
      ↔ (values_equivalent x y ≡ same)
unfolding outcomes_equivalent results_equivalent is_panic is_internal is_coverage_gap
equivalent_returned_iff x y = ground arith

-- What a pair that agrees is classified as, where no side is a gap.
classify_of_equivalent :
    (fields : Fields) (name : String) (a b : DiffOutcome) (sides : Sides)
    → outcomes_equivalent a b ≡ equivalent
    → outcome_is_tolerated a b ≡ false
    → classify fields name a b sides ≡ classify_agreement a b
unfolding classify
classify_of_equivalent fields name a b sides e t = ground arith

tolerated_returned :
    (x y : DiffValue)
    → outcome_is_tolerated (DiffOutcome.returned x) (DiffOutcome.returned y) ≡ false
unfolding outcome_is_tolerated is_panic is_internal is_coverage_gap
tolerated_returned x y = refl

classify_returned :
    (fields : Fields) (name : String) (x y : DiffValue) (sides : Sides)
    → values_equivalent x y ≡ same
    → classify fields name (DiffOutcome.returned x) (DiffOutcome.returned y) sides
      ≡ (if not (eqb_DiffValue x y) then Verdict.equal_modulo_field else Verdict.equal)
unfolding classify_agreement
classify_returned fields name x y sides e =
    classify_of_equivalent fields name _ _ sides ((equivalent_returned_iff x y).1 e)
      (tolerated_returned x y)

pub comparison_cases : (c : Comparison) → (c ≡ same) ⊎ (¬ (c ≡ same))
comparison_cases c = ground arith

modulo_iff :
    (b : Bool)
    → ((if not b then Verdict.equal_modulo_field else Verdict.equal) ≡ Verdict.equal_modulo_field)
      ↔ (¬ (b ≡ true))
modulo_iff b = ground arith

-- The verdict on two returned values is `equal_modulo_field` exactly when they differ and are equal
-- up to the payloads of `Field` values.
pub equal_modulo_field_iff :
    (fields : Fields) (name : String) (x y : DiffValue) (sides : Sides)
    → (classify fields name (DiffOutcome.returned x) (DiffOutcome.returned y) sides
        ≡ Verdict.equal_modulo_field)
      ↔ ((erase x ≡ erase y) × (x ≢ y))
equal_modulo_field_iff fields name x y sides =
    let (p0, p1) = values_equivalent_iff x y in
    let (q0, q1) = eqb_DiffValue_iff x y in
    let (m0, m1) = modulo_iff (eqb_DiffValue x y) in
    (
      λ h. elim (comparison_cases (values_equivalent x y)) [
        | inl e ↦ (p0 e, λ z. m0 (sym (classify_returned fields name x y sides e) ∙ h) (q1 z))
        | inr n ↦ absurd (
            classify_divergence_not_equal fields name _ _ sides (
              sym (
                classify_of_disagrees fields name _ _ sides
                  (λ k. n ((equivalent_returned_iff x y).0 k)))
              ∙ h))
      ],
      λ (e, n). classify_returned fields name x y sides (p1 e) ∙ m1 (λ z. n (q0 z)),
    )
