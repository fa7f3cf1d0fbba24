-- ===== src/Laws/Outcomes.antt =====
-- src/diff.rs: which pairs of outcomes the comparison across fields accepts.
use ast_interpreter.Base.{◌≡◌, refl, ◌↔◌, ◌⊎◌, Bool, true, ◌&&◌, ◌||◌, arith}
use ast_interpreter.Base.Search.{eqb_text_iff}
use ast_interpreter.Diff.Values.{DiffValue, DiffValues, eqb_DiffValue, eqb_DiffValues}
use ast_interpreter.Diff.Errors.{FailureKind, eqb_FailureKind}
use ast_interpreter.Diff.Records.{DiffOutcome}
use ast_interpreter.Diff.Compare.{
  Comparison, same, values_equivalent, equivalent, of_values, results_equivalent,
  outcomes_equivalent, outcome_is_tolerated, is_panic, is_internal, is_coverage_gap,
}
use ast_interpreter.Laws.Comparison.{
  erase, values_equivalent_iff, array_iff, tuple_iff, more_iff, eqb_Bool_iff, eqb_ℤ_iff,
}

pub eqb_FailureKind_iff : (a b : FailureKind) → (eqb_FailureKind a b ≡ true) ↔ (a ≡ b)
unfolding eqb_FailureKind
eqb_FailureKind_iff (FailureKind.unsupported x) (FailureKind.unsupported y) =
    ground (arith, eqb_text_iff x y)
eqb_FailureKind_iff _ _ = ground arith

-- What the comparison reads of an outcome: the value up to `Field` payloads, or the failure's kind.
pub data Summary : Type 0 where
  value : DiffValue → Summary
  kind : FailureKind → Summary

abbrev pub summary : DiffOutcome → Summary
summary (DiffOutcome.returned v) = Summary.value (erase v)
summary (DiffOutcome.errored error _) = Summary.kind error.kind

of_values_iff : (c : Comparison) → (of_values c ≡ equivalent) ↔ (c ≡ same)
of_values_iff c = ground arith

value_iff : (x y : DiffValue) → (Summary.value x ≡ Summary.value y) ↔ (x ≡ y)
value_iff x y = ground arith

kind_iff : (x y : FailureKind) → (Summary.kind x ≡ Summary.kind y) ↔ (x ≡ y)
kind_iff x y = ground arith

results_iff : (a b : DiffOutcome) → (results_equivalent a b ≡ equivalent) ↔ (summary a ≡ summary b)
unfolding results_equivalent
results_iff (DiffOutcome.returned x) (DiffOutcome.returned y) =
    let p = of_values_iff (values_equivalent x y) in
    let q = values_equivalent_iff x y in
    let r = value_iff (erase x) (erase y) in (λ h. r.1 (q.0 (p.0 h)), λ h. p.1 (q.1 (r.0 h)))
results_iff (DiffOutcome.returned x) (DiffOutcome.errored e d) = ground arith
results_iff (DiffOutcome.errored e d) (DiffOutcome.returned y) = ground arith
results_iff (DiffOutcome.errored e d) (DiffOutcome.errored f g) =
    ground (arith, eqb_FailureKind_iff e.kind f.kind, kind_iff e.kind f.kind)

-- A panic or an internal error.
abbrev pub IsHard : DiffOutcome → Type 0
IsHard a = (is_panic a || is_internal a) ≡ true

abbrev pub IsGap : DiffOutcome → Type 0
IsGap a = is_coverage_gap a ≡ true

-- Two outcomes compare as equivalent exactly when neither is a panic or an internal error, and one is
-- a coverage gap or both are values equal up to `Field` payloads or failures of one kind.
pub outcomes_equivalent_iff :
    (a b : DiffOutcome)
    → (outcomes_equivalent a b ≡ equivalent)
      ↔ ((¬ IsHard a) × (¬ IsHard b) × (IsGap a ⊎ (IsGap b ⊎ (summary a ≡ summary b))))
unfolding outcomes_equivalent
outcomes_equivalent_iff a b = let r = results_iff a b in ground arith

-- A pair is tolerated exactly when it compares as equivalent and one side is a coverage gap.
pub outcome_is_tolerated_iff :
    (a b : DiffOutcome)
    → (outcome_is_tolerated a b ≡ true)
      ↔ ((outcomes_equivalent a b ≡ equivalent) × (IsGap a ⊎ IsGap b))
unfolding outcome_is_tolerated outcomes_equivalent
outcome_is_tolerated_iff a b = ground arith

both_iff : (a b : Bool) → ((a && b) ≡ true) ↔ ((a ≡ true) × (b ≡ true))
both_iff a b = ground arith

-- The derived equality of values decides equality.
mutual
  unfolding eqb_DiffValue eqb_DiffValues

  pub eqb_DiffValue_iff : (x y : DiffValue) → (eqb_DiffValue x y ≡ true) ↔ (x ≡ y)
  eqb_DiffValue_iff (DiffValue.field x) (DiffValue.field y) = ground (arith, eqb_text_iff x y)
  eqb_DiffValue_iff (DiffValue.int s b v) (DiffValue.int t c w) =
      ground (arith, eqb_Bool_iff s t, eqb_ℤ_iff v w)
  eqb_DiffValue_iff (DiffValue.bool x) (DiffValue.bool y) = ground (arith, eqb_Bool_iff x y)
  eqb_DiffValue_iff DiffValue.unit DiffValue.unit = (λ _. refl, λ _. refl)
  eqb_DiffValue_iff DiffValue.function DiffValue.function = (λ _. refl, λ _. refl)
  eqb_DiffValue_iff (DiffValue.str x) (DiffValue.str y) = ground (arith, eqb_text_iff x y)
  eqb_DiffValue_iff (DiffValue.bytes x) (DiffValue.bytes y) = ground (arith, eqb_text_iff x y)
  eqb_DiffValue_iff (DiffValue.array xs) (DiffValue.array ys) =
      let p = eqb_DiffValues_iff xs ys in
      let q = array_iff xs ys in (λ h. q.1 (p.0 h), λ h. p.1 (q.0 h))
  eqb_DiffValue_iff (DiffValue.tuple xs) (DiffValue.tuple ys) =
      let p = eqb_DiffValues_iff xs ys in
      let q = tuple_iff xs ys in (λ h. q.1 (p.0 h), λ h. p.1 (q.0 h))
  eqb_DiffValue_iff _ _ = ground arith

  pub eqb_DiffValues_iff : (xs ys : DiffValues) → (eqb_DiffValues xs ys ≡ true) ↔ (xs ≡ ys)
  eqb_DiffValues_iff DiffValues.none DiffValues.none = (λ _. refl, λ _. refl)
  eqb_DiffValues_iff DiffValues.none (DiffValues.more y ys) = ground arith
  eqb_DiffValues_iff (DiffValues.more x xs) DiffValues.none = ground arith
  eqb_DiffValues_iff (DiffValues.more x xs) (DiffValues.more y ys) =
      let p = eqb_DiffValue_iff x y in
      let q = eqb_DiffValues_iff xs ys in
      let r = more_iff x y xs ys in
      let s = both_iff (eqb_DiffValue x y) (eqb_DiffValues xs ys) in
      (λ h. let (a, b) = s.0 h in r.1 (p.0 a, q.0 b), λ h. let (a, b) = r.0 h in s.1 (p.1 a, q.1 b))
