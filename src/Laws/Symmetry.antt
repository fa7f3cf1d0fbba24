-- ===== src/Laws/Symmetry.antt =====
-- src/status.rs: a verdict does not depend on which field comes first.
use ast_interpreter.Base.{
  ◌≡◌, refl, sym, ◌∙◌, inl, inr, Bool, true, not, String, ◌&&◌, ◌||◌, Bool-cases, if◌then◌else◌,
  arith,
}
use ast_interpreter.Host.{Fields}
use ast_interpreter.Diff.Values.{DiffValue, eqb_DiffValue}
use ast_interpreter.Diff.Records.{DiffOutcome}
use ast_interpreter.Diff.Compare.{equivalent, outcomes_equivalent, outcome_is_tolerated}
use ast_interpreter.Status.Verdicts.{
  Sides, is_hard_failure, divergence_is_allowlistable, refusing_side, classify, classify_gap,
  classify_agreement, classify_divergence,
}
use ast_interpreter.Laws.Outcomes.{eqb_DiffValue_iff, outcomes_equivalent_iff}
use ast_interpreter.Laws.Verdicts.{classify_of_disagrees}
use ast_interpreter.Laws.Predictions.{classify_of_agrees, agreement_cases}

abbrev pub swap : Sides → Sides
swap sides = record { a = sides.b; b = sides.a }

refusing_side-swap :
    (fields : Fields) (a b : DiffOutcome) (sides : Sides)
    → refusing_side fields b a (swap sides) ≡ refusing_side fields a b sides
unfolding refusing_side
refusing_side-swap fields (DiffOutcome.returned v) (DiffOutcome.returned w) sides = refl
refusing_side-swap fields (DiffOutcome.returned v) (DiffOutcome.errored e d) sides = refl
refusing_side-swap fields (DiffOutcome.errored e d) (DiffOutcome.returned v) sides = refl
refusing_side-swap fields (DiffOutcome.errored e d) (DiffOutcome.errored f g) sides = refl

or_comm : (x y : Bool) → (x || y) ≡ (y || x)
or_comm x y = ground arith

and_comm : (x y : Bool) → (x && y) ≡ (y && x)
and_comm x y = ground arith

classify_divergence-swap :
    (fields : Fields) (name : String) (a b : DiffOutcome) (sides : Sides)
    → classify_divergence fields name b a (swap sides) ≡ classify_divergence fields name a b sides
unfolding classify_divergence divergence_is_allowlistable
classify_divergence-swap fields name a b sides =
    rw
      (
        refusing_side-swap fields a b sides,
        and_comm (not (is_hard_failure b)) (not (is_hard_failure a)),
      )
      refl

outcomes_equivalent-swap :
    (a b : DiffOutcome)
    → outcomes_equivalent a b ≡ equivalent
    → outcomes_equivalent b a ≡ equivalent
outcomes_equivalent-swap a b h =
    let (na, nb, c) = (outcomes_equivalent_iff a b).0 h in
    (outcomes_equivalent_iff b a).1 (
      nb,
      na,
      elim c [ inl g ↦ inr (inl g) | inr (inl g) ↦ inl g | inr (inr e) ↦ inr (inr (sym e)) ],
    )

outcome_is_tolerated-swap :
    (a b : DiffOutcome) → outcome_is_tolerated b a ≡ outcome_is_tolerated a b
unfolding outcome_is_tolerated
outcome_is_tolerated-swap a b = ground arith

classify_gap-swap :
    (name : String) (a b : DiffOutcome)
    → outcome_is_tolerated a b ≡ true
    → classify_gap name b a ≡ classify_gap name a b
unfolding classify_gap outcome_is_tolerated
classify_gap-swap name a b h = ground arith

eqb_DiffValue-swap : (x y : DiffValue) → eqb_DiffValue y x ≡ eqb_DiffValue x y
eqb_DiffValue-swap x y =
    let (p0, p1) = eqb_DiffValue_iff x y in
    let (q0, q1) = eqb_DiffValue_iff y x in
    let same_truth : (b c : Bool) → (b ≡ true → c ≡ true) → (c ≡ true → b ≡ true) → c ≡ b =
      λ b c f g. ground arith in
    same_truth (eqb_DiffValue x y) (eqb_DiffValue y x) (λ h. q1 (sym (p0 h))) (λ h. p1 (sym (q0 h)))

classify_agreement-swap : (a b : DiffOutcome) → classify_agreement b a ≡ classify_agreement a b
unfolding classify_agreement
classify_agreement-swap (DiffOutcome.returned x) (DiffOutcome.returned y) =
    rw (eqb_DiffValue-swap x y) refl
classify_agreement-swap (DiffOutcome.returned x) (DiffOutcome.errored e d) = refl
classify_agreement-swap (DiffOutcome.errored e d) (DiffOutcome.returned x) = refl
classify_agreement-swap (DiffOutcome.errored e d) (DiffOutcome.errored f g) = refl

agree :
    (name : String) (a b : DiffOutcome)
    → (if outcome_is_tolerated b a then classify_gap name b a else classify_agreement b a)
      ≡ (if outcome_is_tolerated a b then classify_gap name a b else classify_agreement a b)
agree name a b = elim (Bool-cases (outcome_is_tolerated a b)) [
  | inl e ↦ rw (outcome_is_tolerated-swap a b, e, classify_gap-swap name a b e) refl
  | inr e ↦ rw (outcome_is_tolerated-swap a b, e, classify_agreement-swap a b) refl
]

-- The verdict on a pair of outcomes is that on the pair swapped with its fields.
pub classify-swap :
    (fields : Fields) (name : String) (a b : DiffOutcome) (sides : Sides)
    → classify fields name b a (swap sides) ≡ classify fields name a b sides
classify-swap fields name a b sides = elim (agreement_cases (outcomes_equivalent a b)) [
  | inr n ↦
      classify_of_disagrees fields name b a (swap sides) (λ h. n (outcomes_equivalent-swap b a h))
      ∙ classify_divergence-swap fields name a b sides
      ∙ sym (classify_of_disagrees fields name a b sides n)
  | inl e ↦
      classify_of_agrees fields name b a (swap sides) (outcomes_equivalent-swap a b e)
      ∙ agree name a b
      ∙ sym (classify_of_agrees fields name a b sides e)
]
