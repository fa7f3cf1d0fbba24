-- ===== src/Laws/Predictions.antt =====
-- src/status.rs: when a verdict is a predicted gap.
use ast_interpreter.Base.{
  ◌≡◌, ◌≢◌, refl, sym, ap, ◌∙◌, ◌↔◌, ◌⊎◌, inl, inr, Bool, true, false, not, String, Option, none,
  some, ◌&&◌, if◌then◌else◌, arith,
}
use ast_interpreter.Error.{Text}
use ast_interpreter.Host.{FieldId, Fields}
use ast_interpreter.Diff.Values.{DiffValue, eqb_DiffValue}
use ast_interpreter.Diff.Errors.{FailureKind, ComparableError}
use ast_interpreter.Diff.Records.{DiffOutcome}
use ast_interpreter.Diff.Compare.{
  Agreement, equivalent, results_equivalent, outcomes_equivalent, outcome_is_tolerated,
  is_coverage_gap, is_panic, is_internal, is_gap_kind,
}
use ast_interpreter.Status.Expected
use ast_interpreter.Status.Expected.{is_allowlisted}
use ast_interpreter.Status.Refusals.{is_field_refusal}
use ast_interpreter.Status.Verdicts.{
  Verdict, Sides, is_hard_kind, refusing_side, is_some_and, is_returned, classify, classify_gap,
  classify_agreement, classify_divergence,
}
use ast_interpreter.Status.Tables.{program_capabilities}
use ast_interpreter.Laws.Capabilities.{Lacks, predicted_gap-Lacks}
use ast_interpreter.Laws.Verdicts.{classify_of_disagrees}

-- A width refusal is an input error or a compile error.
refusal_kind :
    (k : FailureKind) (p q : Bool)
    → elim k [ FailureKind.input_error ↦ p | FailureKind.compile_error ↦ q | _ ↦ false ] ≡ true
    → (is_gap_kind k ≡ false) × (is_hard_kind k ≡ false)
refusal_kind k p q h = ground arith

is_field_refusal_kind :
    (fields : Fields) (error : ComparableError) (detail : Text) (field : FieldId)
    → is_field_refusal fields error detail field ≡ true
    → (is_gap_kind error.kind ≡ false) × (is_hard_kind error.kind ≡ false)
unfolding is_field_refusal
is_field_refusal_kind fields error detail field h = refusal_kind error.kind _ _ h

refused_disagrees :
    (v : DiffValue) (error : ComparableError) (detail : Text)
    → is_gap_kind error.kind ≡ false
    → (¬ (
        outcomes_equivalent (DiffOutcome.returned v) (DiffOutcome.errored error detail)
        ≡ equivalent))
      × (¬ (
          outcomes_equivalent (DiffOutcome.errored error detail) (DiffOutcome.returned v)
          ≡ equivalent))
unfolding outcomes_equivalent results_equivalent is_panic is_internal is_coverage_gap
refused_disagrees v error detail g = (λ h. ground arith, λ h. ground arith)

if_some : (b : Bool) (x field : FieldId) → (if b then some x else none) ≡ some field → b ≡ true
if_some b x field h = ground arith

refusing_side-disagrees :
    (fields : Fields) (a b : DiffOutcome) (sides : Sides) (field : FieldId)
    → refusing_side fields a b sides ≡ some field
    → ¬ (outcomes_equivalent a b ≡ equivalent)
unfolding refusing_side
refusing_side-disagrees fields (DiffOutcome.returned v) (DiffOutcome.errored error detail) sides
      field h =
    let r = if_some (is_field_refusal fields error detail sides.b) sides.b field h in
    (refused_disagrees v error detail (is_field_refusal_kind fields error detail sides.b r).0).0
refusing_side-disagrees fields (DiffOutcome.errored error detail) (DiffOutcome.returned v) sides
      field h =
    let r = if_some (is_field_refusal fields error detail sides.a) sides.a field h in
    (refused_disagrees v error detail (is_field_refusal_kind fields error detail sides.a r).0).1
refusing_side-disagrees fields (DiffOutcome.returned v) (DiffOutcome.returned w) sides field h =
    ground arith
refusing_side-disagrees fields (DiffOutcome.errored e d) (DiffOutcome.errored f g) sides field h =
    ground arith

classify_gap_not_predicted :
    (name : String) (a b : DiffOutcome) → classify_gap name a b ≢ Verdict.predicted_gap
unfolding classify_gap
classify_gap_not_predicted name a b =
    let cases : (p q r : Bool)
        → (if p
            then Verdict.coverage_gap
            else if q
            then Verdict.coverage_gap
            else if r
            then Verdict.field_dependent
            else Verdict.unexpected_gap)
          ≢ Verdict.predicted_gap =
      λ p q r. ground arith in
    cases (is_coverage_gap a && is_coverage_gap b)
      (not (is_returned (if is_coverage_gap a then b else a))) (is_allowlisted name)

classify_agreement_not_predicted :
    (a b : DiffOutcome) → classify_agreement a b ≢ Verdict.predicted_gap
unfolding classify_agreement
classify_agreement_not_predicted (DiffOutcome.returned x) (DiffOutcome.returned y) =
    let cases : (p : Bool)
        → (if p then Verdict.equal_modulo_field else Verdict.equal) ≢ Verdict.predicted_gap =
      λ p. ground arith in
    cases (not (eqb_DiffValue x y))
classify_agreement_not_predicted (DiffOutcome.returned x) (DiffOutcome.errored e d) = ground arith
classify_agreement_not_predicted (DiffOutcome.errored e d) b = ground arith

-- What a pair that agrees is classified as.
pub classify_of_agrees :
    (fields : Fields) (name : String) (a b : DiffOutcome) (sides : Sides)
    → outcomes_equivalent a b ≡ equivalent
    → classify fields name a b sides
      ≡ (if outcome_is_tolerated a b then classify_gap name a b else classify_agreement a b)
unfolding classify
classify_of_agrees fields name a b sides e = ground arith

agreement_not_predicted :
    (fields : Fields) (name : String) (a b : DiffOutcome) (sides : Sides)
    → outcomes_equivalent a b ≡ equivalent
    → classify fields name a b sides ≢ Verdict.predicted_gap
agreement_not_predicted fields name a b sides e h =
    let cases : (t : Bool) (g k : Verdict)
        → g ≢ Verdict.predicted_gap
        → k ≢ Verdict.predicted_gap
        → (if t then g else k) ≢ Verdict.predicted_gap =
      λ t g k m n. ground arith in
    cases (outcome_is_tolerated a b) _ _ (classify_gap_not_predicted name a b)
      (classify_agreement_not_predicted a b) (sym (classify_of_agrees fields name a b sides e) ∙ h)

predicted_iff :
    (o : Option FieldId) (p : FieldId → Bool) (l : Bool)
    → ((if is_some_and o p
          then Verdict.predicted_gap
          else if l
          then Verdict.field_dependent
          else Verdict.divergence)
        ≡ Verdict.predicted_gap)
      ↔ ((field : FieldId) × ((o ≡ some field) × (p field ≡ true)))
predicted_iff none p l = (λ h. ground arith, λ (f, (e, _)). ground arith)
predicted_iff (some field) p l = (λ h. (field, (refl, ground arith)), λ (f, (e, h)). ground arith)

classify_divergence_iff :
    (fields : Fields) (name : String) (a b : DiffOutcome) (sides : Sides)
    → (classify_divergence fields name a b sides ≡ Verdict.predicted_gap) ↔ (
        (field : FieldId) × ((refusing_side fields a b sides ≡ some field)
          × (Expected.predicted_gap fields name field ≡ true)))
unfolding classify_divergence
classify_divergence_iff fields name a b sides =
    predicted_iff (refusing_side fields a b sides) (Expected.predicted_gap fields name) _

pub agreement_cases : (c : Agreement) → (c ≡ equivalent) ⊎ (¬ (c ≡ equivalent))
agreement_cases c = ground arith

-- The side with an error, whose field refuses the program by `is_field_refusal`, where the other side
-- returns a value.
abbrev pub RefusedBy : Fields → DiffOutcome → DiffOutcome → Sides → FieldId → Type 0
RefusedBy fields (DiffOutcome.returned _) (DiffOutcome.errored error detail) sides field =
    (field ≡ sides.b) × (is_field_refusal fields error detail field ≡ true)
RefusedBy fields (DiffOutcome.errored error detail) (DiffOutcome.returned _) sides field =
    (field ≡ sides.a) × (is_field_refusal fields error detail field ≡ true)
RefusedBy fields _ _ sides field = ⊥

if_some_iff :
    (p : FieldId → Bool) (x field : FieldId)
    → ((if p x then some x else none) ≡ some field) ↔ ((field ≡ x) × (p field ≡ true))
if_some_iff p x field = (
  λ h.
      let t = if_some (p x) x field h in
      let same : field ≡ x = ground arith in (same, ap p same ∙ t),
  λ (e, t). rw (sym e, t) refl,
)

refusing_side-RefusedBy :
    (fields : Fields) (a b : DiffOutcome) (sides : Sides) (field : FieldId)
    → (refusing_side fields a b sides ≡ some field) ↔ RefusedBy fields a b sides field
unfolding refusing_side
refusing_side-RefusedBy fields (DiffOutcome.returned v) (DiffOutcome.errored error detail) sides
      field =
    if_some_iff (is_field_refusal fields error detail) sides.b field
refusing_side-RefusedBy fields (DiffOutcome.errored error detail) (DiffOutcome.returned v) sides
      field =
    if_some_iff (is_field_refusal fields error detail) sides.a field
refusing_side-RefusedBy fields (DiffOutcome.returned v) (DiffOutcome.returned w) sides field =
    (λ h. ground arith, λ h. absurd h)
refusing_side-RefusedBy fields (DiffOutcome.errored e d) (DiffOutcome.errored f g) sides field =
    (λ h. ground arith, λ h. absurd h)

classify_predicted :
    (fields : Fields) (name : String) (a b : DiffOutcome) (sides : Sides)
    → (classify fields name a b sides ≡ Verdict.predicted_gap) ↔ (
        (field : FieldId) × ((refusing_side fields a b sides ≡ some field)
          × (Expected.predicted_gap fields name field ≡ true)))
classify_predicted fields name a b sides =
    let (d0, d1) = classify_divergence_iff fields name a b sides in
    (
      λ h. elim (agreement_cases (outcomes_equivalent a b)) [
        | inl e ↦ absurd (agreement_not_predicted fields name a b sides e h)
        | inr n ↦ d0 (sym (classify_of_disagrees fields name a b sides n) ∙ h)
      ],
      λ (field, (r, p)).
          classify_of_disagrees fields name a b sides
            (refusing_side-disagrees fields a b sides field r)
          ∙ d1 (field, (r, p)),
    )

-- The verdict is `predicted_gap` exactly when one side returns a value, the field of the other refuses
-- the program by `is_field_refusal`, and the first entry of the program in the table of capabilities has
-- one that does not hold for that field: integers of its width do not fit, or the field has fewer bits.
pub predicted_gap_iff :
    (fields : Fields) (name : String) (a b : DiffOutcome) (sides : Sides)
    → (classify fields name a b sides ≡ Verdict.predicted_gap) ↔ (
        (field : FieldId) × (RefusedBy fields a b sides field
          × Lacks fields name field program_capabilities))
predicted_gap_iff fields name a b sides =
    let (to, from) = classify_predicted fields name a b sides in
    (
      λ h.
          let (field, (r, p)) = to h in
          (
            field,
            (
              (refusing_side-RefusedBy fields a b sides field).0 r,
              (predicted_gap-Lacks fields name field).0 p,
            ),
          ),
      λ (field, (r, p)). from (
        field,
        (
          (refusing_side-RefusedBy fields a b sides field).1 r,
          (predicted_gap-Lacks fields name field).1 p,
        ),
      ),
    )
