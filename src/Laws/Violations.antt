-- ===== src/Laws/Violations.antt =====
-- src/status.rs: what the report's own invariants say of its rows.
use ast_interpreter.Base.{
  ◌≡◌, refl, ap, ◌∙◌, ◌↔◌, Bool, true, false, String, List, [], ◌∷◌, ◌++◌, Option, none, some,
  if◌then◌else◌, arith,
}
use ast_interpreter.Status.Tables.{
  program_capabilities, known_field_dependent, projection_invariant_fixtures,
}
use ast_interpreter.Base.Search.{eqb_text_iff}
use ast_interpreter.Status.Verdicts.{Verdict}
use ast_interpreter.Status.Rows.{
  Row, Violation, eqb_Verdict, row_of, has_verdict, stale, check, fixture, projection_violation,
  drifted, invariant_violations, not_field_dependent, gap_not_predicted,
}

-- The first row of the name has the verdict, and projects to one hash under both fields.
abbrev pub HasVerdict : List Row → Verdict → String → Type 0
HasVerdict rows verdict name = (r : Row) × ((row_of rows name ≡ some r) × (r.verdict ≡ verdict))

abbrev pub ProjectsAlike : List Row → String → Type 0
ProjectsAlike rows name = (r : Row) × ((row_of rows name ≡ some r) × (r.ast ≡ check))

-- Every entry of a table has the verdict.
abbrev pub AllHave {ℓ} : {A : Type ℓ} → List Row → Verdict → List (String × A) → Type 0
AllHave rows verdict [] = Unit
AllHave rows verdict ((name, _) ∷ entries) =
    HasVerdict rows verdict name × AllHave rows verdict entries

abbrev pub AllProjectAlike : List Row → List String → Type 0
AllProjectAlike rows [] = Unit
AllProjectAlike rows (name ∷ names) = ProjectsAlike rows (fixture name) × AllProjectAlike rows names

pub eqb_Verdict_iff : (v w : Verdict) → (eqb_Verdict v w ≡ true) ↔ (v ≡ w)
unfolding eqb_Verdict
eqb_Verdict_iff v w = ground arith

found_iff :
    (o : Option Row) (verdict : Verdict)
    → (elim o [ none ↦ false | some r ↦ eqb_Verdict r.verdict verdict ] ≡ true)
      ↔ ((r : Row) × ((o ≡ some r) × (r.verdict ≡ verdict)))
found_iff none verdict = (λ h. ground arith, λ (r, (e, _)). ground arith)
found_iff (some r) verdict =
    let (p0, p1) = eqb_Verdict_iff r.verdict verdict in
    let inner : (s : Row) → some r ≡ some s → r ≡ s = λ s e. ground arith in
    (λ h. (r, (refl, p0 h)), λ (s, (e, h)). p1 (ap (λ (t : Row). t.verdict) (inner s e) ∙ h))

has_verdict_iff :
    (rows : List Row) (verdict : Verdict) (name : String)
    → (has_verdict rows verdict name ≡ true) ↔ HasVerdict rows verdict name
unfolding has_verdict
has_verdict_iff rows verdict name = found_iff (row_of rows name) verdict

kept_iff {ℓ} :
    {A : Type ℓ} (b : Bool) (x : A) (xs : List A)
    → ((if b then xs else x ∷ xs) ≡ []) ↔ ((b ≡ true) × (xs ≡ []))
kept_iff b x xs = ground arith

stale_iff {ℓ} :
    {A : Type ℓ} (rows : List Row) (verdict : Verdict) (violation : String → Violation)
    (entries : List (String × A))
    → (stale rows verdict violation entries ≡ []) ↔ AllHave rows verdict entries
stale_iff rows verdict violation [] = (λ _. tt, λ _. refl)
stale_iff rows verdict violation ((name, _) ∷ entries) =
    let (k0, k1) =
      kept_iff (has_verdict rows verdict name) (violation name)
        (stale rows verdict violation entries) in
    let (h0, h1) = has_verdict_iff rows verdict name in
    let (r0, r1) = stale_iff rows verdict violation entries in
    (λ h. let (a, b) = k0 h in (h0 a, r0 b), λ (a, b). k1 (h1 a, r1 b))

append_iff {ℓ} : {A : Type ℓ} (xs ys : List A) → ((xs ++ ys) ≡ []) ↔ ((xs ≡ []) × (ys ≡ []))
append_iff [] ys = ground arith
append_iff (x ∷ xs) ys = ground arith

projection_violation_iff :
    (name : String) (o : Option Row)
    → (projection_violation name o ≡ []) ↔ ((r : Row) × ((o ≡ some r) × (r.ast ≡ check)))
unfolding projection_violation
projection_violation_iff name none = (λ h. ground arith, λ (r, (e, _)). ground arith)
projection_violation_iff name (some r) =
    let inner : (s : Row) → some r ≡ some s → r ≡ s = λ s e. ground arith in
    let clean : (projection_violation name (some r) ≡ []) ↔ (r.ast ≡ check) =
      ground (arith, eqb_text_iff r.ast check) in
    (λ h. (r, (refl, clean.0 h)), λ (s, (e, h)). clean.1 (ap (λ (t : Row). t.ast) (inner s e) ∙ h))

drifted_iff :
    (rows : List Row) (names : List String) → (drifted rows names ≡ []) ↔ AllProjectAlike rows names
unfolding drifted
drifted_iff rows [] = (λ _. tt, λ _. refl)
drifted_iff rows (name ∷ names) =
    let (a0, a1) =
      append_iff (projection_violation (fixture name) (row_of rows (fixture name)))
        (drifted rows names) in
    let (p0, p1) = projection_violation_iff (fixture name) (row_of rows (fixture name)) in
    let (r0, r1) = drifted_iff rows names in
    (λ h. let (a, b) = a0 h in (p0 a, r0 b), λ (a, b). a1 (p1 a, r1 b))

-- A report violates nothing exactly when each entry of the allowlist has a row with the verdict
-- `field_dependent`, each program with capability tags one with `predicted_gap`, and each invariant
-- fixture one whose projections agree.
pub invariant_violations_iff :
    (rows : List Row)
    → (invariant_violations rows ≡ []) ↔ (
        AllHave rows Verdict.field_dependent known_field_dependent
        × AllHave rows Verdict.predicted_gap program_capabilities
        × AllProjectAlike rows projection_invariant_fixtures)
unfolding invariant_violations
invariant_violations_iff rows =
    let (a0, a1) =
      append_iff (stale rows Verdict.field_dependent not_field_dependent known_field_dependent) (
        stale rows Verdict.predicted_gap gap_not_predicted program_capabilities
        ++ drifted rows projection_invariant_fixtures) in
    let (b0, b1) =
      append_iff (stale rows Verdict.predicted_gap gap_not_predicted program_capabilities)
        (drifted rows projection_invariant_fixtures) in
    let (f0, f1) =
      stale_iff rows Verdict.field_dependent not_field_dependent known_field_dependent in
    let (p0, p1) = stale_iff rows Verdict.predicted_gap gap_not_predicted program_capabilities in
    let (d0, d1) = drifted_iff rows projection_invariant_fixtures in
    (
      λ h. let (a, bc) = a0 h in let (b, c) = b0 bc in (f0 a, p0 b, d0 c),
      λ (a, b, c). a1 (f1 a, b1 (p1 b, d1 c)),
    )
