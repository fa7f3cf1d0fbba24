-- ===== src/Laws/Checks.antt =====
-- src/corpus.rs: when a recorded return, the pinned revisions and a checkout pass their checks.
use ast_interpreter.Base.{
  ◌≡◌, refl, sym, ◌∙◌, ◌↔◌, Bool, true, false, not, List, [], ◌∷◌, Option, none, some, ◌==◌, ==_iff,
  ◌||◌, if◌then◌else◌, arith,
}
use ast_interpreter.Base.Search.{eqb_text, eqb_text_iff}
use ast_interpreter.Error.{Text}
use ast_interpreter.Host.{FieldId}
use ast_interpreter.Diff.Values.{DiffValue, eqb_DiffValue}
use ast_interpreter.Diff.Errors.{ComparableError}
use ast_interpreter.Diff.Records.{StepOutcome}
use ast_interpreter.Diff.Rendering.{Escapes}
use ast_interpreter.Diff.Compare.{Comparison, Mismatch, same, differs, values_equivalent}
use ast_interpreter.Corpus.Run.{compare_with_recorded}
use ast_interpreter.Corpus.Checkout.{accepted, find_odd, pin_disagreement, checkout_mismatch}
use ast_interpreter.Laws.Comparison.{erase, values_equivalent_iff}
use ast_interpreter.Laws.Outcomes.{eqb_DiffValue_iff}

checked_iff :
    (c : Comparison) (b : Bool) (f : Mismatch → ComparableError × Text) (e : ComparableError)
    (d : Text)
    → (elim c [
      | differs m ↦ StepOutcome.failed (f m).0 (f m).1
      | same ↦ if b then StepOutcome.passed else StepOutcome.failed e d
    ]
        ≡ StepOutcome.passed)
      ↔ ((c ≡ same) × (b ≡ true))
checked_iff same true f e d = ground arith
checked_iff same false f e d = ground arith
checked_iff (differs m) b f e d = ground arith

exact_iff : (b c : Bool) → ((not b || c) ≡ true) ↔ (b ≡ true → c ≡ true)
exact_iff b c = ground arith

-- A return passes against the recorded one exactly when the two are equal up to `Field` payloads, and
-- equal under bn254.
pub compare_with_recorded_iff :
    (escapes : Escapes) (bn254 : FieldId) (actual expected : DiffValue) (field : FieldId)
    → (compare_with_recorded escapes bn254 actual expected field ≡ StepOutcome.passed)
      ↔ ((erase actual ≡ erase expected) × (field ≡ bn254 → actual ≡ expected))
unfolding compare_with_recorded
compare_with_recorded_iff escapes bn254 actual expected field =
    let (c0, c1) =
      checked_iff (values_equivalent actual expected)
        (not (field == bn254) || eqb_DiffValue actual expected) _ _ _ in
    let (v0, v1) = values_equivalent_iff actual expected in
    let (e0, e1) = eqb_DiffValue_iff actual expected in
    let (x0, x1) = exact_iff (field == bn254) (eqb_DiffValue actual expected) in
    let (n0, n1) = ==_iff field bn254 in
    (
      λ h. let (a, b) = c0 h in (v0 a, λ k. e0 (x0 b (n1 k))),
      λ (a, b). c1 (v1 a, x1 (λ k. e1 (b (n0 k)))),
    )

-- Every revision of the list is the given one.
abbrev pub AllAre : Text → List Text → Type 0
AllAre stamp [] = Unit
AllAre stamp (rev ∷ revs) = (rev ≡ stamp) × AllAre stamp revs

find_odd_iff : (first : Text) (revs : List Text) → (find_odd first revs ≡ none) ↔ AllAre first revs
find_odd_iff first [] = (λ h. tt, λ h. refl)
find_odd_iff first (rev ∷ revs) =
    let p = eqb_text_iff rev first in let q = find_odd_iff first revs in ground arith

AllAre-subst : (a b : Text) (revs : List Text) → a ≡ b → AllAre a revs → AllAre b revs
AllAre-subst a b [] e h = tt
AllAre-subst a b (rev ∷ revs) e (p, h) = (p ∙ e, AllAre-subst a b revs e h)

pinned_iff :
    (first : Text) (revs : List Text) (stamp : Text)
    → (pin_disagreement (first ∷ revs) stamp ≡ accepted)
      ↔ ((find_odd first (first ∷ revs) ≡ none) × (eqb_text first stamp ≡ true))
unfolding pin_disagreement
pinned_iff first revs stamp = ground arith

-- The pins agree exactly when there is one, and every one is the compiler's own revision.
pub pin_disagreement_iff :
    (revs : List Text) (stamp : Text)
    → (pin_disagreement revs stamp ≡ accepted) ↔ ((¬ (revs ≡ [])) × AllAre stamp revs)
unfolding pin_disagreement
pin_disagreement_iff [] stamp = (λ h. ground arith, λ (n, h). absurd (n refl))
pin_disagreement_iff (first ∷ revs) stamp =
    let (p0, p1) = pinned_iff first revs stamp in
    let (f0, f1) = find_odd_iff first (first ∷ revs) in
    let (t0, t1) = eqb_text_iff first stamp in
    (
      λ h.
          let (a, b) = p0 h in
          (λ e. ground arith, AllAre-subst first stamp (first ∷ revs) (t0 b) (f0 a)),
      λ (n, (e, h)). p1 (f1 (AllAre-subst stamp first (first ∷ revs) (sym e) (e, h)), t1 e),
    )

-- A checkout is accepted exactly when it is at the compiler's revision and has no local change.
pub checkout_mismatch_iff :
    (head : Option Text) (stamp : Text) (dirty : List Text)
    → (checkout_mismatch head stamp dirty ≡ accepted) ↔ ((head ≡ some stamp) × (dirty ≡ []))
unfolding checkout_mismatch
checkout_mismatch_iff none stamp dirty = ground arith
checkout_mismatch_iff (some head) stamp [] = let p = eqb_text_iff head stamp in ground arith
checkout_mismatch_iff (some head) stamp (c ∷ dirty) = ground arith
