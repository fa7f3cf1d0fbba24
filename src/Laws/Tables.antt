-- ===== src/Laws/Tables.antt =====
-- src/status.rs: no program is in both tables.
use text.Mathlib.Text.{◌==◌ as str_eq}
use text.Mathlib.TextEquality.{eq_iff as str_eq_iff}
use ast_interpreter.Base.{
  ◌≡◌, refl, sym, ap, ◌∙◌, inl, inr, Bool, true, false, not, String, List, [], ◌∷◌, Option, none,
  some, ◌&&◌, ◌||◌, Bool-cases, arith,
}
use ast_interpreter.Host.{FieldId, Fields}
use ast_interpreter.Capability.{Capability, holds}
use ast_interpreter.Status.Tables.{program_capabilities, known_field_dependent}
use ast_interpreter.Status.Expected
use ast_interpreter.Status.Expected.{any, find, is_allowlisted}

-- Whether a table has an entry for the name.
abbrev names_entry {ℓ} : {A : Type ℓ} → String → List (String × A) → Bool
names_entry name entries = any (λ (entry, _). str_eq entry name) entries

abbrev disjoint {ℓ ℓ'} : {A : Type ℓ} {B : Type ℓ'} → List (String × A) → List (String × B) → Bool
disjoint [] ys = true
disjoint ((name, _) ∷ xs) ys = not (names_entry name ys) && disjoint xs ys

tables_disjoint : disjoint known_field_dependent program_capabilities ≡ true
tables_disjoint = refl

not_iff_false : (a b : Bool) → (not a && b) ≡ true → (a ≡ false) × (b ≡ true)
not_iff_false a b h = ground arith

or_right : (a b : Bool) → a ≡ false → (a || b) ≡ true → b ≡ true
or_right a b e h = ground arith

disjoint-names_entry {ℓ ℓ'} :
    {A : Type ℓ} {B : Type ℓ'} (xs : List (String × A)) (ys : List (String × B)) (name : String)
    → disjoint xs ys ≡ true
    → names_entry name xs ≡ true
    → names_entry name ys ≡ false
disjoint-names_entry [] ys name d h = ground arith
disjoint-names_entry ((entry, _) ∷ xs) ys name d h =
    let (here, rest) = not_iff_false (names_entry entry ys) (disjoint xs ys) d in
    elim (Bool-cases (str_eq entry name)) [
      | inl e ↦ ap (λ (n : String). names_entry n ys) (sym ((str_eq_iff entry name).0 e)) ∙ here
      | inr n ↦ disjoint-names_entry xs ys name rest (or_right _ _ n h)
    ]

find-none {ℓ} : {A : Type ℓ} (p : A → Bool) (xs : List A) → any p xs ≡ false → find p xs ≡ none
find-none p [] h = refl
find-none p (x ∷ xs) h =
    let rest = find-none p xs (ground arith) in
    let first : p x ≡ false = ground arith in rw first rest

-- No capability predicts a gap of a program on the allowlist: the two tables name different programs.
pub allowlisted_not_predicted :
    (fields : Fields) (name : String) (field : FieldId)
    → is_allowlisted name ≡ true
    → Expected.predicted_gap fields name field ≡ false
unfolding is_allowlisted Expected.predicted_gap
allowlisted_not_predicted fields name field h =
    ap
      (λ (o : Option (String × List Capability)). elim o [
        | none ↦ false
        | some (_, tags) ↦ any (λ tag. not (holds fields tag field)) tags
      ])
      (find-none (λ (entry, _). str_eq entry name) program_capabilities
        (disjoint-names_entry known_field_dependent program_capabilities name tables_disjoint h))
