-- ===== src/Laws/Capabilities.antt =====
-- src/status.rs and src/capability.rs: the programs that a field lacks a property for.
use text.Mathlib.Text.{◌==◌ as str_eq}
use text.Mathlib.TextEquality.{eq_iff as str_eq_iff}
use ast_interpreter.Base.{
  ◌≤◌, ◌≡◌, ◌≢◌, refl, ◌↔◌, ◌⊎◌, inl, inr, Bool, true, false, not, String, List, [], ◌∷◌, Option,
  none, some, ◌||◌, Bool-cases, arith,
}
use ast_interpreter.Host.{FieldId, Fields}
use ast_interpreter.Capability.{Capability, unsigned_fits, signed_fits, field_bits_at_least, holds}
use ast_interpreter.Status.Tables.{program_capabilities}
use ast_interpreter.Status.Expected
use ast_interpreter.Status.Expected.{any, find}

-- What a capability asks of a field: that integers of the width fit, or that it has the bits.
abbrev pub Holds : Fields → Capability → FieldId → Type 0
Holds fields (unsigned_fits bits) field = fields.fits_unsigned field bits ≡ true
Holds fields (signed_fits bits) field = fields.fits_unsigned field bits ≡ true
Holds fields (field_bits_at_least bits) field = bits ≤ fields.num_bits field

abbrev pub SomeLacks : Fields → FieldId → List Capability → Type 0
SomeLacks fields field [] = ⊥
SomeLacks fields field (tag ∷ tags) = (¬ Holds fields tag field) ⊎ SomeLacks fields field tags

-- The first entry of the name has a capability that does not hold for the field.
abbrev pub Lacks : Fields → String → FieldId → List (String × List Capability) → Type 0
Lacks fields name field [] = ⊥
Lacks fields name field ((entry, tags) ∷ entries) =
    ((entry ≡ name) × SomeLacks fields field tags)
    ⊎ ((entry ≢ name) × Lacks fields name field entries)

not_holds_iff :
    (fields : Fields) (tag : Capability) (field : FieldId)
    → (not (holds fields tag field) ≡ true) ↔ (¬ Holds fields tag field)
unfolding holds
not_holds_iff fields (unsigned_fits bits) field = (λ h k. ground arith, λ h. ground arith)
not_holds_iff fields (signed_fits bits) field = (λ h k. ground arith, λ h. ground arith)
not_holds_iff fields (field_bits_at_least bits) field = (λ h k. ground arith, λ h. ground arith)

or_iff :
    (b c : Bool) (P Q : Type 0) → ((b ≡ true) ↔ P) → ((c ≡ true) ↔ Q) → ((b || c) ≡ true) ↔ (P ⊎ Q)
or_iff true c P Q (f, g) (h, k) = (λ _. inl (f refl), λ _. refl)
or_iff false c P Q (f, g) (h, k) = (
  λ e. inr (h e),
  λ x. elim x [ inl p ↦ let no : false ≡ true = g p in ground arith | inr q ↦ k q ],
)

any_lacks_iff :
    (fields : Fields) (field : FieldId) (tags : List Capability)
    → (any (λ tag. not (holds fields tag field)) tags ≡ true) ↔ SomeLacks fields field tags
any_lacks_iff fields field [] = (λ h. ground arith, λ h. absurd h)
any_lacks_iff fields field (tag ∷ tags) =
    or_iff _ _ _ _ (not_holds_iff fields tag field) (any_lacks_iff fields field tags)

-- The test of an entry.
abbrev entry_lacks : Fields → FieldId → Option (String × List Capability) → Bool
entry_lacks fields field o = elim o [
  | none ↦ false
  | some (_, tags) ↦ any (λ tag. not (holds fields tag field)) tags
]

find-Lacks_iff :
    (fields : Fields) (name : String) (field : FieldId) (table : List (String × List Capability))
    → (entry_lacks fields field (find (λ (entry, _). str_eq entry name) table) ≡ true)
      ↔ Lacks fields name field table
find-Lacks_iff fields name field [] = (λ h. ground arith, λ h. absurd h)
find-Lacks_iff fields name field ((entry, tags) ∷ table) =
    let (to, from) = any_lacks_iff fields field tags in
    let (later, back) = find-Lacks_iff fields name field table in
    elim (Bool-cases (str_eq entry name)) [
      | inl e ↦
          let same = (str_eq_iff entry name).0 e in
          rw e (
            λ h. inl (same, to h),
            λ x. elim x [ inl (_, p) ↦ from p | inr (n, _) ↦ absurd (n same) ],
          )
      | inr e ↦
          let other : entry ≢ name = λ k. let yes = (str_eq_iff entry name).1 k in ground arith in
          rw e (
            λ h. inr (other, later h),
            λ x. elim x [ inl (k, _) ↦ absurd (other k) | inr (_, p) ↦ back p ],
          )
    ]

pub predicted_gap-Lacks :
    (fields : Fields) (name : String) (field : FieldId)
    → (Expected.predicted_gap fields name field ≡ true)
      ↔ Lacks fields name field program_capabilities
unfolding Expected.predicted_gap
predicted_gap-Lacks fields name field = find-Lacks_iff fields name field program_capabilities
