-- ===== src/Status/Expected.antt =====
-- src/status.rs: the lookups of a program in the tables.
use text.Mathlib.Text.{◌==◌ as str_eq}
use ast_interpreter.Base.{
  Bool, false, not, List, [], ◌∷◌, Option, none, some, String, ◌||◌, if◌then◌else◌,
}
use ast_interpreter.Host.{FieldId, Fields}
use ast_interpreter.Capability.{holds}
use ast_interpreter.Status.Tables.{program_capabilities, known_field_dependent}

abbrev pub any {ℓ} : {A : Type ℓ} → (A → Bool) → List A → Bool
any p [] = false
any p (x ∷ xs) = p x || any p xs

abbrev pub find {ℓ} : {A : Type ℓ} → (A → Bool) → List A → Option A
find p [] = none
find p (x ∷ xs) = let rest = find p xs in if p x then some x else rest

unfoldable pub is_allowlisted : String → Bool
is_allowlisted name = any (λ (entry, _). str_eq entry name) known_field_dependent

-- The first entry for the name counts.
unfoldable pub predicted_gap : Fields → String → FieldId → Bool
predicted_gap fields name field =
    elim (find (λ (entry, _). str_eq entry name) program_capabilities) [
      | none ↦ false
      | some (_, tags) ↦ any (λ tag. not (holds fields tag field)) tags
    ]
