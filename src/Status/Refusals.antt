-- ===== src/Status/Refusals.antt =====
-- src/status.rs: the errors by which a field refuses a program for its width.
use ast_interpreter.Base.{
  ℕ, zero, suc, Bool, true, false, not, List, [], ◌∷◌, ◌++◌, ◌==◌, ◌&&◌, ◌||◌, codes,
}
use ast_interpreter.Base.Search.{eqb_text, starts_with, ends_with, contains, match_count, split}
use ast_interpreter.Error.{Text}
use ast_interpreter.Host.{FieldId, Fields}
use ast_interpreter.Diff.Errors.{FailureKind, ComparableError}

unfoldable pub entry_point_error : Text
entry_point_error = codes "Invalid type found in the entry point to a program"

-- A message of the compiler that refuses a type, a constant or a cast for the field's width, or, from
-- the second message on, the line that abbreviates the rest.
unfoldable pub is_width_message : ℕ → Text → Bool
unfolding entry_point_error
is_width_message i m =
    eqb_text m entry_point_error
    || (starts_with m (codes "The value ")
        && contains m (codes " cannot fit into `Field` which has range "))
    || (starts_with m (codes "Values of type ")
        && contains m (codes " can exceed the field modulus, so ")
        && ends_with m (codes " cannot be cast to Field"))
    || ends_with m (codes " is outside the range of the Field type")
    || (not (i == 0) && starts_with m (codes "... and ") && contains m (codes " more (sha256="))

unfoldable pub all_width_messages : ℕ → List Text → Bool
unfolding is_width_message
all_width_messages i [] = true
all_width_messages i (m ∷ ms) = is_width_message i m && all_width_messages (suc i) ms

unfoldable pub is_field_refusal : Fields → ComparableError → Text → FieldId → Bool
unfolding entry_point_error all_width_messages
is_field_refusal fields error detail field = elim error.kind [
  | FailureKind.input_error ↦
      contains error.payload (codes "exceeds the " ++ fields.shown field ++ codes " field modulus")
  | FailureKind.compile_error ↦
      match_count zero entry_point_error error.payload
        == match_count zero
            (codes " bits are not valid entry point types under " ++ fields.shown field) detail
      && all_width_messages zero (split zero (codes " | ") [] error.payload)
  | _ ↦ false
]
