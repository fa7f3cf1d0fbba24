-- ===== src/Intrinsics/Hints.antt =====
-- src/intrinsics.rs: `static_assert`, whose message may be a format string with its type metadata.
use ast_interpreter.Base.{ℕ, true, List, [], ◌∷◌, Option, none, some, if◌then◌else◌}
use ast_interpreter.Error.{Text, Location, assertion_failed, internal}
use ast_interpreter.Value.Data.{Value, as_bool, to_list}
use ast_interpreter.Ast.{PrintableType}
use ast_interpreter.Host.{Host}
use ast_interpreter.Machine.{M, ◌>>=◌, pure, fail, lift, ok_or_fail}
use ast_interpreter.Eval.Format.{format_fmt_str, format_value}

module _ {A : Type 0} where
  -- `split_last`.
  unfoldable pub split_last : List A → Option (A × List A)
  split_last [] = none
  split_last (x ∷ []) = some (x, [])
  split_last (x ∷ y ∷ xs) = elim (split_last (y ∷ xs)) [
    | none ↦ none
    | some (l, ys) ↦ some (l, x ∷ ys)
  ]

module _ {F : Type 0} (host : Host F) where
  unfoldable pub capture_type : Value F → M F PrintableType
  capture_type (Value.str bytes) =
      ok_or_fail (host.parse_type bytes) (internal "invalid static_assert capture type: ")
  capture_type _ = fail (internal "static_assert capture type is not a string")

  unfoldable pub capture_types : List (Value F) → M F (List PrintableType)
  unfolding capture_type
  capture_types [] = pure []
  capture_types (v ∷ vs) = do t ← capture_type v; ts ← capture_types vs; pure (t ∷ ts)

  unfoldable pub marked_types : Option (Value F × List (Value F)) → M F (List PrintableType)
  unfolding capture_types
  marked_types (some (Value.bool true, metadata)) = capture_types metadata
  marked_types _ = fail (internal "static_assert format string has no type metadata")

  -- The arguments behind the message end in `true`.
  unfoldable pub metadata_types : List (Value F) → M F (List PrintableType)
  unfolding marked_types split_last
  metadata_types args = marked_types (split_last args)

  unfoldable pub static_message : ℕ → List (Value F) → M F (Option Text)
  unfolding metadata_types
  static_message n (_ ∷ Value.str bytes ∷ _) = pure (some (host.from_utf8_lossy bytes))
  static_message n (_ ∷ Value.fmt_str fragments captures ∷ rest) = do
    types ← metadata_types rest
    text ← format_fmt_str (format_value host n) fragments (to_list captures) types
    pure (some text)
  static_message n _ = pure none

  unfoldable pub static_assert : ℕ → List (Value F) → Location → M F (Value F)
  unfolding static_message
  static_assert n [] location = fail (internal "static_assert expects a condition")
  static_assert n (condition ∷ args) location = do
    holds ← lift (as_bool condition)
    if holds then pure Value.unit else (do
      message ← static_message n (condition ∷ args)
      fail (assertion_failed location message))
