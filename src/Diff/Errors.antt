-- ===== src/Diff/Errors.antt =====
-- src/diff.rs: failures by kind and payload.
use ast_interpreter.Base.{ℕ, Bool, [], ◌∷◌, none, some, ◌==◌, ◌||◌, if◌then◌else◌, codes}
use ast_interpreter.Base.Text.{join}
use ast_interpreter.Base.Search.{eqb_text, words_from, trim}
use ast_interpreter.Error.{Text, InterpretError}

pub data FailureKind : Type 0 where
  project_load compile_error input_error : FailureKind
  unsupported : (construct : Text) → FailureKind
  assertion_failed overflow division_by_zero value_out_of_range type_error internal : FailureKind
  panic oracle_mismatch : FailureKind

-- The derived `PartialEq`.
abbrev pub kind_number : FailureKind → ℕ
kind_number FailureKind.project_load = 0
kind_number FailureKind.compile_error = 1
kind_number FailureKind.input_error = 2
kind_number (FailureKind.unsupported _) = 3
kind_number FailureKind.assertion_failed = 4
kind_number FailureKind.overflow = 5
kind_number FailureKind.division_by_zero = 6
kind_number FailureKind.value_out_of_range = 7
kind_number FailureKind.type_error = 8
kind_number FailureKind.internal = 9
kind_number FailureKind.panic = 10
kind_number FailureKind.oracle_mismatch = 11

unfoldable pub eqb_FailureKind : FailureKind → FailureKind → Bool
eqb_FailureKind (FailureKind.unsupported x) (FailureKind.unsupported y) = eqb_text x y
eqb_FailureKind a b = kind_number a == kind_number b

pub record ComparableError : Type 0 where
  pub kind : FailureKind
  pub payload : Text

abbrev pub comparable : FailureKind → Text → ComparableError
comparable kind payload = record { kind = kind; payload = payload }

-- The text before the first of `:`, `'` and `(`.
abbrev pub message_head : Text → Text
message_head [] = []
message_head (c ∷ s) =
    let rest = message_head s in if c == b':' || c == 39 || c == b'(' then [] else c ∷ rest

unfoldable pub normalize_construct : Text → Text
normalize_construct message = trim (message_head message)

unfoldable pub normalize_text : Text → Text
normalize_text text = join (codes " ") (words_from [] text)

unfoldable pub comparable_error_of : InterpretError → ComparableError
unfolding normalize_construct normalize_text
comparable_error_of (InterpretError.assertion_failed _ none) =
    comparable FailureKind.assertion_failed (normalize_text [])
comparable_error_of (InterpretError.assertion_failed _ (some message)) =
    comparable FailureKind.assertion_failed (normalize_text message)
comparable_error_of (InterpretError.overflow op) =
    comparable FailureKind.overflow (normalize_text (codes op))
comparable_error_of InterpretError.division_by_zero =
    comparable FailureKind.division_by_zero (normalize_text [])
comparable_error_of (InterpretError.value_out_of_range m) =
    comparable FailureKind.value_out_of_range (normalize_text (codes m))
comparable_error_of (InterpretError.invalid_input m) =
    comparable FailureKind.input_error (normalize_text (codes m))
comparable_error_of (InterpretError.type_error m) =
    comparable FailureKind.type_error (normalize_text (codes m))
comparable_error_of (InterpretError.unsupported m) =
    comparable (FailureKind.unsupported (normalize_construct (codes m))) (normalize_text (codes m))
comparable_error_of (InterpretError.internal m) =
    comparable FailureKind.internal (normalize_text (codes m))
