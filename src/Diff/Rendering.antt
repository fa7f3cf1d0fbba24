-- ===== src/Diff/Rendering.antt =====
-- src/diff.rs and src/error.rs: values, failures and steps as text.
use ast_interpreter.Base.{
  ℕ, Bool, true, false, List, [], ◌∷◌, ◌++◌, none, some, if◌then◌else◌, codes,
}
use ast_interpreter.Base.Text.{decimal, decimal_ℤ, join}
use ast_interpreter.Error.{Text, InterpretError}
use ast_interpreter.Diff.Values.{DiffValue, DiffValues}
use ast_interpreter.Diff.Errors.{FailureKind, ComparableError}
use ast_interpreter.Diff.Records.{DiffOutcome, StepOutcome}
use ast_interpreter.Diff.Compare.{Aggregate, Mismatch}

-- What Rust renders by itself: a string and bytes with escapes, and a value by its derived `Debug`.
pub record Escapes : Type 0 where
  pub debug_str : List ℕ → Text
  pub escape_ascii : List ℕ → Text
  pub debug_value : DiffValue → Text

abbrev pub show_bool : Bool → Text
show_bool true = codes "true"
show_bool false = codes "false"

abbrev pub map_decimal : List ℕ → List Text
map_decimal [] = []
map_decimal (n ∷ ns) = decimal n ∷ map_decimal ns

module _ (escapes : Escapes) where
  unfoldable mutual
    pub show_value : DiffValue → Text
    show_value (DiffValue.field v) = v
    show_value (DiffValue.int signed bits value) =
        decimal_ℤ value ++ (if signed then codes "i" else codes "u") ++ decimal bits
    show_value (DiffValue.bool b) = show_bool b
    show_value DiffValue.unit = codes "()"
    show_value (DiffValue.str s) = escapes.debug_str s
    show_value (DiffValue.bytes bytes) = codes "b\"" ++ escapes.escape_ascii bytes ++ codes "\""
    show_value (DiffValue.array xs) = codes "[" ++ join (codes ", ") (show_values xs) ++ codes "]"
    show_value (DiffValue.tuple xs) = codes "(" ++ join (codes ", ") (show_values xs) ++ codes ")"
    show_value DiffValue.function = codes "fn"

    pub show_values : DiffValues → List Text
    show_values DiffValues.none = []
    show_values (DiffValues.more x xs) = show_value x ∷ show_values xs

unfoldable pub show_kind : FailureKind → Text
show_kind FailureKind.project_load = codes "ProjectLoad"
show_kind FailureKind.compile_error = codes "CompileError"
show_kind FailureKind.input_error = codes "InputError"
show_kind (FailureKind.unsupported construct) = codes "Unsupported(" ++ construct ++ codes ")"
show_kind FailureKind.assertion_failed = codes "AssertionFailed"
show_kind FailureKind.overflow = codes "Overflow"
show_kind FailureKind.division_by_zero = codes "DivisionByZero"
show_kind FailureKind.value_out_of_range = codes "ValueOutOfRange"
show_kind FailureKind.type_error = codes "TypeError"
show_kind FailureKind.internal = codes "Internal"
show_kind FailureKind.panic = codes "Panic"
show_kind FailureKind.oracle_mismatch = codes "OracleMismatch"

abbrev pub after_colon : Text → Text → Text
after_colon kind [] = kind
after_colon kind payload = kind ++ codes ": " ++ payload

unfoldable pub show_error : ComparableError → Text
unfolding show_kind
show_error error = after_colon (show_kind error.kind) error.payload

unfoldable pub show_step : StepOutcome → Text
unfolding show_error
show_step StepOutcome.passed = codes "ok"
show_step (StepOutcome.failed error _) = codes "FAIL " ++ show_error error
show_step (StepOutcome.not_run reason) = codes "n/a: " ++ reason

unfoldable pub outcome_summary : Escapes → DiffOutcome → Text
unfolding show_value show_error
outcome_summary escapes (DiffOutcome.returned value) = codes "returned " ++ show_value escapes value
outcome_summary escapes (DiffOutcome.errored error _) =
    codes "errored (" ++ show_error error ++ codes ")"

abbrev pub show_aggregate : Aggregate → Text
show_aggregate Aggregate.array = codes "array"
show_aggregate Aggregate.tuple = codes "tuple"

abbrev pub debug_bytes : List ℕ → Text
debug_bytes bytes = codes "[" ++ join (codes ", ") (map_decimal bytes) ++ codes "]"

-- The text by which `values_equivalent` refuses a pair.
unfoldable pub show_mismatch : Escapes → Mismatch → Text
show_mismatch escapes (Mismatch.bool_differs x y) =
    codes "bool differs: " ++ show_bool x ++ codes " vs " ++ show_bool y
show_mismatch escapes (Mismatch.string_differs x y) =
    codes "string differs: " ++ escapes.debug_str x ++ codes " vs " ++ escapes.debug_str y
show_mismatch escapes (Mismatch.bytes_differ x y) =
    codes "string bytes differ: " ++ debug_bytes x ++ codes " vs " ++ debug_bytes y
show_mismatch escapes (Mismatch.integer_differs s b v t c w) =
    codes "integer differs: "
    ++ decimal_ℤ v
    ++ codes " (s="
    ++ show_bool s
    ++ codes ","
    ++ decimal b
    ++ codes "b) vs "
    ++ decimal_ℤ w
    ++ codes " (s="
    ++ show_bool t
    ++ codes ","
    ++ decimal c
    ++ codes "b)"
show_mismatch escapes (Mismatch.shape_differs x y) =
    codes "shape differs: " ++ escapes.debug_value x ++ codes " vs " ++ escapes.debug_value y
show_mismatch escapes (Mismatch.length_differs kind m n) =
    show_aggregate kind ++ codes " length differs: " ++ decimal m ++ codes " vs " ++ decimal n
show_mismatch escapes (Mismatch.within kind index inner) =
    show_aggregate kind ++ codes "[" ++ decimal index ++ codes "]: " ++ show_mismatch escapes inner

-- `InterpretError`'s `Display`.
unfoldable pub show_interpret_error : InterpretError → Text
show_interpret_error (InterpretError.assertion_failed _ none) = codes "assertion failed"
show_interpret_error (InterpretError.assertion_failed _ (some m)) = codes "assertion failed: " ++ m
show_interpret_error (InterpretError.overflow op) =
    codes "attempt to " ++ codes op ++ codes " with overflow"
show_interpret_error InterpretError.division_by_zero = codes "attempt to divide by zero"
show_interpret_error (InterpretError.value_out_of_range m) = codes "value out of range: " ++ codes m
show_interpret_error (InterpretError.invalid_input m) = codes "invalid input: " ++ codes m
show_interpret_error (InterpretError.type_error m) = codes "type error: " ++ codes m
show_interpret_error (InterpretError.unsupported m) = codes "unsupported construct: " ++ codes m
show_interpret_error (InterpretError.internal m) = codes "internal interpreter error: " ++ codes m
