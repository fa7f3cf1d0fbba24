-- ===== src/Diff/Compare.antt =====
-- src/diff.rs: the comparison of values and of outcomes across fields. A message of the source is a
-- tree of its format strings and operands, whose rendering is left out.
use ast_interpreter.Base.{
  ℕ, zero, suc, Bool, true, false, not, ◌==◌, ◌&&◌, ◌||◌, if◌then◌else◌, List,
}
use ast_interpreter.Base.Int.{ℤ, eqb_ℤ}
use ast_interpreter.Base.Search.{eqb_text}
use ast_interpreter.Eval.Scalar.{eqb_Bool}
use ast_interpreter.Diff.Values.{DiffValue, DiffValues}
use ast_interpreter.Diff.Errors.{FailureKind, ComparableError, eqb_FailureKind}
use ast_interpreter.Diff.Records.{DiffOutcome}

-- "array" or "tuple".
pub data Aggregate : Type 0 where
  array tuple : Aggregate

pub data Mismatch : Type 0 where
  bool_differs : Bool → Bool → Mismatch
  string_differs bytes_differ : List ℕ → List ℕ → Mismatch
  integer_differs : (signed : Bool) → (bits : ℕ) → ℤ → (signed' : Bool) → (bits' : ℕ) → ℤ → Mismatch
  shape_differs : DiffValue → DiffValue → Mismatch
  length_differs : Aggregate → ℕ → ℕ → Mismatch
  within : Aggregate → (index : ℕ) → Mismatch → Mismatch

pub data Comparison : Type 0 where
  same : Comparison
  differs : Mismatch → Comparison

abbrev pub same_if : Bool → Mismatch → Comparison
same_if true m = same
same_if false m = differs m

unfoldable pub count : DiffValues → ℕ
count DiffValues.none = 0
count (DiffValues.more _ vs) = suc (count vs)

abbrev pub located : Aggregate → ℕ → Comparison → Comparison → Comparison
located kind i same rest = rest
located kind i (differs m) rest = differs (within kind i m)

unfoldable mutual
  pub values_equivalent : DiffValue → DiffValue → Comparison
  values_equivalent (DiffValue.field _) (DiffValue.field _) = same
  values_equivalent DiffValue.function DiffValue.function = same
  values_equivalent DiffValue.unit DiffValue.unit = same
  values_equivalent (DiffValue.bool x) (DiffValue.bool y) =
      same_if (eqb_Bool x y) (bool_differs x y)
  values_equivalent (DiffValue.str x) (DiffValue.str y) =
      same_if (eqb_text x y) (string_differs x y)
  values_equivalent (DiffValue.bytes x) (DiffValue.bytes y) =
      same_if (eqb_text x y) (bytes_differ x y)
  values_equivalent (DiffValue.int s b v) (DiffValue.int t c w) =
      same_if (eqb_Bool s t && (b == c && eqb_ℤ v w)) (integer_differs s b v t c w)
  values_equivalent (DiffValue.array xs) (DiffValue.array ys) =
      let each = elements_equivalent Aggregate.array zero xs ys in
      if count xs == count ys
      then each
      else differs (length_differs Aggregate.array (count xs) (count ys))
  values_equivalent (DiffValue.tuple xs) (DiffValue.tuple ys) =
      let each = elements_equivalent Aggregate.tuple zero xs ys in
      if count xs == count ys
      then each
      else differs (length_differs Aggregate.tuple (count xs) (count ys))
  values_equivalent x y = differs (shape_differs x y)

  -- The loop of `elementwise` from an index on, over the elements zipped.
  pub elements_equivalent : Aggregate → ℕ → DiffValues → DiffValues → Comparison
  elements_equivalent kind i (DiffValues.more x xs) (DiffValues.more y ys) =
      located kind i (values_equivalent x y) (elements_equivalent kind (suc i) xs ys)
  elements_equivalent kind i _ _ = same

abbrev pub is_kind : DiffOutcome → FailureKind → Bool
is_kind (DiffOutcome.returned _) kind = false
is_kind (DiffOutcome.errored error _) kind = eqb_FailureKind error.kind kind

unfoldable pub is_panic : DiffOutcome → Bool
is_panic o = is_kind o FailureKind.panic

unfoldable pub is_internal : DiffOutcome → Bool
is_internal o = is_kind o FailureKind.internal

abbrev pub is_gap_kind : FailureKind → Bool
is_gap_kind (FailureKind.unsupported _) = true
is_gap_kind _ = false

unfoldable pub is_coverage_gap : DiffOutcome → Bool
is_coverage_gap (DiffOutcome.returned _) = false
is_coverage_gap (DiffOutcome.errored error _) = is_gap_kind error.kind

pub data Disagreement : Type 0 where
  panic_outcome internal_outcome : DiffOutcome → DiffOutcome → Disagreement
  value_differs : Mismatch → Disagreement
  first_returned second_returned : ComparableError → Disagreement
  kinds_differ : FailureKind → FailureKind → Disagreement

pub data Agreement : Type 0 where
  equivalent : Agreement
  disagrees : Disagreement → Agreement

abbrev pub of_values : Comparison → Agreement
of_values same = equivalent
of_values (differs m) = disagrees (value_differs m)

unfoldable pub results_equivalent : DiffOutcome → DiffOutcome → Agreement
results_equivalent (DiffOutcome.returned x) (DiffOutcome.returned y) =
    of_values (values_equivalent x y)
results_equivalent (DiffOutcome.returned _) (DiffOutcome.errored error _) =
    disagrees (first_returned error)
results_equivalent (DiffOutcome.errored error _) (DiffOutcome.returned _) =
    disagrees (second_returned error)
results_equivalent (DiffOutcome.errored e _) (DiffOutcome.errored f _) =
    if eqb_FailureKind e.kind f.kind then equivalent else disagrees (kinds_differ e.kind f.kind)

unfoldable pub outcomes_equivalent : DiffOutcome → DiffOutcome → Agreement
unfolding is_panic is_internal is_coverage_gap results_equivalent
outcomes_equivalent a b =
    if is_panic a || is_panic b
    then disagrees (panic_outcome a b)
    else if is_internal a || is_internal b
    then disagrees (internal_outcome a b)
    else if is_coverage_gap a || is_coverage_gap b
    then equivalent
    else results_equivalent a b

unfoldable pub outcome_is_tolerated : DiffOutcome → DiffOutcome → Bool
unfolding is_panic is_internal is_coverage_gap
outcome_is_tolerated a b =
    not (is_panic a)
    && not (is_panic b)
    && not (is_internal a)
    && not (is_internal b)
    && (is_coverage_gap a || is_coverage_gap b)
