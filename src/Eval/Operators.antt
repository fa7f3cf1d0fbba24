-- ===== src/Eval/Operators.antt =====
-- src/eval.rs: unary and binary operators on values, and casts.
use ast_interpreter.Base.{ℕ, Bool, true, false, Option, none, some, not, ◌&&◌, ◌||◌, if◌then◌else◌}
use ast_interpreter.Base.Int.{ℤ, pos, ◌-ℤ◌, negate}
use ast_interpreter.Error.{
  Result, ok, err, type_error, internal, unsupported, division_by_zero, ok_or, ◌>>=◌,
}
use ast_interpreter.Value.Ints.{IntValue, pow2, canonical, checked, unsigned_repr}
use ast_interpreter.Value.Data.{Value}
use ast_interpreter.Ast.{BinaryOpKind, UnaryOp, MonoType}
use ast_interpreter.Host.{Host, FieldId}
use ast_interpreter.Eval.Scalar.{eval_int_binary, eqb_Bool}

-- `!` on an integer: the complement of its pattern.
unfoldable pub int_not : IntValue → Result IntValue
int_not i = canonical i.signed i.bits ((pow2 i.bits -ℤ pos 1) -ℤ unsigned_repr i)

unfoldable pub int_negate : IntValue → Result IntValue
int_negate i = checked i.signed i.bits (negate i.value) "subtract"

unfoldable pub bool_operator : BinaryOpKind → Bool → Bool → Option Bool
bool_operator BinaryOpKind.and a b = some (a && b)
bool_operator BinaryOpKind.or a b = some (a || b)
bool_operator BinaryOpKind.xor a b = some (not (eqb_Bool a b))
bool_operator BinaryOpKind.equal a b = some (eqb_Bool a b)
bool_operator BinaryOpKind.not_equal a b = some (not (eqb_Bool a b))
bool_operator BinaryOpKind.less a b = some (not a && b)
bool_operator BinaryOpKind.less_equal a b = some (not a || b)
bool_operator BinaryOpKind.greater a b = some (a && not b)
bool_operator BinaryOpKind.greater_equal a b = some (a || not b)
bool_operator _ a b = none

module _ {F : Type 0} where
  unfoldable pub same_aggregate_shape : Value F → Value F → Bool
  same_aggregate_shape (Value.array _) (Value.array _) = true
  same_aggregate_shape (Value.tuple _) (Value.tuple _) = true
  same_aggregate_shape (Value.str _) (Value.str _) = true
  same_aggregate_shape Value.unit Value.unit = true
  same_aggregate_shape _ _ = false

  unfoldable pub mismatch : Value F → Value F → Result (Value F)
  unfolding same_aggregate_shape
  mismatch lhs rhs =
      if same_aggregate_shape lhs rhs
      then err (internal "binary on aggregate operands (should lower to a trait-impl call)")
      else err (type_error "binary operator on mismatched operands ")

module _ {F : Type 0} (host : Host F) where
  unfoldable pub field_operator : BinaryOpKind → F → F → Result (Value F)
  field_operator BinaryOpKind.add a b = ok (Value.field (host.add a b))
  field_operator BinaryOpKind.subtract a b = ok (Value.field (host.subtract a b))
  field_operator BinaryOpKind.multiply a b = ok (Value.field (host.multiply a b))
  field_operator BinaryOpKind.divide a b = do
    q ← ok_or (host.checked_div a b) division_by_zero
    ok (Value.field q)
  field_operator BinaryOpKind.equal a b = ok (Value.bool (host.equal a b))
  field_operator BinaryOpKind.not_equal a b = ok (Value.bool (not (host.equal a b)))
  field_operator _ a b = err (type_error "ordering/bitwise operators are not defined on Field")

  unfoldable pub eval_binary : BinaryOpKind → Value F → Value F → Result (Value F)
  unfolding field_operator bool_operator mismatch
  eval_binary op (Value.int a) (Value.int b) = eval_int_binary op a b
  eval_binary op (Value.field a) (Value.field b) = field_operator op a b
  eval_binary op (Value.bool a) (Value.bool b) = do
    c ← ok_or (bool_operator op a b) (type_error "operator not defined on bool")
    ok (Value.bool c)
  eval_binary op lhs rhs = mismatch lhs rhs

  unfoldable pub eval_minus : Value F → Result (Value F)
  unfolding int_negate
  eval_minus (Value.int i) = do j ← int_negate i; ok (Value.int j)
  eval_minus (Value.field f) = ok (Value.field (host.negative f))
  eval_minus _ = err (type_error "cannot negate ")

  unfoldable pub eval_not : Value F → Result (Value F)
  unfolding int_not
  eval_not (Value.bool b) = ok (Value.bool (not b))
  eval_not (Value.int i) = do j ← int_not i; ok (Value.int j)
  eval_not _ = err (type_error "cannot apply `!` to ")

  unfoldable pub eval_unary : UnaryOp → Value F → Result (Value F)
  unfolding eval_minus eval_not
  eval_unary UnaryOp.minus rhs = eval_minus rhs
  eval_unary UnaryOp.not rhs = eval_not rhs
  eval_unary _ rhs = err (internal "reference/dereference reached eval_unary")

  unfoldable pub bigint_to_field : ℤ → FieldId → Result F
  bigint_to_field value id =
      ok_or (host.try_from_bigint value id) (type_error "Field literal is not canonical in ")

  unfoldable pub try_to_field : IntValue → FieldId → Option F
  try_to_field i id =
      if host.fits_unsigned id i.bits then host.try_from_bigint (unsigned_repr i) id else none

  unfoldable pub cast_to_field : Value F → FieldId → Result (Value F)
  unfolding try_to_field
  cast_to_field (Value.int i) id =
      if i.signed
      then err (type_error "cast of a signed integer to Field (rejected by Noir's type checker)")
      else do f ← ok_or (try_to_field i id) (type_error "cast of a u"); ok (Value.field f)
  cast_to_field (Value.bool b) id = ok (Value.field (if b then host.one_of id else host.zero_of id))
  cast_to_field (Value.field f) id = ok (Value.field f)
  cast_to_field _ id = err (type_error "cannot cast to Field")

  -- The integer that a cast truncates.
  unfoldable pub cast_source : Value F → Result ℤ
  cast_source (Value.int i) = ok i.value
  cast_source (Value.bool b) = ok (pos (if b then 1 else 0))
  cast_source (Value.field f) = ok (host.to_bigint f)
  cast_source _ = err (type_error "cannot cast to an integer")

  unfoldable pub cast_to_bool : Value F → Result (Value F)
  cast_to_bool (Value.bool b) = ok (Value.bool b)
  cast_to_bool _ = err (type_error "cannot cast to bool (rejected by Noir's type checker)")

  unfoldable pub eval_cast : Value F → MonoType → FieldId → Result (Value F)
  unfolding cast_to_field cast_source cast_to_bool
  eval_cast value MonoType.field id = cast_to_field value id
  eval_cast value (MonoType.integer signed width) id = do
    raw ← cast_source value
    i ← canonical signed width raw
    ok (Value.int i)
  eval_cast value MonoType.bool id = cast_to_bool value
  eval_cast value _ id = err (unsupported "cast to ")

unfoldable pub int_type : MonoType → Option (Bool × ℕ)
int_type (MonoType.integer signed bits) = some (signed, bits)
int_type _ = none
