-- ===== src/Eval/Scalar.antt =====
-- src/eval.rs: the operators on machine integers.
use ast_interpreter.Base.{
  ℕ, ◌^◌, Bool, Option, none, some, not, ◌&&◌, ◌||◌, ltb, leb, ◌==◌, if◌then◌else◌,
}
use ast_interpreter.Base.Int.{
  ℤ, pos, negsuc, ◌+ℤ◌, ◌-ℤ◌, ◌*ℤ◌, tdiv, tmod, shl, shr, band, bor, bxor, nat_abs, ltb_ℤ, leb_ℤ,
  eqb_ℤ,
}
use ast_interpreter.Error.{Result, ok, err, panic, type_error, overflow, division_by_zero, ◌>>=◌}
use ast_interpreter.Value.Ints.{IntValue, canonical, range, checked, unsigned_repr}
use ast_interpreter.Value.Data.{Value}
use ast_interpreter.Ast.{BinaryOpKind}

abbrev pub eqb_Bool : Bool → Bool → Bool
eqb_Bool a b = if a then b else not b

-- The amount of a shift is the magnitude of the pattern, if one 64-bit digit holds it.
unfoldable pub shift_amount : IntValue → Result ℕ
shift_amount b =
    if ltb (nat_abs (unsigned_repr b)) (2 ^ 64)
    then ok (nat_abs (unsigned_repr b))
    else err (overflow "shift")

-- The comparators, which read the sign-aware values.
unfoldable pub int_comparator : BinaryOpKind → ℤ → ℤ → Option Bool
int_comparator BinaryOpKind.equal a b = some (eqb_ℤ a b)
int_comparator BinaryOpKind.not_equal a b = some (not (eqb_ℤ a b))
int_comparator BinaryOpKind.less a b = some (ltb_ℤ a b)
int_comparator BinaryOpKind.less_equal a b = some (leb_ℤ a b)
int_comparator BinaryOpKind.greater a b = some (ltb_ℤ b a)
int_comparator BinaryOpKind.greater_equal a b = some (leb_ℤ b a)
int_comparator _ a b = none

-- `BigInt`'s division and remainder panic at a divisor of zero.
unfoldable pub quotient : ℤ → ℤ → Result ℤ
quotient a b = if eqb_ℤ b (pos 0) then panic else ok (tdiv a b)

unfoldable pub remainder : ℤ → ℤ → Result ℤ
remainder a b = if eqb_ℤ b (pos 0) then panic else ok (tmod a b)

unfoldable pub int_remainder : IntValue → IntValue → Result IntValue
unfolding remainder
int_remainder a b = if eqb_ℤ b.value (pos 0) then err division_by_zero else do
  (lo, hi) ← range a.signed a.bits
  if a.signed && (eqb_ℤ a.value lo && eqb_ℤ b.value (negsuc 0))
      then err (overflow "calculate the remainder")
      else do r ← remainder a.value b.value; canonical a.signed a.bits r

unfoldable pub int_quotient : IntValue → IntValue → Result IntValue
unfolding quotient
int_quotient a b =
    if eqb_ℤ b.value (pos 0)
    then err division_by_zero
    else do q ← quotient a.value b.value; checked a.signed a.bits q "divide"

unfoldable pub int_shift_left : IntValue → IntValue → Result IntValue
int_shift_left a b = do
  amount ← shift_amount b
  if leb a.bits amount
      then err (overflow "shift left")
      else canonical a.signed a.bits (shl (unsigned_repr a) amount)

unfoldable pub int_shift_right : IntValue → IntValue → Result IntValue
int_shift_right a b = do
  amount ← shift_amount b
  if leb a.bits amount
      then err (overflow "shift right")
      else canonical a.signed a.bits (shr a.value amount)

-- The operators whose result has the type of the operands.
unfoldable pub int_operator : BinaryOpKind → IntValue → IntValue → Result IntValue
int_operator BinaryOpKind.add a b = checked a.signed a.bits (a.value +ℤ b.value) "add"
int_operator BinaryOpKind.subtract a b = checked a.signed a.bits (a.value -ℤ b.value) "subtract"
int_operator BinaryOpKind.multiply a b = checked a.signed a.bits (a.value *ℤ b.value) "multiply"
int_operator BinaryOpKind.divide a b = int_quotient a b
int_operator BinaryOpKind.modulo a b = int_remainder a b
int_operator BinaryOpKind.and a b =
    canonical a.signed a.bits (band (unsigned_repr a) (unsigned_repr b))
int_operator BinaryOpKind.or a b =
    canonical a.signed a.bits (bor (unsigned_repr a) (unsigned_repr b))
int_operator BinaryOpKind.xor a b =
    canonical a.signed a.bits (bxor (unsigned_repr a) (unsigned_repr b))
int_operator BinaryOpKind.shift_left a b = int_shift_left a b
int_operator BinaryOpKind.shift_right a b = int_shift_right a b
-- `unreachable!()`: the comparators have returned.
int_operator _ a b = panic

unfoldable pub eval_int_binary :
    {F : Type 0} → BinaryOpKind → IntValue → IntValue → Result (Value F)
unfolding int_comparator
eval_int_binary op a b =
    if not (eqb_Bool a.signed b.signed) || not (a.bits == b.bits)
    then err (type_error "binary on mismatched integer types")
    else elim (int_comparator op a.value b.value) [
      | some c ↦ ok (Value.bool c)
      | none ↦ do i ← int_operator op a b; ok (Value.int i)
    ]
