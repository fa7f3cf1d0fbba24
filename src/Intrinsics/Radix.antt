-- ===== src/Intrinsics/Radix.antt =====
-- src/intrinsics.rs: the decomposition of a field element into digits, and tests on its size.
use mathlib.Core.List.{reverse}
use ast_interpreter.Base.{
  ℕ, zero, suc, ◌/◌, ◌%◌, ◌^◌, Bool, true, false, not, ◌&&◌, List, [], ◌∷◌, ◌++◌, some, length,
  get_elem?, map, ltb, leb, ◌==◌, if◌then◌else◌, codes,
}
use ast_interpreter.Base.Text.{decimal}
use ast_interpreter.Base.Int.{nat_abs}
use ast_interpreter.Error.{
  Location, Result, ok, err, assertion_failed, type_error, internal, ok_or, ◌>>=◌,
}
use ast_interpreter.Value.Data.{Value, as_index, array_of}
use ast_interpreter.Ast.{MonoType}
use ast_interpreter.Host.{Host}
use ast_interpreter.Intrinsics.Arguments.{unsigned_values, arg_u64}

unfoldable pub radix_digits_fuel : ℕ → ℕ → ℕ → List ℕ
radix_digits_fuel zero radix n = []
radix_digits_fuel (suc fuel) radix n =
    let more = (n % radix) ∷ radix_digits_fuel fuel radix (n / radix) in if n == 0 then [] else more

-- `to_radix_le`, with no digit for zero. A number has at most as many digits as its value.
unfoldable pub radix_digits : ℕ → ℕ → List ℕ
unfolding radix_digits_fuel
radix_digits radix n = radix_digits_fuel n radix n

-- The first `count` digits, zeros behind the last.
unfoldable pub padded : ℕ → List ℕ → List ℕ
padded zero digits = []
padded (suc count) [] = 0 ∷ padded count []
padded (suc count) (d ∷ digits) = d ∷ padded count digits

-- The position of the highest bit, counted from 1.
unfoldable pub bit_length : ℕ → ℕ
bit_length n = length (radix_digits 2 n)

unfoldable pub limb_count_of : MonoType → Result ℕ
limb_count_of (MonoType.array len _) = ok len
limb_count_of _ = err (type_error "decomposition return type is not an array: ")

module _ {F : Type 0} where
  unfoldable pub field_argument : List (Value F) → Result F
  field_argument (Value.field f ∷ _) = ok f
  field_argument (_ ∷ _) = err (type_error "decomposition of a non-field ")
  field_argument [] = err (internal "decomposition expects a field argument")

  unfoldable pub radix_argument : Bool → List (Value F) → Result ℕ
  radix_argument true args = ok 2
  radix_argument false args = do
    value ← ok_or (get_elem? args 1) (internal "radix decomposition expects a radix argument")
    i ← as_index value
    if ltb i (2 ^ 32) then ok i else err (type_error "radix out of range")

  unfoldable pub limb_values : Bool → List ℕ → Result (List (Value F))
  limb_values true digits = ok (map (λ d. Value.bool (not (d == 0))) digits)
  limb_values false digits = unsigned_values 8 digits

  unfoldable pub decompose : ℕ → (big_endian is_bits : Bool) → ℕ → ℕ → Location → Result (Value F)
  unfolding radix_digits padded limb_values
  decompose limb_count big_endian is_bits radix n location =
      if ltb limb_count (length (radix_digits radix n))
      then err (
          assertion_failed location (
            some (
              codes "Field failed to decompose into specified "
              ++ decimal limb_count
              ++ codes " limbs")))
      else do
        limbs ← limb_values is_bits (padded limb_count (radix_digits radix n))
        ok (array_of (if big_endian then reverse limbs else limbs))

module _ {F : Type 0} (host : Host F) where
  unfoldable pub to_radix :
      List (Value F) → (big_endian is_bits : Bool) → MonoType → Location → Result (Value F)
  unfolding field_argument radix_argument limb_count_of decompose
  to_radix args big_endian is_bits return_type location = do
    field ← field_argument args
    radix ← radix_argument is_bits args
    limb_count ← limb_count_of return_type
    if not (leb 2 radix && leb radix 256)
        then err (type_error "radix must be in [2, 256]")
        else decompose limb_count big_endian is_bits radix (nat_abs (host.to_bigint field)) location

  unfoldable pub range_field : List (Value F) → Result F
  range_field (Value.field f ∷ _) = ok f
  range_field (_ ∷ _) = err (type_error "apply_range_constraint on a non-field ")
  range_field [] = err (internal "apply_range_constraint expects a value")

  unfoldable pub apply_range_constraint : List (Value F) → Location → Result (Value F)
  unfolding range_field bit_length
  apply_range_constraint args location = do
    field ← range_field args
    bit_size ← arg_u64 args 1
    if ltb bit_size (bit_length (nat_abs (host.to_bigint field)))
        then err (assertion_failed location (some (codes "call to assert_max_bit_size")))
        else ok Value.unit

  unfoldable pub field_less_than : List (Value F) → Result (Value F)
  field_less_than (Value.field x ∷ Value.field y ∷ []) =
      ok (Value.bool (ltb (host.as_biguint x) (host.as_biguint y)))
  field_less_than _ = err (type_error "field_less_than expects two fields, got ")
