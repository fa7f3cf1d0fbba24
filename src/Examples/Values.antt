-- ===== src/Examples/Values.antt =====
-- The theorems on values, operators and builtins at concrete inputs.
use ast_interpreter.Base.{
  ℕ, ◌-◌, ◌^◌, ◌≤◌, ◌<◌, ◌≡◌, refl, ◌⊎◌, true, false, List, [], ◌∷◌, ◌++◌, some, arith, String,
  codes, length, map, if◌then◌else◌,
}
use mathlib.Core.List.{reverse}
use ast_interpreter.Base.Int.{ℤ, pos, negsuc, ◌+ℤ◌, ◌-ℤ◌, ◌*ℤ◌}
use ast_interpreter.Base.Text.{decimal}
use ast_interpreter.Error.{Location, ok, err, overflow, invalid_input, assertion_failed}
use ast_interpreter.Value.Ints.{IntValue, int_value, wrap, canonical, checked, unsigned_repr}
use ast_interpreter.Value.Wrap.{InRange, Congruent, wrap_lem, wrap_unique, checked_lem}
use ast_interpreter.Value.Pattern.{IsCanonical, canonical-unsigned_repr}
use ast_interpreter.Value.Data.{Value, array_of, as_index, as_int, index_of_repr}
use ast_interpreter.Ast.{BinaryOpKind}
use ast_interpreter.Eval.Operators.{int_not}
use ast_interpreter.Laws.Complement.{int_not_lem}
use ast_interpreter.Laws.Division.{Divided, int_quotient-int_remainder}
use ast_interpreter.Eval.Scalar.{eval_int_binary, int_operator, int_quotient, int_remainder}
use ast_interpreter.Input.{check_int}
use ast_interpreter.Intrinsics.Vectors.{vector_insert, vector_remove, out_of_bounds}
use ast_interpreter.Intrinsics.Conversions.{str_as_bytes, array_as_str_unchecked}
use ast_interpreter.Intrinsics.Radix.{decompose}
use ast_interpreter.Laws.Operators.{
  Answer, Exact, eval_int_binary-Answer, int_operator-Exact, check_int_lem,
}
use ast_interpreter.Laws.Vectors.{
  vector_remove-vector_insert, vector_remove_lem, vector_pop-vector_push,
}
use ast_interpreter.Laws.Digits.{
  DigitsOf, limb_of, decompose_lem, array_as_str_unchecked-str_as_bytes,
}
use ast_interpreter.Intrinsics.Vectors.{vector_push, vector_pop_back, vector_pop_front}

abbrev u8 : ℕ → Value ℕ
u8 n = Value.int (int_value false 8 (pos n))

eval_int_binary-Answer_example : Answer (int_value true 8 (negsuc 4)) (
    eval_int_binary {F = ℕ} BinaryOpKind.subtract
      (int_value true 8 (negsuc 4))
      (int_value true 8 (pos 3)))
eval_int_binary-Answer_example =
    eval_int_binary-Answer ℕ BinaryOpKind.subtract (int_value true 8 (negsuc 4))
      (int_value true 8 (pos 3)) (omega arith)

int_operator-Exact_example :
    Exact
      (int_value false 8 (pos 200))
      (pos 200 +ℤ pos 100)
      (int_operator BinaryOpKind.add (int_value false 8 (pos 200)) (int_value false 8 (pos 100)))
      "add"
    × Exact
        (int_value false 8 (pos 200))
        (pos 200 -ℤ pos 100)
        (int_operator BinaryOpKind.subtract
          (int_value false 8 (pos 200))
          (int_value false 8 (pos 100)))
        "subtract"
    × Exact
        (int_value false 8 (pos 200))
        (pos 200 *ℤ pos 100)
        (int_operator BinaryOpKind.multiply
          (int_value false 8 (pos 200))
          (int_value false 8 (pos 100)))
        "multiply"
int_operator-Exact_example =
    int_operator-Exact (int_value false 8 (pos 200)) (int_value false 8 (pos 100)) (omega arith)

wrap_example : (v : ℤ) × (wrap true 8 (pos 200) ≡ ok v) × InRange true 8 v × Congruent 8 (pos 200) v
wrap_example = wrap_lem true 8 (pos 200) (omega arith)

wrap_unique_example : wrap true 8 (pos 200) ≡ ok (negsuc 55)
wrap_unique_example =
    wrap_unique true 8 (pos 200) (negsuc 55) (omega arith) (omega arith) (0, 1, omega arith)

checked_example :
    (InRange false 8 (pos 300)
      × (checked false 8 (pos 300) "add" ≡ ok (int_value false 8 (pos 300))))
    ⊎ ((¬ InRange false 8 (pos 300)) × (checked false 8 (pos 300) "add" ≡ err (overflow "add")))
checked_example = checked_lem false 8 (pos 300) "add" (omega arith)

negative_five : IsCanonical (int_value true 8 (negsuc 4))
negative_five = record { has_bits = omega arith; in_range = omega arith }

canonical-unsigned_repr_example :
    (n : ℕ) × (unsigned_repr (int_value true 8 (negsuc 4)) ≡ pos n)
    × (n < 2 ^ 8)
    × Congruent 8 (pos n) (negsuc 4)
    × (canonical true 8 (unsigned_repr (int_value true 8 (negsuc 4)))
        ≡ ok (int_value true 8 (negsuc 4)))
canonical-unsigned_repr_example =
    canonical-unsigned_repr (int_value true 8 (negsuc 4)) negative_five

check_int_example :
    (IsCanonical (int_value true 0 (pos 0)) × (check_int (int_value true 0 (pos 0)) ≡ ok tt))
    ⊎ ((¬ IsCanonical (int_value true 0 (pos 0)))
        × (text : String) × (check_int (int_value true 0 (pos 0)) ≡ err (invalid_input text)))
check_int_example = check_int_lem (int_value true 0 (pos 0))

abbrev here : Location
here = 0

index_example : as_index (u8 1) ≡ ok 1
unfolding as_index as_int index_of_repr unsigned_repr
index_example = refl

vector_remove-vector_insert_example :
    (w : Value ℕ) × (vector_insert (array_of (u8 10 ∷ u8 20 ∷ []) ∷ u8 1 ∷ u8 15 ∷ []) here ≡ ok w)
    × (vector_remove (w ∷ u8 1 ∷ []) here ≡ ok (array_of (u8 10 ∷ u8 20 ∷ []) ∷ u8 15 ∷ []))
vector_remove-vector_insert_example =
    vector_remove-vector_insert (u8 10 ∷ u8 20 ∷ []) (u8 1) (u8 15) 1 here index_example
      (omega arith)

vector_remove_example :
    ((ys : List (Value ℕ)) × (v : Value ℕ) × (zs : List (Value ℕ)) × (u8 10 ∷ u8 20 ∷ []
        ≡ ys ++ v ∷ zs)
      × (length ys ≡ 1)
      × (vector_remove (array_of (u8 10 ∷ u8 20 ∷ []) ∷ u8 1 ∷ []) here
          ≡ ok (array_of (ys ++ zs) ∷ v ∷ [])))
    ⊎ ((length (u8 10 ∷ u8 20 ∷ []) ≤ 1)
        × (text : List ℕ) × (vector_remove (array_of (u8 10 ∷ u8 20 ∷ []) ∷ u8 1 ∷ []) here
            ≡ err (out_of_bounds here text)))
vector_remove_example = vector_remove_lem (u8 10 ∷ u8 20 ∷ []) (u8 1) 1 here index_example

vector_pop-vector_push_example :
    ((w : Value ℕ) × (vector_push (array_of (u8 10 ∷ []) ∷ u8 20 ∷ []) true ≡ ok w)
      × (vector_pop_back (w ∷ []) here ≡ ok (array_of (u8 10 ∷ []) ∷ u8 20 ∷ [])))
    × ((w : Value ℕ) × (vector_push (array_of (u8 10 ∷ []) ∷ u8 20 ∷ []) false ≡ ok w)
        × (vector_pop_front (w ∷ []) here ≡ ok (u8 20 ∷ array_of (u8 10 ∷ []) ∷ [])))
vector_pop-vector_push_example = vector_pop-vector_push (u8 10 ∷ []) (u8 20) here

decompose_example :
    ((300 < 16 ^ 3)
      × (digits : List ℕ) × DigitsOf 16 300 digits
      × (length digits ≡ 3)
      × (decompose {F = ℕ} 3 true false 16 300 here
          ≡ ok (
              array_of (
                if true
                then reverse (map (limb_of false) digits)
                else map (limb_of false) digits))))
    ⊎ ((16 ^ 3 ≤ 300)
        × (decompose {F = ℕ} 3 true false 16 300 here
            ≡ err (
                assertion_failed here (
                  some (
                    codes "Field failed to decompose into specified "
                    ++ decimal 3
                    ++ codes " limbs")))))
decompose_example = decompose_lem ℕ 3 true false 16 300 here (omega arith) (omega arith)

array_as_str_unchecked-str_as_bytes_example :
    (w : Value ℕ) × (str_as_bytes (Value.str (104 ∷ 105 ∷ []) ∷ []) ≡ ok w)
    × (array_as_str_unchecked (w ∷ []) ≡ ok (Value.str (104 ∷ 105 ∷ [])))
array_as_str_unchecked-str_as_bytes_example =
    array_as_str_unchecked-str_as_bytes ℕ (104 ∷ 105 ∷ []) (omega arith, (omega arith, tt))

negative_seven : IsCanonical (int_value true 8 (negsuc 6))
negative_seven = record { has_bits = omega arith; in_range = (omega arith, omega arith) }

int_quotient-int_remainder_example :
    Divided true 8
      (negsuc 6)
      (pos 2)
      (int_quotient (int_value true 8 (negsuc 6)) (int_value true 8 (pos 2)))
      (int_remainder (int_value true 8 (negsuc 6)) (int_value true 8 (pos 2)))
int_quotient-int_remainder_example =
    int_quotient-int_remainder (int_value true 8 (negsuc 6)) (int_value true 8 (pos 2))
      negative_seven (omega arith, omega arith) (omega arith)

int_not_example :
    (b : IntValue) × (int_not (int_value true 8 (negsuc 6)) ≡ ok b)
    × IsCanonical b
    × (b.signed ≡ true)
    × (b.bits ≡ 8)
    × ((unsigned_repr (int_value true 8 (negsuc 6)) +ℤ unsigned_repr b) ≡ pos (2 ^ 8 - 1))
    × (int_not b ≡ ok (int_value true 8 (negsuc 6)))
int_not_example = int_not_lem (int_value true 8 (negsuc 6)) negative_seven
