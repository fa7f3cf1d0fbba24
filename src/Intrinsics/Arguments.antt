-- ===== src/Intrinsics/Arguments.antt =====
-- src/intrinsics.rs: taking the arguments of a builtin apart.
use ast_interpreter.Base.{
  ℕ, ◌^◌, false, ◌&&◌, List, [], ◌∷◌, Option, none, some, length, get_elem?, ltb, ◌==◌,
  if◌then◌else◌,
}
use ast_interpreter.Base.Int.{ℤ, pos, negsuc, nat_abs}
use ast_interpreter.Error.{Result, ok, err, type_error, internal, ok_or, ◌>>=◌}
use ast_interpreter.Value.Ints.{IntValue, canonical, unsigned_repr}
use ast_interpreter.Value.Data.{Value, as_int, to_list}

module _ {A : Type 0} where
  unfoldable pub take1 : List A → Result A
  take1 (a ∷ []) = ok a
  take1 _ = err (internal "intrinsic arity mismatch: got args")

  unfoldable pub take2 : List A → Result (A × A)
  take2 (a ∷ b ∷ []) = ok (a, b)
  take2 _ = err (internal "intrinsic arity mismatch: got args")

  unfoldable pub take3 : List A → Result (A × A × A)
  take3 (a ∷ b ∷ c ∷ []) = ok (a, b, c)
  take3 _ = err (internal "intrinsic arity mismatch: got args")

  unfoldable pub take5 : List A → Result (A × A × A × A × A)
  take5 (a ∷ b ∷ c ∷ d ∷ e ∷ []) = ok (a, b, c, d, e)
  take5 _ = err (internal "intrinsic arity mismatch: got args")

  unfoldable pub fixed : ℕ → List A → Result (List A)
  fixed n values = if length values == n then ok values else err (type_error "is not elements long")

-- `BigInt::to_u64`, and a further conversion to a word of `bits` bits.
unfoldable pub to_word : ℕ → ℤ → Option ℕ
to_word bits (pos n) = if ltb n (2 ^ 64) && ltb n (2 ^ bits) then some n else none
to_word bits (negsuc _) = none

unfoldable pub digit_argument : IntValue → Result ℕ
digit_argument i =
    if ltb (nat_abs (unsigned_repr i)) (2 ^ 64)
    then ok (nat_abs (unsigned_repr i))
    else err (type_error "value exceeds u64")

module _ {F : Type 0} where
  unfoldable pub into_array : Value F → Result (List (Value F))
  into_array (Value.array elements) = ok (to_list elements)
  into_array _ = err (type_error "expected a slice/array, got ")

  unfoldable pub word_of : ℕ → Value F → Result ℕ
  unfolding to_word
  word_of bits (Value.int i) =
      if i.signed
      then err (type_error "expected an unsigned integer array element, got ")
      else ok_or (to_word bits i.value)
          (type_error "array element does not fit the black box's word")
  word_of bits _ = err (type_error "expected an unsigned integer array element, got ")

  unfoldable pub words_of : ℕ → List (Value F) → Result (List ℕ)
  unfolding word_of
  words_of bits [] = ok []
  words_of bits (v ∷ vs) = do w ← word_of bits v; ws ← words_of bits vs; ok (w ∷ ws)

  -- `words::<T>` for the unsigned type `T` of `bits` bits.
  unfoldable pub words : ℕ → Value F → Result (List ℕ)
  unfolding into_array words_of
  words bits value = do vs ← into_array value; words_of bits vs

  unfoldable pub fixed_words : ℕ → ℕ → Value F → Result (List ℕ)
  unfolding fixed words
  fixed_words count bits value = do ws ← words bits value; fixed count ws

  unfoldable pub unsigned_values : ℕ → List ℕ → Result (List (Value F))
  unsigned_values bits [] = ok []
  unsigned_values bits (n ∷ ns) = do
    i ← canonical false bits (pos n)
    vs ← unsigned_values bits ns
    ok (Value.int i ∷ vs)

  unfoldable pub arg_u64 : List (Value F) → ℕ → Result ℕ
  unfolding digit_argument
  arg_u64 args i = do
    value ← ok_or (get_elem? args i) (internal "intrinsic missing argument ")
    int ← as_int value
    digit_argument int
