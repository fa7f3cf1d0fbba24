-- ===== src/Intrinsics/Conversions.antt =====
-- src/intrinsics.rs: strings and byte arrays.
use ast_interpreter.Base.{ℕ, List, [], ◌∷◌, ltb, if◌then◌else◌}
use ast_interpreter.Error.{Result, ok, err, type_error, ◌>>=◌}
use ast_interpreter.Value.Data.{Value, as_index, array_of}
use ast_interpreter.Intrinsics.Arguments.{take1, into_array, unsigned_values}

module _ {F : Type 0} where
  unfoldable pub bytes_of_str : Value F → Result (Value F)
  bytes_of_str (Value.str bytes) = do vs ← unsigned_values 8 bytes; ok (array_of vs)
  bytes_of_str _ = err (type_error "str_as_bytes on a non-string ")

  unfoldable pub str_as_bytes : List (Value F) → Result (Value F)
  unfolding bytes_of_str
  str_as_bytes args = do value ← take1 args; bytes_of_str value

  unfoldable pub byte_of : Value F → Result ℕ
  byte_of element = do
    i ← as_index element
    if ltb i 256 then ok i else err (type_error "string byte out of range")

  unfoldable pub bytes_of : List (Value F) → Result (List ℕ)
  unfolding byte_of
  bytes_of [] = ok []
  bytes_of (v ∷ vs) = do b ← byte_of v; bs ← bytes_of vs; ok (b ∷ bs)

  unfoldable pub array_as_str_unchecked : List (Value F) → Result (Value F)
  unfolding bytes_of
  array_as_str_unchecked args = do
    value ← take1 args
    elements ← into_array value
    bytes ← bytes_of elements
    ok (Value.str bytes)
