-- ===== src/Intrinsics/Vectors.antt =====
-- src/intrinsics.rs: lengths and the vector operations.
use ast_interpreter.Base.{
  ℕ, zero, suc, Bool, false, List, [], ◌∷◌, ◌++◌, Option, none, some, length, ltb, ◌==◌,
  if◌then◌else◌, codes,
}
use ast_interpreter.Base.Text.{decimal}
use ast_interpreter.Base.Int.{pos}
use ast_interpreter.Error.{
  Text, Location, InterpretError, Result, ok, err, assertion_failed, type_error, internal, ◌>>=◌,
}
use ast_interpreter.Value.Ints.{canonical}
use ast_interpreter.Value.Data.{Value, as_index, to_list, array_of}
use ast_interpreter.Intrinsics.Arguments.{take1, take2, take3, into_array}

module _ {A : Type 0} where
  -- `Vec::insert`, at an index up to the length, and `Vec::remove`, at one below it.
  unfoldable pub insert_at : ℕ → A → List A → List A
  insert_at zero v xs = v ∷ xs
  insert_at (suc i) v [] = v ∷ []
  insert_at (suc i) v (x ∷ xs) = x ∷ insert_at i v xs

  unfoldable pub remove_at : ℕ → List A → Option (A × List A)
  remove_at i [] = none
  remove_at zero (x ∷ xs) = some (x, xs)
  remove_at (suc i) (x ∷ xs) = elim (remove_at i xs) [
    | none ↦ none
    | some (y, ys) ↦ some (y, x ∷ ys)
  ]

  -- `Vec::pop`.
  unfoldable pub pop_last : List A → Option (List A × A)
  pop_last [] = none
  pop_last (x ∷ []) = some ([], x)
  pop_last (x ∷ y ∷ xs) = elim (pop_last (y ∷ xs)) [ none ↦ none | some (ys, l) ↦ some (x ∷ ys, l) ]

unfoldable pub out_of_bounds : Location → Text → InterpretError
out_of_bounds location text = assertion_failed location (some text)

unfoldable pub vector_bound : Location → Text → ℕ → ℕ → InterpretError
unfolding out_of_bounds
vector_bound location operation i len = out_of_bounds location (
    codes "Index out of bounds: "
    ++ operation
    ++ codes ": index "
    ++ decimal i
    ++ codes " is out of bounds for a vector of length "
    ++ decimal len)

module _ {F : Type 0} where
  unfoldable pub array_len : List (Value F) → Result (Value F)
  array_len (Value.array elements ∷ _) = do
    i ← canonical false 32 (pos (length (to_list elements)))
    ok (Value.int i)
  array_len (_ ∷ _) = err (type_error "array_len on a non-array ")
  array_len [] = err (internal "array_len expects one argument")

  unfoldable pub vector_push : List (Value F) → Bool → Result (Value F)
  vector_push args back = do
    (array, elem) ← take2 args
    elements ← into_array array
    ok (array_of (if back then elements ++ elem ∷ [] else elem ∷ elements))

  -- The two parts of the tuple that a pop returns.
  unfoldable pub vector_pop_back : List (Value F) → Location → Result (List (Value F))
  unfolding out_of_bounds
  vector_pop_back args location = do
    array ← take1 args
    elements ← into_array array
    elim (pop_last elements) [
      | none ↦ err (
          out_of_bounds location
            (codes "Index out of bounds: vector_pop_back called on empty vector"))
      | some (front, last) ↦ ok (array_of front ∷ last ∷ [])
    ]

  unfoldable pub vector_pop_front : List (Value F) → Location → Result (List (Value F))
  unfolding out_of_bounds
  vector_pop_front args location = do
    array ← take1 args
    elements ← into_array array
    elim elements [
      | [] ↦ err (
          out_of_bounds location
            (codes "Index out of bounds: vector_pop_front called on empty vector"))
      | first ∷ rest ↦ ok (first ∷ array_of rest ∷ [])
    ]

  unfoldable pub vector_insert : List (Value F) → Location → Result (Value F)
  unfolding vector_bound
  vector_insert args location = do
    (array, index, elem) ← take3 args
    elements ← into_array array
    i ← as_index index
    if ltb (length elements) i
        then err (vector_bound location (codes "vector_insert") i (length elements))
        else ok (array_of (insert_at i elem elements))

  -- The first test of the source names the empty vector, the second an index past the end.
  unfoldable pub vector_remove : List (Value F) → Location → Result (List (Value F))
  unfolding vector_bound out_of_bounds
  vector_remove args location = do
    (array, index) ← take2 args
    elements ← into_array array
    i ← as_index index
    if length elements == 0
        then err (
            out_of_bounds location
              (codes "Index out of bounds: vector_remove called on empty vector"))
        else elim (remove_at i elements) [
          | none ↦ err (vector_bound location (codes "vector_remove") i (length elements))
          | some (removed, rest) ↦ ok (array_of rest ∷ removed ∷ [])
        ]
