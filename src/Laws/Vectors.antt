-- ===== src/Laws/Vectors.antt =====
-- src/intrinsics.rs: the vector operations, on lists and on the arguments of the builtins.
use ast_interpreter.Base.{
  ℕ, zero, suc, ◌≤◌, ◌≡◌, refl, ap, ◌∙◌, ◌⊎◌, inl, inr, true, false, List, [], ◌∷◌, ◌++◌, none,
  some, length, ltb, ◌==◌, if◌then◌else◌, arith, codes,
}
use ast_interpreter.Base.Text.{decimal}
use ast_interpreter.Error.{Location, ok, err}
use ast_interpreter.Value.Data.{Value, as_index, to_list-of_list, array_of}
use ast_interpreter.Intrinsics.Arguments.{take1, take2, take3, into_array}
use ast_interpreter.Intrinsics.Vectors.{
  insert_at, remove_at, pop_last, out_of_bounds, vector_bound, vector_push, vector_pop_back,
  vector_pop_front, vector_insert, vector_remove,
}

module _ {A : Type 0} where
  remove_at-insert_at :
      (i : ℕ) (v : A) (xs : List A) → i ≤ length xs → remove_at i (insert_at i v xs) ≡ some (v, xs)
  unfolding remove_at insert_at
  remove_at-insert_at zero v [] h = refl
  remove_at-insert_at zero v (x ∷ xs) h = refl
  remove_at-insert_at (suc i) v [] h = absurd (omega arith)
  remove_at-insert_at (suc i) v (x ∷ xs) h = rw (remove_at-insert_at i v xs (omega arith))

  length-insert_at : (i : ℕ) (v : A) (xs : List A) → length (insert_at i v xs) ≡ suc (length xs)
  unfolding insert_at
  length-insert_at zero v xs = refl
  length-insert_at (suc i) v [] = refl
  length-insert_at (suc i) v (x ∷ xs) = ap suc (length-insert_at i v xs)

  pop_last-append : (xs : List A) (v : A) → pop_last (xs ++ v ∷ []) ≡ some (xs, v)
  unfolding pop_last
  pop_last-append [] v = refl
  pop_last-append (x ∷ []) v = refl
  pop_last-append (x ∷ y ∷ xs) v = rw (pop_last-append (y ∷ xs) v)

  remove_at_lem :
      (i : ℕ) (xs : List A)
      → ((ys : List A) × (v : A) × (zs : List A) × (xs ≡ ys ++ v ∷ zs)
          × (length ys ≡ i)
          × (remove_at i xs ≡ some (v, ys ++ zs)))
        ⊎ ((length xs ≤ i) × (remove_at i xs ≡ none))
  unfolding remove_at
  remove_at_lem i [] = inr (omega arith, refl)
  remove_at_lem zero (x ∷ xs) = inl ([], x, xs, refl, refl, refl)
  remove_at_lem (suc i) (x ∷ xs) = elim (remove_at_lem i xs) [
    | inl (ys, v, zs, e, l, r) ↦ inl (x ∷ ys, v, zs, ap (λ (w : List A). x ∷ w) e, ap suc l, rw r)
    | inr (l, r) ↦ inr (omega arith, rw r)
  ]

into_array-array_of : {F : Type 0} (vs : List (Value F)) → into_array (array_of vs) ≡ ok vs
unfolding into_array
into_array-array_of vs = ap ok (to_list-of_list vs)

module _ {F : Type 0} where
  vector_insert_value :
      (xs : List (Value F)) (index v : Value F) (i : ℕ) (location : Location)
      → as_index index ≡ ok i
      → vector_insert (array_of xs ∷ index ∷ v ∷ []) location ≡ (
          if ltb (length xs) i
          then err (vector_bound location (codes "vector_insert") i (length xs))
          else ok (array_of (insert_at i v xs)))
  unfolding vector_insert take3
  vector_insert_value xs index v i location e = rw (into_array-array_of xs) (rw e refl)

  vector_remove_value :
      (xs : List (Value F)) (index : Value F) (i : ℕ) (location : Location)
      → as_index index ≡ ok i
      → vector_remove (array_of xs ∷ index ∷ []) location ≡ (
          if length xs == 0
          then err (
              out_of_bounds location
                (codes "Index out of bounds: vector_remove called on empty vector"))
          else elim (remove_at i xs) [
            | none ↦ err (vector_bound location (codes "vector_remove") i (length xs))
            | some (removed, rest) ↦ ok (array_of rest ∷ removed ∷ [])
          ])
  unfolding vector_remove take2
  vector_remove_value xs index i location e = rw (into_array-array_of xs) (rw e refl)

  vector_pop_back_value :
      (xs : List (Value F)) (location : Location)
      → vector_pop_back (array_of xs ∷ []) location ≡ elim (pop_last xs) [
        | none ↦ err (
            out_of_bounds location
              (codes "Index out of bounds: vector_pop_back called on empty vector"))
        | some (front, last) ↦ ok (array_of front ∷ last ∷ [])
      ]
  unfolding vector_pop_back take1
  vector_pop_back_value xs location = rw (into_array-array_of xs) refl

-- An element inserted at an index up to the length is what a removal at that index returns, with the
-- vector as it was.
pub vector_remove-vector_insert :
    {F : Type 0} (xs : List (Value F)) (index v : Value F) (i : ℕ) (location : Location)
    → as_index index ≡ ok i
    → i ≤ length xs
    → (w : Value F) × (vector_insert (array_of xs ∷ index ∷ v ∷ []) location ≡ ok w)
      × (vector_remove (w ∷ index ∷ []) location ≡ ok (array_of xs ∷ v ∷ []))
vector_remove-vector_insert xs index v i location e h = (
  array_of (insert_at i v xs),
  vector_insert_value xs index v i location e ∙ ground arith,
  vector_remove_value (insert_at i v xs) index i location e
      ∙ rw (length-insert_at i v xs) (rw (remove_at-insert_at i v xs h) (ground arith)),
)

-- A removal takes the element at the index out, and is an error when the index is not below the
-- length.
pub vector_remove_lem :
    {F : Type 0} (xs : List (Value F)) (index : Value F) (i : ℕ) (location : Location)
    → as_index index ≡ ok i
    → ((ys : List (Value F)) × (v : Value F) × (zs : List (Value F)) × (xs ≡ ys ++ v ∷ zs)
        × (length ys ≡ i)
        × (vector_remove (array_of xs ∷ index ∷ []) location ≡ ok (array_of (ys ++ zs) ∷ v ∷ [])))
      ⊎ ((length xs ≤ i)
          × (text : List ℕ) × (vector_remove (array_of xs ∷ index ∷ []) location
              ≡ err (out_of_bounds location text)))
unfolding vector_bound
vector_remove_lem [] index i location e =
    inr (omega arith, _, vector_remove_value [] index i location e)
vector_remove_lem (x ∷ xs) index i location e = elim (remove_at_lem i (x ∷ xs)) [
  | inl (ys, v, zs, p, l, r) ↦
      inl (ys, v, zs, p, l, vector_remove_value (x ∷ xs) index i location e ∙ rw r (ground arith))
  | inr (l, r) ↦ inr (
    l,
    codes "Index out of bounds: "
        ++ codes "vector_remove"
        ++ codes ": index "
        ++ decimal i
        ++ codes " is out of bounds for a vector of length "
        ++ decimal (length (x ∷ xs)),
    vector_remove_value (x ∷ xs) index i location e ∙ rw r (ground arith),
  )
]

-- A push at either end is undone by the pop at that end.
pub vector_pop-vector_push :
    {F : Type 0} (xs : List (Value F)) (v : Value F) (location : Location)
    → ((w : Value F) × (vector_push (array_of xs ∷ v ∷ []) true ≡ ok w)
        × (vector_pop_back (w ∷ []) location ≡ ok (array_of xs ∷ v ∷ [])))
      × ((w : Value F) × (vector_push (array_of xs ∷ v ∷ []) false ≡ ok w)
          × (vector_pop_front (w ∷ []) location ≡ ok (v ∷ array_of xs ∷ [])))
unfolding vector_push vector_pop_front take1 take2
vector_pop-vector_push xs v location = (
  (
    array_of (xs ++ v ∷ []),
    rw (into_array-array_of xs),
    vector_pop_back_value (xs ++ v ∷ []) location ∙ rw (pop_last-append xs v),
  ),
  (array_of (v ∷ xs), rw (into_array-array_of xs), rw (into_array-array_of (v ∷ xs))),
)
