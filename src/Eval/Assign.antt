-- ===== src/Eval/Assign.antt =====
-- src/eval.rs: `store` and the descent into nested arrays.
use ast_interpreter.Base.{
  ℕ, Bool, true, false, List, [], ◌∷◌, ◌++◌, get_elem?, set, if◌then◌else◌, length, none, some,
}
use ast_interpreter.Error.{Location, type_error, internal, Result, ok, err, ◌>>=◌ as bind}
use ast_interpreter.Value.Data.{Value, Address, to_list, array_of}
use ast_interpreter.Ast.{LValue}
use ast_interpreter.Machine.{M, pure, fail, lift, read, write, ◌>>=◌}
use ast_interpreter.Eval.Cells.{store_flattened}
use ast_interpreter.Eval.Places.{
  Evaluator, index_out_of_bounds, lvalue_target_cell, eval_index_value,
}

unfoldable pub strip_clone : LValue → LValue
strip_clone (LValue.place_clone inner) = strip_clone inner
strip_clone place = place

unfoldable pub is_index : LValue → Bool
is_index (LValue.place_index _ _ _) = true
is_index _ = false

abbrev pub Indices : Type 0
Indices = List (ℕ × Location)

module _ {F : Type 0} where
  abbrev map_ok : (Value F → Value F) → Result (Value F) → Result (Value F)
  map_ok f r = bind r (λ v. ok (f v))

  -- The value with `rhs` in the slot that the indices lead to.
  unfoldable pub update_nested : Indices → Value F → Value F → Result (Value F)
  update_nested [] slot rhs = ok rhs
  update_nested ((i, location) ∷ rest) (Value.array elements) rhs =
      elim (get_elem? (to_list elements) i) [
        | none ↦ err (index_out_of_bounds location i (length (to_list elements)))
        | some inner ↦
            map_ok (λ new. array_of (set (to_list elements) i new)) (update_nested rest inner rhs)
      ]
  update_nested (_ ∷ _) _ rhs = err (type_error "indexed assignment to a non-array")

module _ {F : Type 0} (n : ℕ) (ev : Evaluator F) where
  -- The array's place is resolved before its index is evaluated. A `Clone` around the inner array
  -- is peeled here and by the functions called.
  unfoldable pub resolve_array_target : LValue → M F (Address × Indices)
  resolve_array_target (LValue.place_index array position location) = do
    (cell, indices) ←
        if is_index (strip_clone array)
        then resolve_array_target array
        else (do c ← lvalue_target_cell n ev (strip_clone array); pure (c, []))
    i ← eval_index_value n ev position
    pure (cell, indices ++ (i, location) ∷ [])
  resolve_array_target (LValue.place_clone inner) = resolve_array_target inner
  resolve_array_target _ = fail (internal "resolve_array_target on a non-index lvalue")

  unfoldable pub store_element : LValue → Value F → M F (Unit {0})
  unfolding resolve_array_target
  store_element place rhs = do
    (cell, indices) ← resolve_array_target place
    old ← read cell
    new ← lift (update_nested indices old rhs)
    write cell new

  unfoldable pub store_cell : LValue → Value F → M F (Unit {0})
  store_cell place rhs = do cell ← lvalue_target_cell n ev place; store_flattened n cell rhs

  unfoldable pub store : LValue → Value F → M F (Unit {0})
  unfolding store_element store_cell
  store (LValue.place_clone inner) rhs = store inner rhs
  store (LValue.place_index array position location) rhs =
      store_element (LValue.place_index array position location) rhs
  store place rhs = store_cell place rhs
