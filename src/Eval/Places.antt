-- ===== src/Eval/Places.antt =====
-- src/eval.rs: expressions in value and in place position, and assignment. `ev` is `Interpreter::eval`
-- on an expression; the walks through cells have `n` fuel.
use ast_interpreter.Base.{ℕ, Bool, true, List, ◌++◌, some, get_elem?, length, codes}
use ast_interpreter.Base.Text.{decimal}
use ast_interpreter.Error.{
  Location, InterpretError, assertion_failed, type_error, unsupported, internal,
}
use ast_interpreter.Value.Data.{Value, Values, Address, as_index, to_list}
use ast_interpreter.Ast.{Expression, LValue, Definition, UnaryOp}
use ast_interpreter.Machine.{M, Flow, pure, fail, lift, ok_or_fail, read, env_get, ◌>>=◌}
use ast_interpreter.Eval.Cells.{deep_copy, tuple_cells_of}

abbrev pub Evaluator : Type 0 → Type 0
Evaluator F = Expression → M F (Flow F)

unfoldable pub index_out_of_bounds : Location → ℕ → ℕ → InterpretError
index_out_of_bounds location index len = assertion_failed location (
    some (
      codes "Index out of bounds, array has size "
      ++ decimal len
      ++ codes ", but index was "
      ++ decimal index))

module _ {F : Type 0} where
  unfoldable pub expect_value : Flow F → M F (Value F)
  expect_value (Flow.normal v) = pure v
  expect_value _ = fail (unsupported "break/continue in value position")

  unfoldable pub eval_expr_value : Evaluator F → Expression → M F (Value F)
  unfolding expect_value
  eval_expr_value ev e = do flow ← ev e; expect_value flow

  -- A mutable slot denotes what its cell holds, shared; anything else denotes itself.
  unfoldable pub load_slot : Value F → M F (Value F)
  load_slot (Value.ref c true) = read c
  load_slot other = pure other

  unfoldable pub eval_local : ℕ → ℕ → M F (Value F)
  unfolding load_slot
  eval_local n id = do
    slot ← env_get id (internal "unbound local ")
    v ← load_slot slot
    deep_copy n v

  unfoldable pub element_at : Location → Values F → ℕ → M F (Value F)
  element_at location elements i =
      ok_or_fail (get_elem? (to_list elements) i)
        (index_out_of_bounds location i (length (to_list elements)))

  unfoldable pub index_value : Location → Value F → ℕ → M F (Value F)
  unfolding element_at
  index_value location (Value.array elements) i = element_at location elements i
  index_value location _ i = fail (type_error "cannot index ")

  unfoldable pub place_of_reference : Value F → M F (Value F)
  place_of_reference (Value.ref c _) = pure (Value.ref c true)
  place_of_reference _ = fail (unsupported "dereference of a non-reference value (")

  unfoldable pub field_cell : List Address → ℕ → InterpretError → M F Address
  field_cell cells i e = ok_or_fail (get_elem? cells i) e

module _ {F : Type 0} (n : ℕ) (ev : Evaluator F) where
  -- `eval_place` at a dereference and at other operators.
  unfoldable pub place_of_unary : UnaryOp → Bool → Expression → M F (Value F)
  unfolding place_of_reference
  place_of_unary UnaryOp.dereference skip rhs = do v ← eval_expr_value ev rhs; place_of_reference v
  place_of_unary op skip rhs = eval_expr_value ev (Expression.unary op skip rhs)

  unfoldable pub place_of_definition : Definition → M F (Value F)
  place_of_definition (Definition.local id) = env_get id (internal "unbound local ")
  place_of_definition d = eval_expr_value ev (Expression.ident d)

  unfoldable pub eval_place : Expression → M F (Value F)
  unfolding place_of_unary place_of_definition field_cell
  eval_place (Expression.ident d) = place_of_definition d
  eval_place (Expression.extract_tuple_field inner i) = do
    place ← eval_place inner
    cells ← tuple_cells_of n place
    cell ← field_cell cells i (type_error "tuple field out of bounds")
    pure (Value.ref cell true)
  eval_place (Expression.unary op skip rhs) = place_of_unary op skip rhs
  eval_place e = eval_expr_value ev e

  unfoldable pub eval_index_value : Expression → M F ℕ
  eval_index_value e = do v ← eval_expr_value ev e; lift (as_index v)

  unfoldable pub lvalue_local : Definition → M F (Value F)
  lvalue_local (Definition.local id) = do
    slot ← env_get id (internal "unbound local in lvalue ")
    load_slot slot
  lvalue_local _ = fail (unsupported "assignment to a non-local binding")

  unfoldable pub read_reference : Value F → M F (Value F)
  read_reference (Value.ref c _) = read c
  read_reference _ = fail (unsupported "dereference of a non-reference value in lvalue (")

  unfoldable pub lvalue_value : LValue → M F (Value F)
  unfolding lvalue_local read_reference index_value eval_index_value
  lvalue_value (LValue.place_ident d) = lvalue_local d
  lvalue_value (LValue.member_access object i) = do
    v ← lvalue_value object
    cells ← tuple_cells_of n v
    cell ← field_cell cells i (type_error "field out of bounds in lvalue")
    read cell
  lvalue_value (LValue.place_index array position location) = do
    v ← lvalue_value array
    i ← eval_index_value position
    index_value location v i
  lvalue_value (LValue.place_dereference reference) = do
    v ← lvalue_value reference
    read_reference v
  lvalue_value (LValue.place_clone inner) = lvalue_value inner

  unfoldable pub slot_cell : Value F → M F Address
  slot_cell (Value.ref c _) = pure c
  slot_cell _ = fail (internal "assignment to a non-mutable local")

  unfoldable pub local_cell : Definition → M F Address
  unfolding slot_cell
  local_cell (Definition.local id) = do
    slot ← env_get id (internal "assignment to unbound local")
    slot_cell slot
  local_cell _ = fail (unsupported "assignment to a non-local binding")

  unfoldable pub reference_cell : Value F → M F Address
  reference_cell (Value.ref c _) = pure c
  reference_cell _ = fail (unsupported "assignment through a dereference of a non-reference (")

  unfoldable pub lvalue_target_cell : LValue → M F Address
  unfolding local_cell reference_cell
  lvalue_target_cell (LValue.place_ident d) = local_cell d
  lvalue_target_cell (LValue.member_access object i) = do
    v ← lvalue_value object
    cells ← tuple_cells_of n v
    field_cell cells i (type_error "assignment field out of bounds")
  lvalue_target_cell (LValue.place_dereference reference) = do
    v ← lvalue_value reference
    reference_cell v
  lvalue_target_cell (LValue.place_clone inner) = lvalue_target_cell inner
  lvalue_target_cell (LValue.place_index _ _ _) =
      fail (unsupported "assignment through an array-element place")
