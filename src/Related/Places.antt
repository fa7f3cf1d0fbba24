-- ===== src/Related/Places.antt =====
-- Places and assignment.
use ast_interpreter.Base.{ℕ, ◌≤◌, Bool, true, List}
use ast_interpreter.Error.{InterpretError, Location}
use ast_interpreter.Value.Data.{Value, Address}
use ast_interpreter.Ast.{Expression, LValue, Definition, UnaryOp}
use ast_interpreter.Machine.{Flow}
use ast_interpreter.Eval.Places.{
  Evaluator, expect_value, eval_expr_value, load_slot, eval_local, element_at, index_value,
  place_of_reference, field_cell, place_of_unary, place_of_definition, eval_place, eval_index_value,
  lvalue_local, read_reference, lvalue_value, slot_cell, local_cell, reference_cell,
  lvalue_target_cell,
}
use ast_interpreter.Eval.Assign.{
  strip_clone, is_index, resolve_array_target, store_element, store_cell, store,
}
use ast_interpreter.Related.Closed.{Closed, lifts, options, branches}
use ast_interpreter.Related.Cells.{deep_copy-Rel, tuple_cells_of-Rel, store_flattened-Rel}

module _ {F : Type 0} (c : Closed F) where
  abbrev pub EvRel : (ev ev' : Evaluator F) → Type 0
  EvRel ev ev' = (e : Expression) → c.Rel (ev e) (ev' e)

  expect_value-Rel : (flow : Flow F) → c.Rel (expect_value flow) (expect_value flow)
  unfolding expect_value
  expect_value-Rel (Flow.normal v) = c.returns v
  expect_value-Rel _ = c.fails _

  pub load_slot-Rel : (v : Value F) → c.Rel (load_slot v) (load_slot v)
  unfolding load_slot
  load_slot-Rel (Value.ref a true) = c.reads a
  load_slot-Rel _ = c.returns _

  pub index_value-Rel :
      (l : Location) (v : Value F) (i : ℕ) → c.Rel (index_value l v i) (index_value l v i)
  unfolding index_value element_at
  index_value-Rel l (Value.array vs) i = options c _ _
  index_value-Rel l _ i = c.fails _

  place_of_reference-Rel : (v : Value F) → c.Rel (place_of_reference v) (place_of_reference v)
  unfolding place_of_reference
  place_of_reference-Rel (Value.ref a _) = c.returns _
  place_of_reference-Rel _ = c.fails _

  field_cell-Rel :
      (cells : List Address) (i : ℕ) (e : InterpretError)
      → c.Rel (field_cell cells i e) (field_cell cells i e)
  unfolding field_cell
  field_cell-Rel cells i e = options c _ e

  pub eval_local-Rel : (n m : ℕ) → n ≤ m → (id : ℕ) → c.Rel (eval_local n id) (eval_local m id)
  unfolding eval_local
  eval_local-Rel n m h id =
      c.bind (c.env_gets id _) (λ slot. c.bind (load_slot-Rel slot) (λ v. deep_copy-Rel c n m h v))

module _ {F : Type 0} (c : Closed F) (n m : ℕ) (h : n ≤ m) {ev ev' : Evaluator F}
    (r : EvRel c ev ev') where
  pub eval_expr_value-Rel : (e : Expression) → c.Rel (eval_expr_value ev e) (eval_expr_value ev' e)
  unfolding eval_expr_value
  eval_expr_value-Rel e = c.bind (r e) (λ flow. expect_value-Rel c flow)

  place_of_unary-Rel :
      (op : UnaryOp) (skip : Bool) (e : Expression)
      → c.Rel (place_of_unary n ev op skip e) (place_of_unary m ev' op skip e)
  unfolding place_of_unary
  place_of_unary-Rel UnaryOp.dereference skip e =
      c.bind (eval_expr_value-Rel e) (λ v. place_of_reference-Rel c v)
  place_of_unary-Rel _ skip e = eval_expr_value-Rel _

  place_of_definition-Rel :
      (d : Definition) → c.Rel (place_of_definition n ev d) (place_of_definition m ev' d)
  unfolding place_of_definition
  place_of_definition-Rel (Definition.local id) = c.env_gets id _
  place_of_definition-Rel _ = eval_expr_value-Rel _

  pub eval_place-Rel : (e : Expression) → c.Rel (eval_place n ev e) (eval_place m ev' e)
  unfolding eval_place
  eval_place-Rel (Expression.ident d) = place_of_definition-Rel d
  eval_place-Rel (Expression.extract_tuple_field inner i) = c.bind (eval_place-Rel inner) (λ place.
      c.bind (tuple_cells_of-Rel c n m h place)
        (λ cells. c.bind (field_cell-Rel c cells i _) (λ cell. c.returns _)))
  eval_place-Rel (Expression.unary op skip e) = place_of_unary-Rel op skip e
  eval_place-Rel _ = eval_expr_value-Rel _

  pub eval_index_value-Rel :
      (e : Expression) → c.Rel (eval_index_value n ev e) (eval_index_value m ev' e)
  unfolding eval_index_value
  eval_index_value-Rel e = c.bind (eval_expr_value-Rel e) (λ v. lifts c _)

  lvalue_local-Rel : (d : Definition) → c.Rel (lvalue_local n ev d) (lvalue_local m ev' d)
  unfolding lvalue_local
  lvalue_local-Rel (Definition.local id) = c.bind (c.env_gets id _) (λ slot. load_slot-Rel c slot)
  lvalue_local-Rel _ = c.fails _

  read_reference-Rel : (v : Value F) → c.Rel (read_reference n ev v) (read_reference m ev' v)
  unfolding read_reference
  read_reference-Rel (Value.ref a _) = c.reads a
  read_reference-Rel _ = c.fails _

  pub lvalue_value-Rel : (l : LValue) → c.Rel (lvalue_value n ev l) (lvalue_value m ev' l)
  unfolding lvalue_value
  lvalue_value-Rel (LValue.place_ident d) = lvalue_local-Rel d
  lvalue_value-Rel (LValue.member_access object i) = c.bind (lvalue_value-Rel object) (λ v.
      c.bind (tuple_cells_of-Rel c n m h v)
        (λ cells. c.bind (field_cell-Rel c cells i _) (λ cell. c.reads cell)))
  lvalue_value-Rel (LValue.place_index array position location) =
      c.bind (lvalue_value-Rel array)
        (λ v. c.bind (eval_index_value-Rel position) (λ i. index_value-Rel c location v i))
  lvalue_value-Rel (LValue.place_dereference reference) =
      c.bind (lvalue_value-Rel reference) (λ v. read_reference-Rel v)
  lvalue_value-Rel (LValue.place_clone inner) = lvalue_value-Rel inner

  slot_cell-Rel : (v : Value F) → c.Rel (slot_cell n ev v) (slot_cell m ev' v)
  unfolding slot_cell
  slot_cell-Rel (Value.ref a _) = c.returns a
  slot_cell-Rel _ = c.fails _

  local_cell-Rel : (d : Definition) → c.Rel (local_cell n ev d) (local_cell m ev' d)
  unfolding local_cell
  local_cell-Rel (Definition.local id) = c.bind (c.env_gets id _) (λ slot. slot_cell-Rel slot)
  local_cell-Rel _ = c.fails _

  reference_cell-Rel : (v : Value F) → c.Rel (reference_cell n ev v) (reference_cell m ev' v)
  unfolding reference_cell
  reference_cell-Rel (Value.ref a _) = c.returns a
  reference_cell-Rel _ = c.fails _

  pub lvalue_target_cell-Rel :
      (l : LValue) → c.Rel (lvalue_target_cell n ev l) (lvalue_target_cell m ev' l)
  unfolding lvalue_target_cell
  lvalue_target_cell-Rel (LValue.place_ident d) = local_cell-Rel d
  lvalue_target_cell-Rel (LValue.member_access object i) =
      c.bind (lvalue_value-Rel object)
        (λ v. c.bind (tuple_cells_of-Rel c n m h v) (λ cells. field_cell-Rel c cells i _))
  lvalue_target_cell-Rel (LValue.place_dereference reference) =
      c.bind (lvalue_value-Rel reference) (λ v. reference_cell-Rel v)
  lvalue_target_cell-Rel (LValue.place_clone inner) = lvalue_target_cell-Rel inner
  lvalue_target_cell-Rel (LValue.place_index _ _ _) = c.fails _

  resolve_array_target-Rel :
      (l : LValue) → c.Rel (resolve_array_target n ev l) (resolve_array_target m ev' l)
  unfolding resolve_array_target
  resolve_array_target-Rel (LValue.place_index array position location) =
      c.bind
        (branches c (is_index (strip_clone array)) (resolve_array_target-Rel array)
          (c.bind (lvalue_target_cell-Rel (strip_clone array)) (λ a. c.returns _)))
        (λ p. c.bind (eval_index_value-Rel position) (λ i. c.returns _))
  resolve_array_target-Rel (LValue.place_clone inner) = resolve_array_target-Rel inner
  resolve_array_target-Rel _ = c.fails _

  store_cell-Rel : (l : LValue) (v : Value F) → c.Rel (store_cell n ev l v) (store_cell m ev' l v)
  unfolding store_cell
  store_cell-Rel l v =
      c.bind (lvalue_target_cell-Rel l) (λ cell. store_flattened-Rel c n m h cell v)

  pub store-Rel : (l : LValue) (v : Value F) → c.Rel (store n ev l v) (store m ev' l v)
  unfolding store store_element
  store-Rel (LValue.place_clone inner) v = store-Rel inner v
  store-Rel (LValue.place_index array position location) v =
      c.bind (resolve_array_target-Rel (LValue.place_index array position location))
        (λ p. c.bind (c.reads p.0) (λ old. c.bind (lifts c _) (λ new. c.writes p.0 new)))
  store-Rel (LValue.place_ident d) v = store_cell-Rel _ v
  store-Rel (LValue.member_access object i) v = store_cell-Rel _ v
  store-Rel (LValue.place_dereference reference) v = store_cell-Rel _ v
