-- ===== src/Eval/Cells.antt =====
-- src/value.rs and src/eval.rs: copies of values and walks through shared cells. A walk that follows
-- cells runs on fuel.
use ast_interpreter.Base.{
  ℕ, zero, suc, Bool, false, List, [], ◌∷◌, Option, none, some, length, get_elem?, ◌==◌, ◌||◌,
  if◌then◌else◌,
}
use ast_interpreter.Error.{type_error, unsupported}
use ast_interpreter.Value.Data.{Value, Values, nil, cons, Address}
use ast_interpreter.Machine.{
  M, pure, fail, panics, no_fuel, ok_or_fail, alloc, read, write, ◌>>=◌, ◌>>◌,
}

abbrev pub holds : Address → List Address → Bool
holds a [] = false
holds a (b ∷ bs) = a == b || holds a bs

module _ {F : Type 0} where
  unfoldable pub copy_cells : (Value F → M F (Value F)) → List Address → M F (List Address)
  copy_cells copy [] = pure []
  copy_cells copy (c ∷ cs) = do
    v ← read c
    w ← copy v
    a ← alloc w
    as' ← copy_cells copy cs
    pure (a ∷ as')

  unfoldable pub copy_values : (Value F → M F (Value F)) → Values F → M F (Values F)
  copy_values copy nil = pure nil
  copy_values copy (cons v vs) = do w ← copy v; ws ← copy_values copy vs; pure (cons w ws)

  unfoldable pub deep_copy : ℕ → Value F → M F (Value F)
  unfolding copy_cells copy_values
  deep_copy zero v = no_fuel
  deep_copy (suc n) (Value.tuple cells) = do
    cs ← copy_cells (deep_copy n) cells
    pure (Value.tuple cs)
  deep_copy (suc n) (Value.array elements) = do
    vs ← copy_values (deep_copy n) elements
    pure (Value.array vs)
  deep_copy (suc n) (Value.fmt_str fragments captures) = do
    vs ← copy_values (deep_copy n) captures
    pure (Value.fmt_str fragments vs)
  deep_copy (suc n) other = pure other

  unfoldable pub read_copy : ℕ → Address → M F (Value F)
  read_copy n c = do v ← read c; deep_copy n v

  -- The copies of the cells, in order.
  unfoldable pub read_copies : ℕ → List Address → M F (List (Value F))
  unfolding read_copy
  read_copies n [] = pure []
  read_copies n (c ∷ cs) = do v ← read_copy n c; vs ← read_copies n cs; pure (v ∷ vs)

  -- `Value::tuple`: each field in a cell of its own.
  unfoldable pub alloc_all : List (Value F) → M F (List Address)
  alloc_all [] = pure []
  alloc_all (v ∷ vs) = do a ← alloc v; as' ← alloc_all vs; pure (a ∷ as')

  unfoldable pub make_tuple : List (Value F) → M F (Value F)
  unfolding alloc_all
  make_tuple vs = do cells ← alloc_all vs; pure (Value.tuple cells)

  unfoldable pub tuple_field : ℕ → Value F → ℕ → M F (Value F)
  unfolding read_copy
  tuple_field n (Value.tuple cells) i = do
    c ← ok_or_fail (get_elem? cells i) (type_error "tuple field out of bounds")
    read_copy n c
  tuple_field n _ i = fail (type_error "cannot extract field from ")

  unfoldable pub deref : ℕ → Value F → M F (Value F)
  unfolding read_copy
  deref n (Value.ref c _) = read_copy n c
  deref n _ = fail (unsupported "dereference of a non-reference value (")

  -- The field's cell, under as many references as the operand has.
  unfoldable pub project_reference : ℕ → Address → ℕ → M F (Value F)
  project_reference zero c i = no_fuel
  project_reference (suc n) c i = do
    v ← read c
    elim v [
      | Value.tuple cells ↦ do
        field ← ok_or_fail (get_elem? cells i) (type_error "tuple field out of bounds")
        pure (Value.ref field false)
      | Value.ref inner _ ↦ do
        projected ← project_reference n inner i
        a ← alloc projected
        pure (Value.ref a false)
      | _ ↦ fail (type_error "cannot extract field through a reference to ")
    ]

  unfoldable pub tuple_cells_of : ℕ → Value F → M F (List Address)
  tuple_cells_of zero v = no_fuel
  tuple_cells_of (suc n) (Value.tuple cells) = pure cells
  tuple_cells_of (suc n) (Value.ref c _) = do v ← read c; tuple_cells_of n v
  tuple_cells_of (suc n) _ = fail (unsupported "field access on a non-tuple value (")

  -- The cells of two tuples of the same size.
  unfoldable pub paired_cells : Value F → Value F → Option (List Address × List Address)
  paired_cells (Value.tuple ts) (Value.tuple rs) =
      if length ts == length rs then some (ts, rs) else none
  paired_cells _ _ = none

  -- `borrow_mut` panics at a cell that a caller has borrowed.
  unfoldable pub write_free : List Address → Address → Value F → M F (Unit {0})
  write_free held a v = if holds a held then panics else write a v

  unfoldable pub store_cells :
      (Address → Value F → M F (Unit {0})) → List Address → List Address → M F (Unit {0})
  store_cells store (t ∷ ts) (r ∷ rs) = do v ← read r; store t v; store_cells store ts rs
  store_cells store _ _ = pure tt

  -- Two tuples are stored cell by cell; any other value takes the place of the old one.
  unfoldable pub store_paired :
      (Address → Value F → M F (Unit {0}))
      → List Address
      → Address
      → Value F
      → Option (List Address × List Address)
      → M F (Unit {0})
  unfolding write_free store_cells
  store_paired store held target rhs (some (ts, rs)) = store_cells store ts rs
  store_paired store held target rhs none = write_free held target rhs

  -- `store_flattened`, called while the cells `held` are borrowed.
  unfoldable pub store_held : ℕ → List Address → Address → Value F → M F (Unit {0})
  unfolding paired_cells store_paired
  store_held zero held target rhs = no_fuel
  store_held (suc n) held target rhs = do
    old ← read target
    store_paired (store_held n (target ∷ held)) held target rhs (paired_cells old rhs)

  unfoldable pub store_flattened : ℕ → Address → Value F → M F (Unit {0})
  unfolding store_held
  store_flattened n target rhs = store_held n [] target rhs
