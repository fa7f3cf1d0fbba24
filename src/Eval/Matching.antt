-- ===== src/Eval/Matching.antt =====
-- src/eval.rs: the tests and bindings of a `match`.
use ast_interpreter.Base.{
  ℕ, suc, Bool, true, false, not, List, [], ◌∷◌, none, some, length, get_elem?, ◌==◌, if◌then◌else◌,
}
use ast_interpreter.Base.Int.{ℤ, pos, eqb_ℤ}
use ast_interpreter.Error.{type_error, unsupported, internal}
use ast_interpreter.Value.Data.{Value, Address, as_bool, as_int}
use ast_interpreter.Ast.{Constructor}
use ast_interpreter.Host.{Host}
use ast_interpreter.Machine.{M, pure, fail, lift, ok_or_fail, read, env_insert, ◌>>=◌, ◌>>◌}
use ast_interpreter.Eval.Cells.{read_copy}

module _ {F : Type 0} (host : Host F) where
  -- A literal is read in the scrutinee's field; one that the field cannot hold matches nothing.
  unfoldable pub field_matches : ℤ → F → Bool
  field_matches want f = elim (host.try_from_bigint want (host.field_of f)) [
    | some g ↦ host.equal g f
    | none ↦ false
  ]

  unfoldable pub int_matches : ℤ → Value F → M F Bool
  unfolding field_matches
  int_matches want (Value.field f) = pure (field_matches want f)
  int_matches want scrutinee = do i ← lift (as_int scrutinee); pure (eqb_ℤ i.value want)

  unfoldable pub tag_matches : ℕ → Value F → M F Bool
  tag_matches index (Value.field tag) = pure (eqb_ℤ (host.to_bigint tag) (pos index))
  tag_matches index _ = fail (type_error "enum tag is not a Field")

  unfoldable pub variant_matches : ℕ → Value F → M F Bool
  unfolding tag_matches
  variant_matches index (Value.tuple (cell ∷ _)) = do tag ← read cell; tag_matches index tag
  variant_matches index (Value.tuple []) = fail (type_error "enum value missing its Field tag")
  variant_matches index _ = fail (type_error "match on non-enum value ")

  unfoldable pub case_matches : Constructor → Value F → M F Bool
  unfolding int_matches variant_matches
  case_matches Constructor.unit scrutinee = pure true
  case_matches Constructor.tuple scrutinee = pure true
  case_matches Constructor.true scrutinee = lift (as_bool scrutinee)
  case_matches Constructor.false scrutinee = do b ← lift (as_bool scrutinee); pure (not b)
  case_matches (Constructor.int want) scrutinee = int_matches want scrutinee
  case_matches (Constructor.variant is_enum index) scrutinee =
      if is_enum then variant_matches index scrutinee else pure true
  case_matches Constructor.range scrutinee = fail (unsupported "match range pattern")

module _ {F : Type 0} where
  unfoldable pub variant_fields : Value F → M F (List Address)
  variant_fields (Value.tuple fields) = pure fields
  variant_fields _ = fail (type_error "enum variant payload missing")

  -- The payload of an enum's variant stands behind the tag.
  unfoldable pub enum_payload : ℕ → Value F → M F (List Address)
  unfolding variant_fields
  enum_payload index (Value.tuple variants) = do
    cell ← ok_or_fail (get_elem? variants (suc index)) (type_error "enum variant payload missing")
    payload ← read cell
    variant_fields payload
  enum_payload index _ = fail (type_error "enum scrutinee is not a tuple")

  unfoldable pub plain_payload : Value F → M F (List Address)
  plain_payload (Value.tuple fields) = pure fields
  plain_payload _ = fail (type_error "tuple/struct scrutinee is not a tuple")

  unfoldable pub payload_cells : Constructor → Value F → M F (List Address)
  unfolding enum_payload plain_payload
  payload_cells (Constructor.variant true index) scrutinee = enum_payload index scrutinee
  payload_cells _ scrutinee = plain_payload scrutinee

  unfoldable pub bind_arguments : ℕ → List ℕ → List Address → M F (Unit {0})
  unfolding read_copy
  bind_arguments n (arg ∷ args) (cell ∷ cells) = do
    v ← read_copy n cell
    env_insert arg v
    bind_arguments n args cells
  bind_arguments n _ _ = pure tt

  unfoldable pub bind_payload : ℕ → List ℕ → List Address → M F (Unit {0})
  unfolding bind_arguments
  bind_payload n args cells =
      if length cells == length args
      then bind_arguments n args cells
      else fail (internal "match arity mismatch: ")

  unfoldable pub bind_case_arguments : ℕ → Constructor → List ℕ → Value F → M F (Unit {0})
  unfolding payload_cells bind_payload
  bind_case_arguments n constructor [] scrutinee = pure tt
  bind_case_arguments n constructor (arg ∷ args) scrutinee = do
    cells ← payload_cells constructor scrutinee
    bind_payload n (arg ∷ args) cells
