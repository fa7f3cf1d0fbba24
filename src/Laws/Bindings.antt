-- ===== src/Laws/Bindings.antt =====
-- src/input.rs: the types of what a parsed `Prover.toml` becomes.
use ast_interpreter.Base.{
  ℕ, suc, ◌≡◌, refl, ap, Bool, true, false, not, ◌&&◌, List, ◌∷◌, some, ◌==◌, inl, inr, arith,
}
use ast_interpreter.Base.Int.{pos}
use ast_interpreter.Error.{ok, ◌>>=◌ as bind}
use ast_interpreter.Value.Ints.{canonical}
use ast_interpreter.Value.Data.{Value, cons}
use ast_interpreter.Ast.{MonoType, Types}
use ast_interpreter.Host.{Host, FieldId}
use ast_interpreter.Machine.{Machine, M, lift}
use ast_interpreter.Prover.Abi.{
  AbiType, AbiTypes, AbiFields, with_type, no_types, no_fields, with_field, InputValue, InputValues,
  no_inputs, with_input, InputMap, Bridge, get, input_count, type_count, field_count,
}
use ast_interpreter.Prover.Bind.{
  scalar_abi_matches, element, field_from, scalar_from, each, value_from_input, values_from_fields,
  values_from_map, takes_scalar, count_types,
}
use ast_interpreter.Laws.Typing.{HasType, HasType-Grown, ForEach, count_values}
use ast_interpreter.Laws.After.{
  After, After-then, After-map, After-both, After-guard, After-ok_or_fail, After-given_or_fail,
  canonical_lem,
}
use ast_interpreter.Laws.Tuples.{AllTyped, tuple-After, array-After}

module _ {F S : Type 0} (host : Host F) (bridge : Bridge F S) (field : FieldId)
    (of_field : (n : ℕ) (f : F)
      → bridge.try_from_biguint n field ≡ some f
      → (host.field_of f == field) ≡ true) where
  abbrev Typed : MonoType → List (Value F) → Value F → Type 0
  Typed type heap v = HasType host field heap type v

  -- Any scalar of any type: no claim.
  abbrev Anything : {A : Type 0} → List (Value F) → A → Type 0
  Anything heap a = Unit

  element-After :
      (abi_type : AbiType) (x : S) (s : Machine F)
      → After Anything s (element bridge field abi_type x s)
  unfolding element
  element-After abi_type x s = After-given_or_fail _ (bridge.encode_scalar x abi_type field) s

  field_from-After :
      (e : ℕ) (s : Machine F) → After (Typed MonoType.field) s (field_from bridge field e s)
  unfolding field_from HasType
  field_from-After e s =
      After-then (λ heap f. bridge.try_from_biguint e field ≡ some f) (Typed MonoType.field) s _ _
        (After-ok_or_fail (bridge.try_from_biguint e field) _ s)
        (λ f t g p. (λ i v h. h, of_field e f p))

  int_from-After :
      (signed : Bool) (bits e : ℕ) (s : Machine F)
      → After
          (Typed (MonoType.integer signed bits))
          s
          (lift (bind (canonical signed bits (pos e)) (λ i. ok (Value.int i))) s)
  unfolding HasType
  int_from-After signed bits e s = elim (canonical_lem signed bits (pos e)) [
    | inl p ↦ rw p tt
    | inr (i, p, a, b, c) ↦ rw p (λ j v k. k, (a, b, c))
  ]

  scalar_from-After :
      (abi_type : AbiType) (x : S) (type : MonoType) (s : Machine F)
      → After (Typed type) s (scalar_from bridge field abi_type x type s)
  unfolding scalar_from HasType
  scalar_from-After abi_type x MonoType.field s =
      After-then Anything (Typed MonoType.field) s _ _ (element-After abi_type x s)
        (λ e t g p. field_from-After e t)
  scalar_from-After abi_type x (MonoType.integer signed bits) s =
      After-then Anything (Typed (MonoType.integer signed bits)) s _ _ (element-After abi_type x s)
        (λ e t g p. int_from-After signed bits e t)
  scalar_from-After abi_type x MonoType.bool s =
      After-then Anything (Typed MonoType.bool) s _ _ (element-After abi_type x s)
        (λ e t g p. (λ i v h. h, tt))
  scalar_from-After abi_type x _ s = tt

  each-After :
      (read : InputValue S → M F (Value F)) (type : MonoType) (elements : InputValues S)
      (s : Machine F)
      → ((v : InputValue S) (t : Machine F) → After (Typed type) t (read v t))
      → After
          (λ heap vs. (count_values vs ≡ input_count elements) × ForEach (Typed type heap) vs)
          s
          (each bridge field read elements s)
  each-After read type no_inputs s h = (λ i v e. e, (refl, tt))
  each-After read type (with_input v elements) s h =
      After-both (Typed type)
        (λ heap vs. (count_values vs ≡ input_count elements) × ForEach (Typed type heap) vs)
        (λ heap vs. (count_values vs ≡ suc (input_count elements)) × ForEach (Typed type heap) vs) s
        (read v s) (λ w. each bridge field read elements) cons
        (λ heap later w g p. HasType-Grown host field heap later type w g p)
        (λ heap w ws p (e, q). (ap suc e, (p, q))) (h v s)
        (λ w t g p. each-After read type elements t h)

  equal_of_not : (a b : ℕ) → not (a == b) ≡ false → a ≡ b
  equal_of_not a b h = ground arith

  mutual
    unfolding value_from_input values_from_fields values_from_map HasType

    pub value_from_input-After :
        (input : InputValue S) (type : MonoType) (abi_type : AbiType) (s : Machine F)
        → After (Typed type) s (value_from_input bridge field input type abi_type s)
    value_from_input-After (InputValue.scalar x) type abi_type s =
        After-guard (Typed type) s (takes_scalar type && not (scalar_abi_matches abi_type type)) _ _
          (λ e. scalar_from-After abi_type x type s)
    value_from_input-After (InputValue.vec elements) (MonoType.array n element_type)
          (AbiType.array abi_length element_abi) s =
        After-guard (Typed (MonoType.array n element_type)) s (not (abi_length == n)) _ _ (λ e.
          After-guard (Typed (MonoType.array n element_type)) s (not (input_count elements == n)) _
            _
            (λ e'.
              array-After host field element_type n elements _ s
                (equal_of_not (input_count elements) n e')
                (each-After _ element_type elements s
                  (λ v t. value_from_input-After v element_type element_abi t))))
    value_from_input-After (InputValue.vec elements) (MonoType.tuple types) (AbiType.tuple fields)
          s =
        After-guard (Typed (MonoType.tuple types)) s (not (type_count fields == count_types types))
          _ _
          (λ e.
            After-guard (Typed (MonoType.tuple types)) s
              (not (input_count elements == count_types types)) _ _
              (λ e'. tuple-After host field types _ s (
                values_from_fields-After fields types elements s (equal_of_not _ _ e)
                  (equal_of_not _ _ e'))))
    value_from_input-After (InputValue.struct map) (MonoType.tuple types) (AbiType.struct fields)
          s =
        After-guard (Typed (MonoType.tuple types)) s (not (field_count fields == count_types types))
          _ _
          (λ e.
            tuple-After host field types _ s
              (values_from_map-After fields types map s (equal_of_not _ _ e)))
    value_from_input-After (InputValue.string bytes) (MonoType.string _) _ s = (λ i v e. e, tt)
    value_from_input-After (InputValue.vec _) MonoType.field _ s = tt
    value_from_input-After (InputValue.vec _) MonoType.bool _ s = tt
    value_from_input-After (InputValue.vec _) MonoType.unit _ s = tt
    value_from_input-After (InputValue.vec _) MonoType.other _ s = tt
    value_from_input-After (InputValue.vec _) (MonoType.integer _ _) _ s = tt
    value_from_input-After (InputValue.vec _) (MonoType.string _) _ s = tt
    value_from_input-After (InputValue.vec _) (MonoType.array _ _) _ s = tt
    value_from_input-After (InputValue.vec _) (MonoType.tuple _) _ s = tt
    value_from_input-After (InputValue.struct _) MonoType.field _ s = tt
    value_from_input-After (InputValue.struct _) MonoType.bool _ s = tt
    value_from_input-After (InputValue.struct _) MonoType.unit _ s = tt
    value_from_input-After (InputValue.struct _) MonoType.other _ s = tt
    value_from_input-After (InputValue.struct _) (MonoType.integer _ _) _ s = tt
    value_from_input-After (InputValue.struct _) (MonoType.string _) _ s = tt
    value_from_input-After (InputValue.struct _) (MonoType.array _ _) _ s = tt
    value_from_input-After (InputValue.struct _) (MonoType.tuple _) _ s = tt
    value_from_input-After (InputValue.string _) MonoType.field _ s = tt
    value_from_input-After (InputValue.string _) MonoType.bool _ s = tt
    value_from_input-After (InputValue.string _) MonoType.unit _ s = tt
    value_from_input-After (InputValue.string _) MonoType.other _ s = tt
    value_from_input-After (InputValue.string _) (MonoType.integer _ _) _ s = tt
    value_from_input-After (InputValue.string _) (MonoType.array _ _) _ s = tt
    value_from_input-After (InputValue.string _) (MonoType.tuple _) _ s = tt

    pub values_from_fields-After :
        (fields : AbiTypes) (types : Types) (elements : InputValues S) (s : Machine F)
        → type_count fields ≡ count_types types
        → input_count elements ≡ count_types types
        → After
            (AllTyped host field types)
            s
            (values_from_fields bridge field fields types elements s)
    values_from_fields-After no_types Types.nil no_inputs s e e' = (λ i v k. k, tt)
    values_from_fields-After (with_type abi_type fields) (Types.cons type types)
          (with_input v elements) s e e' =
        After-both (Typed type) (AllTyped host field types)
          (AllTyped host field (Types.cons type types)) s _
          (λ w. values_from_fields bridge field fields types elements) (λ w ws. w ∷ ws)
          (λ heap later w g p. HasType-Grown host field heap later type w g p)
          (λ heap w ws p q. (p, q)) (value_from_input-After v type abi_type s)
          (λ w t g p. values_from_fields-After fields types elements t (omega arith) (omega arith))
    values_from_fields-After _ _ _ s e e' = absurd (omega arith)

    pub values_from_map-After :
        (fields : AbiFields) (types : Types) (map : InputMap S) (s : Machine F)
        → field_count fields ≡ count_types types
        → After (AllTyped host field types) s (values_from_map bridge field fields types map s)
    values_from_map-After no_fields Types.nil map s e = (λ i v k. k, tt)
    values_from_map-After (with_field name abi_type fields) (Types.cons type types) map s e =
        After-then Anything (AllTyped host field (Types.cons type types)) s _ _
          (After-map (λ heap v. get name map ≡ some v) Anything s _ (λ a t g p. tt)
            (After-ok_or_fail (get name map) _ s))
          (λ v t g p.
            After-both (Typed type) (AllTyped host field types)
              (AllTyped host field (Types.cons type types)) t _
              (λ w. values_from_map bridge field fields types map) (λ w ws. w ∷ ws)
              (λ heap later w g' q. HasType-Grown host field heap later type w g' q)
              (λ heap w ws q r. (q, r)) (value_from_input-After v type abi_type t)
              (λ w u g' q. values_from_map-After fields types map u (omega arith)))
    values_from_map-After _ _ map s e = absurd (omega arith)
