-- ===== src/Laws/Readings.antt =====
-- src/input.rs: the contents of the values that a parsed `Prover.toml` becomes.
use ast_interpreter.Base.{ℕ, ◌≡◌, ◌<◌, List, [], ◌∷◌, some, ◌==◌, get_elem?}
use ast_interpreter.Base.Int.{pos}
use ast_interpreter.Error.{Text}
use ast_interpreter.Value.Wrap.{Congruent}
use ast_interpreter.Value.Pattern.{IsCanonical}
use ast_interpreter.Value.Data.{Value, Values, nil, cons, Address}
use ast_interpreter.Ast.{MonoType, Types}
use ast_interpreter.Host.{FieldId}
use ast_interpreter.Prover.Abi.{
  AbiType, AbiTypes, AbiFields, with_type, no_types, no_fields, with_field, InputValue, InputValues,
  no_inputs, with_input, InputMap, Bridge, Abi, given, get, find_type,
}
use ast_interpreter.Laws.Typing.{Grown}

-- The cells hold the values, one by one.
abbrev pub CellsHold : {F : Type 0} → List (Value F) → List Address → List (Value F) → Type 0
CellsHold heap [] [] = Unit
CellsHold heap (c ∷ cells) (v ∷ vs) = (get_elem? heap c ≡ some v) × CellsHold heap cells vs
CellsHold heap _ _ = ⊥

pub CellsHold-Grown :
    {F : Type 0} (heap later : List (Value F)) (cells : List Address) (vs : List (Value F))
    → Grown heap later
    → CellsHold heap cells vs
    → CellsHold later cells vs
CellsHold-Grown heap later [] [] g h = tt
CellsHold-Grown heap later (c ∷ cells) (v ∷ vs) g (e, h) =
    (g c v e, CellsHold-Grown heap later cells vs g h)
CellsHold-Grown heap later [] (v ∷ vs) g h = absurd h
CellsHold-Grown heap later (c ∷ cells) [] g h = absurd h

-- The relation holds of the inputs and the values, one by one.
abbrev pub EachRead :
    {F S : Type 0} → (InputValue S → Value F → Type 0) → InputValues S → Values F → Type 0
EachRead R no_inputs nil = Unit
EachRead R (with_input x xs) (cons v vs) = R x v × EachRead R xs vs
EachRead R _ _ = ⊥

EachRead-map :
    {F S : Type 0} (R Q : InputValue S → Value F → Type 0)
    → ((x : InputValue S) (v : Value F) → R x v → Q x v)
    → (xs : InputValues S) (vs : Values F) → EachRead R xs vs
    → EachRead Q xs vs
EachRead-map R Q f no_inputs nil h = tt
EachRead-map R Q f (with_input x xs) (cons v vs) (p, h) = (f x v p, EachRead-map R Q f xs vs h)
EachRead-map R Q f no_inputs (cons v vs) h = absurd h
EachRead-map R Q f (with_input x xs) nil h = absurd h

module _ {F S : Type 0} (bridge : Bridge F S) (field : FieldId) where
  -- The value of a type that an input of an ABI type is read as: a scalar is what its encoding stands
  -- for, which is congruent to an integer, a string has the input's bytes, and the elements of an array
  -- and the cells of a tuple are read from the elements in order or from the fields in the ABI's order.
  unfoldable mutual
    pub Reads : List (Value F) → MonoType → AbiType → InputValue S → Value F → Type 0
    Reads heap MonoType.field abi (InputValue.scalar x) (Value.field f) =
        (abi ≡ AbiType.field)
        × ((e : ℕ) × (bridge.encode_scalar x abi field ≡ given e)
            × (bridge.try_from_biguint e field ≡ some f))
    Reads heap MonoType.bool abi (InputValue.scalar x) (Value.bool b) =
        (abi ≡ AbiType.boolean)
        × ((e : ℕ) × (bridge.encode_scalar x abi field ≡ given e) × (b ≡ (e == 1)))
    Reads heap (MonoType.integer signed bits) abi (InputValue.scalar x) (Value.int i) =
        (abi ≡ AbiType.integer signed bits)
        × ((e : ℕ) × (bridge.encode_scalar x abi field ≡ given e)
            × (i.signed ≡ signed)
            × (i.bits ≡ bits)
            × (0 < bits → IsCanonical i × Congruent bits (pos e) i.value))
    Reads heap (MonoType.string _) abi (InputValue.string bytes) (Value.str bs) = bs ≡ bytes
    Reads heap (MonoType.array n type) (AbiType.array m abi) (InputValue.vec xs) (Value.array vs) =
        (m ≡ n) × EachRead (Reads heap type abi) xs vs
    Reads heap (MonoType.tuple types) (AbiType.tuple fields) (InputValue.vec xs)
          (Value.tuple cells) =
        (vs : List (Value F)) × CellsHold heap cells vs × ReadsFields heap types fields xs vs
    Reads heap (MonoType.tuple types) (AbiType.struct fields) (InputValue.struct map)
          (Value.tuple cells) =
        (vs : List (Value F)) × CellsHold heap cells vs × ReadsMap heap types fields map vs
    Reads heap _ _ _ _ = ⊥

    pub ReadsFields : List (Value F) → Types → AbiTypes → InputValues S → List (Value F) → Type 0
    ReadsFields heap Types.nil no_types no_inputs [] = Unit
    ReadsFields heap (Types.cons type types) (with_type abi fields) (with_input x xs) (v ∷ vs) =
        Reads heap type abi x v × ReadsFields heap types fields xs vs
    ReadsFields heap _ _ _ _ = ⊥

    pub ReadsMap : List (Value F) → Types → AbiFields → InputMap S → List (Value F) → Type 0
    ReadsMap heap Types.nil no_fields map [] = Unit
    ReadsMap heap (Types.cons type types) (with_field name abi fields) map (v ∷ vs) =
        ((x : InputValue S) × (get name map ≡ some x) × Reads heap type abi x v)
        × ReadsMap heap types fields map vs
    ReadsMap heap _ _ _ _ = ⊥

  -- Each parameter's value is read from its input.
  abbrev pub AllRead :
      Abi → InputMap S → List (Text × MonoType) → List (Value F) → List (Value F) → Type 0
  AllRead abi map [] heap [] = Unit
  AllRead abi map ((name, type) ∷ parameters) heap (v ∷ vs) =
      ((abi_type : AbiType) × (find_type name abi.parameters ≡ some abi_type)
        × ((x : InputValue S) × (get name map ≡ some x) × Reads heap type abi_type x v))
      × AllRead abi map parameters heap vs
  AllRead abi map _ heap _ = ⊥

  mutual
    unfolding Reads ReadsFields ReadsMap

    pub Reads-Grown :
        (heap later : List (Value F)) (type : MonoType) (abi : AbiType) (x : InputValue S)
        (v : Value F)
        → Grown heap later
        → Reads heap type abi x v
        → Reads later type abi x v
    Reads-Grown heap later MonoType.field abi (InputValue.scalar x) (Value.field f) g h = h
    Reads-Grown heap later MonoType.bool abi (InputValue.scalar x) (Value.bool b) g h = h
    Reads-Grown heap later (MonoType.integer _ _) abi (InputValue.scalar x) (Value.int i) g h = h
    Reads-Grown heap later (MonoType.string _) abi (InputValue.string bytes) (Value.str bs) g h = h
    Reads-Grown heap later (MonoType.array n type) (AbiType.array m abi) (InputValue.vec xs)
          (Value.array vs) g (e, h) =
        (
          e,
          EachRead-map (Reads heap type abi) (Reads later type abi)
              (λ x v. Reads-Grown heap later type abi x v g) xs vs h,
        )
    Reads-Grown heap later (MonoType.tuple types) (AbiType.tuple fields) (InputValue.vec xs)
          (Value.tuple cells) g (vs, c, h) =
        (
          vs,
          CellsHold-Grown heap later cells vs g c,
          ReadsFields-Grown heap later types fields xs vs g h,
        )
    Reads-Grown heap later (MonoType.tuple types) (AbiType.struct fields) (InputValue.struct map)
          (Value.tuple cells) g (vs, c, h) =
        (
          vs,
          CellsHold-Grown heap later cells vs g c,
          ReadsMap-Grown heap later types fields map vs g h,
        )
    Reads-Grown heap later _ _ _ _ g h = absurd h

    pub ReadsFields-Grown :
        (heap later : List (Value F)) (types : Types) (fields : AbiTypes) (xs : InputValues S)
        (vs : List (Value F))
        → Grown heap later
        → ReadsFields heap types fields xs vs
        → ReadsFields later types fields xs vs
    ReadsFields-Grown heap later Types.nil no_types no_inputs [] g h = tt
    ReadsFields-Grown heap later (Types.cons type types) (with_type abi fields) (with_input x xs)
          (v ∷ vs) g (p, h) =
        (
          Reads-Grown heap later type abi x v g p,
          ReadsFields-Grown heap later types fields xs vs g h,
        )
    ReadsFields-Grown heap later _ _ _ _ g h = absurd h

    pub ReadsMap-Grown :
        (heap later : List (Value F)) (types : Types) (fields : AbiFields) (map : InputMap S)
        (vs : List (Value F))
        → Grown heap later
        → ReadsMap heap types fields map vs
        → ReadsMap later types fields map vs
    ReadsMap-Grown heap later Types.nil no_fields map [] g h = tt
    ReadsMap-Grown heap later (Types.cons type types) (with_field name abi fields) map (v ∷ vs) g
          ((x, e, p), h) =
        (
          (x, e, Reads-Grown heap later type abi x v g p),
          ReadsMap-Grown heap later types fields map vs g h,
        )
    ReadsMap-Grown heap later _ _ map _ g h = absurd h
