-- ===== src/Laws/Sourced.antt =====
-- src/input.rs: each input of `main` is read from the parsed `Prover.toml`.
use ast_interpreter.Base.{String, ◌≡◌, refl, not, ◌&&◌, List, [], ◌∷◌, none, some, ◌==◌, arith}
use ast_interpreter.Error.{Text, InterpretError}
use ast_interpreter.Value.Data.{Value}
use ast_interpreter.Ast.{MonoType, Types, Program}
use ast_interpreter.Host.{FieldId}
use ast_interpreter.Machine.{Machine, Outcome, and_then}
use ast_interpreter.Entry.{main_function_of}
use ast_interpreter.Prover.Abi.{
  AbiType, AbiTypes, AbiFields, with_type, no_types, no_fields, with_field, InputValue, InputValues,
  no_inputs, with_input, InputMap, Bridge, Abi, Signature, Answer, given, get, find_type,
  input_count, type_count, field_count,
}
use ast_interpreter.Prover.Bind.{
  scalar_abi_matches, value_from_input, values_from_fields, values_from_map, takes_scalar,
  count_types, given_or_fail, parse_prover_toml, bind_inputs, inputs_from_prover_toml,
}
use ast_interpreter.Laws.After.{
  After, After-then, After-map, After-both, After-guard, After-ok_or_fail,
}
use ast_interpreter.Laws.Readings.{
  EachRead, Reads, ReadsFields, ReadsMap, AllRead, Reads-Grown, ReadsFields-Grown, ReadsMap-Grown,
}
use ast_interpreter.Laws.Contents.{
  After-given, tuple-Reads, equal_of_not, scalar_from-Reads, each-Reads,
}

module _ {F S : Type 0} (bridge : Bridge F S) (field : FieldId) where
  abbrev Read : MonoType → AbiType → InputValue S → List (Value F) → Value F → Type 0
  Read type abi x heap v = Reads bridge field heap type abi x v

  mutual
    unfolding value_from_input values_from_fields values_from_map Reads ReadsFields ReadsMap

    value_from_input-Reads :
        (x : InputValue S) (type : MonoType) (abi : AbiType) (s : Machine F)
        → After (Read type abi x) s (value_from_input bridge field x type abi s)
    value_from_input-Reads (InputValue.scalar x) type abi s =
        After-guard (Read type abi (InputValue.scalar x)) s
          (takes_scalar type && not (scalar_abi_matches abi type)) _ _
          (λ e. scalar_from-Reads bridge field abi x type s e)
    value_from_input-Reads (InputValue.vec xs) (MonoType.array n type) (AbiType.array m abi) s =
        let Q = Read (MonoType.array n type) (AbiType.array m abi) (InputValue.vec xs) in
        After-guard Q s (not (m == n)) _ _ (λ e.
          After-guard Q s (not (input_count xs == n)) _ _ (λ e'.
            After-then (λ heap vs. EachRead (Reads bridge field heap type abi) xs vs) Q s _ _
              (each-Reads bridge field _ type abi xs s (λ v t. value_from_input-Reads v type abi t))
              (λ vs t g p. (λ i v k. k, (equal_of_not m n e, p)))))
    value_from_input-Reads (InputValue.vec xs) (MonoType.tuple types) (AbiType.tuple fields) s =
        let Q = Read (MonoType.tuple types) (AbiType.tuple fields) (InputValue.vec xs) in
        After-guard Q s (not (type_count fields == count_types types)) _ _ (λ e.
          After-guard Q s (not (input_count xs == count_types types)) _ _ (λ e'.
            tuple-Reads (λ heap vs. ReadsFields bridge field heap types fields xs vs) Q _ s
              (λ heap later vs g h.
                ReadsFields-Grown bridge field heap later types fields xs vs g h)
              (λ heap cells vs c h. (vs, c, h))
              (values_from_fields-Reads fields types xs s (equal_of_not _ _ e)
                (equal_of_not _ _ e'))))
    value_from_input-Reads (InputValue.struct map) (MonoType.tuple types) (AbiType.struct fields)
          s =
        let Q = Read (MonoType.tuple types) (AbiType.struct fields) (InputValue.struct map) in
        After-guard Q s (not (field_count fields == count_types types)) _ _ (λ e.
          tuple-Reads (λ heap vs. ReadsMap bridge field heap types fields map vs) Q _ s
            (λ heap later vs g h. ReadsMap-Grown bridge field heap later types fields map vs g h)
            (λ heap cells vs c h. (vs, c, h))
            (values_from_map-Reads fields types map s (equal_of_not _ _ e)))
    value_from_input-Reads (InputValue.string bytes) (MonoType.string _) _ s = (λ i v e. e, refl)
    value_from_input-Reads (InputValue.vec _) MonoType.field _ s = tt
    value_from_input-Reads (InputValue.vec _) MonoType.bool _ s = tt
    value_from_input-Reads (InputValue.vec _) MonoType.unit _ s = tt
    value_from_input-Reads (InputValue.vec _) MonoType.other _ s = tt
    value_from_input-Reads (InputValue.vec _) (MonoType.integer _ _) _ s = tt
    value_from_input-Reads (InputValue.vec _) (MonoType.string _) _ s = tt
    value_from_input-Reads (InputValue.vec _) (MonoType.array _ _) _ s = tt
    value_from_input-Reads (InputValue.vec _) (MonoType.tuple _) _ s = tt
    value_from_input-Reads (InputValue.struct _) MonoType.field _ s = tt
    value_from_input-Reads (InputValue.struct _) MonoType.bool _ s = tt
    value_from_input-Reads (InputValue.struct _) MonoType.unit _ s = tt
    value_from_input-Reads (InputValue.struct _) MonoType.other _ s = tt
    value_from_input-Reads (InputValue.struct _) (MonoType.integer _ _) _ s = tt
    value_from_input-Reads (InputValue.struct _) (MonoType.string _) _ s = tt
    value_from_input-Reads (InputValue.struct _) (MonoType.array _ _) _ s = tt
    value_from_input-Reads (InputValue.struct _) (MonoType.tuple _) _ s = tt
    value_from_input-Reads (InputValue.string _) MonoType.field _ s = tt
    value_from_input-Reads (InputValue.string _) MonoType.bool _ s = tt
    value_from_input-Reads (InputValue.string _) MonoType.unit _ s = tt
    value_from_input-Reads (InputValue.string _) MonoType.other _ s = tt
    value_from_input-Reads (InputValue.string _) (MonoType.integer _ _) _ s = tt
    value_from_input-Reads (InputValue.string _) (MonoType.array _ _) _ s = tt
    value_from_input-Reads (InputValue.string _) (MonoType.tuple _) _ s = tt

    values_from_fields-Reads :
        (fields : AbiTypes) (types : Types) (xs : InputValues S) (s : Machine F)
        → type_count fields ≡ count_types types
        → input_count xs ≡ count_types types
        → After
            (λ heap vs. ReadsFields bridge field heap types fields xs vs)
            s
            (values_from_fields bridge field fields types xs s)
    values_from_fields-Reads no_types Types.nil no_inputs s e e' = (λ i v k. k, tt)
    values_from_fields-Reads (with_type abi fields) (Types.cons type types) (with_input x xs) s e
          e' =
        After-both (Read type abi x) (λ heap vs. ReadsFields bridge field heap types fields xs vs)
          (λ heap vs.
            ReadsFields bridge field heap (Types.cons type types) (with_type abi fields)
              (with_input x xs) vs)
          s _ (λ w. values_from_fields bridge field fields types xs) (λ w ws. w ∷ ws)
          (λ heap later w g p. Reads-Grown bridge field heap later type abi x w g p)
          (λ heap w ws p q. (p, q)) (value_from_input-Reads x type abi s)
          (λ w t g p. values_from_fields-Reads fields types xs t (omega arith) (omega arith))
    values_from_fields-Reads _ _ _ s e e' = absurd (omega arith)

    values_from_map-Reads :
        (fields : AbiFields) (types : Types) (map : InputMap S) (s : Machine F)
        → field_count fields ≡ count_types types
        → After
            (λ heap vs. ReadsMap bridge field heap types fields map vs)
            s
            (values_from_map bridge field fields types map s)
    values_from_map-Reads no_fields Types.nil map s e = (λ i v k. k, tt)
    values_from_map-Reads (with_field name abi fields) (Types.cons type types) map s e =
        let Q = λ (heap : List (Value F)) (vs : List (Value F)).
          ReadsMap bridge field heap (Types.cons type types) (with_field name abi fields) map vs in
        After-then (λ heap x. get name map ≡ some x) Q s _ _ (After-ok_or_fail (get name map) _ s)
          (λ x t g p.
            After-both (Read type abi x) (λ heap vs. ReadsMap bridge field heap types fields map vs)
              Q t _ (λ w. values_from_map bridge field fields types map) (λ w ws. w ∷ ws)
              (λ heap later w g' q. Reads-Grown bridge field heap later type abi x w g' q)
              (λ heap w ws q r. ((x, p, q), r)) (value_from_input-Reads x type abi t)
              (λ w u g' q. values_from_map-Reads fields types map u (omega arith)))
    values_from_map-Reads _ _ map s e = absurd (omega arith)

  bind_inputs-AllRead :
      (abi : Abi) (map : InputMap S) (parameters : List (Text × MonoType)) (s : Machine F)
      → After
          (AllRead bridge field abi map parameters)
          s
          (bind_inputs bridge field abi map parameters s)
  unfolding bind_inputs
  bind_inputs-AllRead abi map [] s = (λ i v e. e, tt)
  bind_inputs-AllRead abi map ((name, type) ∷ parameters) s =
      let Q = AllRead bridge field abi map ((name, type) ∷ parameters) in
      After-then (λ heap a. find_type name abi.parameters ≡ some a) Q s _ _
        (After-ok_or_fail (find_type name abi.parameters) _ s)
        (λ a t g e.
          After-then (λ heap x. get name map ≡ some x) Q t _ _ (After-ok_or_fail (get name map) _ t)
            (λ x u g' e'.
              After-both (Read type a x) (AllRead bridge field abi map parameters) Q u _
                (λ w. bind_inputs bridge field abi map parameters) (λ w ws. w ∷ ws)
                (λ heap later w g'' p. Reads-Grown bridge field heap later type a x w g'' p)
                (λ heap w ws p q. ((a, e, (x, e', p)), q)) (value_from_input-Reads x type a u)
                (λ w y g'' p. bind_inputs-AllRead abi map parameters y)))

  then_given :
      {A B : Type 0} (Q : List (Value F) → B → Type 0) (s : Machine F)
      (error : String → InterpretError) (o : Answer A) (k : A → Machine F → Outcome F B)
      → ((a : A) (t : Machine F) → o ≡ given a → After Q t (k a t))
      → After Q s (and_then (given_or_fail error o s) k)
  then_given Q s error o k h =
      After-then (λ heap a. o ≡ given a) Q s (given_or_fail error o s) k (After-given error o s)
        (λ a t g e. h a t e)

  abbrev pub FromToml :
      Abi → Text → List (Text × MonoType) → List (Value F) → List (Value F) → Type 0
  FromToml abi toml_src parameters heap vs =
      (map : InputMap S) × (bridge.parse_toml toml_src (record abi { return_type = none }) field
        ≡ given map)
      × AllRead bridge field abi map parameters heap vs

  -- When the inputs are read from a `Prover.toml` without an error, the file parses by the ABI without its
  -- return, and there is one input for each parameter of `main`, in order, that is read from what the file
  -- has under the parameter's name: a field and a Boolean are what the scalar's encoding stands for, an
  -- integer of at least one bit is canonical and congruent to it, a string has the same bytes, and arrays
  -- and tuples are read element by element, a struct's fields by name in the ABI's order. Every cell that
  -- was there is kept.
  pub inputs_from_prover_toml-AllRead :
      (program : Program) (main : Signature) (abi : Abi) (toml_src : Text) (s : Machine F)
      → After
          (FromToml abi toml_src main.parameters)
          s
          (inputs_from_prover_toml bridge field program main abi toml_src s)
  unfolding inputs_from_prover_toml parse_prover_toml
  inputs_from_prover_toml-AllRead program main abi toml_src s =
      let Q = FromToml abi toml_src main.parameters in
      then_given Q s _ (bridge.parse_toml toml_src (record abi { return_type = none }) field) _
        (λ map t e.
          After-then (λ heap m. main_function_of program ≡ some m) Q t _ _
            (After-ok_or_fail (main_function_of program) _ t)
            (λ m u g' e'.
              After-map (AllRead bridge field abi map main.parameters) Q u _
                (λ vs y g'' p. (map, e, p)) (bind_inputs-AllRead abi map main.parameters u)))
