-- ===== src/Prover/Bind.antt =====
-- src/input.rs: the values of `Prover.toml` as inputs of the program, and its recorded return.
use Prim.Native.String.{◌++◌ as str_append}
use ast_interpreter.Base.{
  String, ℕ, zero, suc, Bool, true, false, not, ◌&&◌, List, [], ◌∷◌, Option, none, some, ◌==◌,
  if◌then◌else◌,
}
use ast_interpreter.Base.Int.{pos}
use ast_interpreter.Error.{
  InterpretError, Text, ok, internal, invalid_input, unsupported, ◌>>=◌ as bind,
}
use ast_interpreter.Value.Ints.{canonical}
use ast_interpreter.Value.Data.{Value, Values, nil, cons}
use ast_interpreter.Ast.{MonoType, Types, Program}
use ast_interpreter.Host.{FieldId}
use ast_interpreter.Machine.{M, pure, fail, lift, ok_or_fail, ◌>>=◌, ◌>>◌}
use ast_interpreter.Eval.Scalar.{eqb_Bool}
use ast_interpreter.Eval.Cells.{make_tuple}
use ast_interpreter.Entry.{main_function_of}
use ast_interpreter.Prover.Abi.{
  Answer, given, refused, AbiType, AbiTypes, AbiFields, with_type, with_field, InputValue,
  InputValues, no_inputs, with_input, InputMap, Abi, Bridge, Signature, get, find_type, input_count,
  type_count, field_count,
}

unfoldable pub scalar_abi_matches : AbiType → MonoType → Bool
scalar_abi_matches AbiType.field MonoType.field = true
scalar_abi_matches AbiType.boolean MonoType.bool = true
scalar_abi_matches (AbiType.integer sign width) (MonoType.integer signed bits) =
    eqb_Bool sign signed && width == bits
scalar_abi_matches _ _ = false

abbrev pub count_types : Types → ℕ
count_types Types.nil = zero
count_types (Types.cons _ ts) = suc (count_types ts)

-- `map_err` of an answer.
abbrev pub given_or_fail : {F A : Type 0} → (String → InterpretError) → Answer A → M F A
given_or_fail error (given a) = pure a
given_or_fail error (refused text) = fail (error text)

-- The types that a scalar input is read at.
abbrev pub takes_scalar : MonoType → Bool
takes_scalar MonoType.field = true
takes_scalar (MonoType.integer _ _) = true
takes_scalar MonoType.bool = true
takes_scalar _ = false

module _ {F S : Type 0} (bridge : Bridge F S) (field : FieldId) where
  unfoldable pub element : AbiType → S → M F ℕ
  element abi_type s =
      given_or_fail
        (λ text. invalid_input (
          str_append "input does not fit "
            (str_append (bridge.debug_type abi_type) (str_append ": " text))))
        (bridge.encode_scalar s abi_type field)

  unfoldable pub field_from : ℕ → M F (Value F)
  field_from e = do
    f ←
        ok_or_fail (bridge.try_from_biguint e field)
          (internal "an encoded element is not below its modulus")
    pure (Value.field f)

  -- A scalar whose ABI type describes the type.
  unfoldable pub scalar_from : AbiType → S → MonoType → M F (Value F)
  unfolding element field_from
  scalar_from abi_type s MonoType.field = do e ← element abi_type s; field_from e
  scalar_from abi_type s (MonoType.integer signed bits) = do
    e ← element abi_type s
    lift (bind (canonical signed bits (pos e)) (λ i. ok (Value.int i)))
  scalar_from abi_type s MonoType.bool = do e ← element abi_type s; pure (Value.bool (e == 1))
  scalar_from abi_type s _ = fail (unsupported "input value  for parameter type ")

  -- Each element of an array by one function.
  abbrev pub each : (InputValue S → M F (Value F)) → InputValues S → M F (Values F)
  each read no_inputs = pure nil
  each read (with_input v vs) = do w ← read v; ws ← each read vs; pure (cons w ws)

  -- The value of a type that the ABI describes, where it supplies the order of a struct's fields.
  unfoldable mutual
    unfolding scalar_abi_matches scalar_from

    pub value_from_input : InputValue S → MonoType → AbiType → M F (Value F)
    value_from_input (InputValue.scalar s) type abi_type =
        if takes_scalar type && not (scalar_abi_matches abi_type type)
        then fail (internal "ABI type  does not describe ")
        else scalar_from abi_type s type
    value_from_input (InputValue.vec elements) (MonoType.array length element_type)
          (AbiType.array abi_length element_abi) =
        let values = each (λ e. value_from_input e element_type element_abi) elements in
        if not (abi_length == length)
        then fail (internal "array ABI length is , type expects ")
        else if not (input_count elements == length)
        then fail (invalid_input "array input has  elements, type expects ")
        else (do vs ← values; pure (Value.array vs))
    value_from_input (InputValue.vec elements) (MonoType.array length element_type) _ =
        fail (internal "ABI type  is not an array")
    value_from_input (InputValue.vec elements) (MonoType.tuple types) (AbiType.tuple fields) =
        let values = values_from_fields fields types elements in
        if not (type_count fields == count_types types)
        then fail (internal "tuple ABI has  fields, type expects ")
        else if not (input_count elements == count_types types)
        then fail (invalid_input "tuple input has  elements, type expects ")
        else (do vs ← values; make_tuple vs)
    value_from_input (InputValue.vec elements) (MonoType.tuple types) _ =
        fail (internal "ABI type  is not a tuple")
    value_from_input (InputValue.struct map) (MonoType.tuple types) (AbiType.struct fields) =
        let values = values_from_map fields types map in
        if not (field_count fields == count_types types)
        then fail (internal "struct ABI has  fields, type expects ")
        else (do vs ← values; make_tuple vs)
    value_from_input (InputValue.struct map) (MonoType.tuple types) _ =
        fail (internal "ABI type  is not a struct")
    value_from_input (InputValue.string bytes) (MonoType.string _) _ = pure (Value.str bytes)
    value_from_input _ _ _ = fail (unsupported "input value  for parameter type ")

    pub values_from_fields : AbiTypes → Types → InputValues S → M F (List (Value F))
    values_from_fields (with_type field_abi fields) (Types.cons type types)
          (with_input v elements) =
        do
          w ← value_from_input v type field_abi
          ws ← values_from_fields fields types elements
          pure (w ∷ ws)
    values_from_fields _ _ _ = pure []

    pub values_from_map : AbiFields → Types → InputMap S → M F (List (Value F))
    values_from_map (with_field name field_abi fields) (Types.cons type types) map = do
      v ← ok_or_fail (get name map) (internal "ABI struct has no field ''")
      w ← value_from_input v type field_abi
      ws ← values_from_map fields types map
      pure (w ∷ ws)
    values_from_map _ _ map = pure []

  unfoldable pub parse_prover_toml : Text → Abi → M F (InputMap S)
  parse_prover_toml toml_src abi =
      given_or_fail (λ text. invalid_input (str_append "failed to parse Prover.toml: " text))
        (bridge.parse_toml toml_src abi field)

  -- The loop over the parameters of `main`.
  unfoldable pub bind_inputs : Abi → InputMap S → List (Text × MonoType) → M F (List (Value F))
  bind_inputs abi map [] = pure []
  bind_inputs abi map ((name, type) ∷ parameters) = do
    abi_type ← ok_or_fail (find_type name abi.parameters) (internal "no ABI parameter named ''")
    v ← ok_or_fail (get name map) (internal "no parsed input for ''")
    w ← value_from_input v type abi_type
    ws ← bind_inputs abi map parameters
    pure (w ∷ ws)

  unfoldable pub inputs_from_prover_toml : Program → Signature → Abi → Text → M F (List (Value F))
  unfolding parse_prover_toml bind_inputs
  inputs_from_prover_toml program main abi toml_src = do
    map ← parse_prover_toml toml_src (record abi { return_type = none })
    ok_or_fail (main_function_of program) (internal "program has no entry point")
    bind_inputs abi map main.parameters

  -- The recorded return, where there is one.
  unfoldable pub expected_of :
      Program → Signature → Abi → Option (InputValue S) → M F (Option (Value F))
  unfolding value_from_input
  expected_of program main abi none = pure none
  expected_of program main abi (some v) = do
    ok_or_fail (main_function_of program) (internal "program has no entry point")
    abi_type ←
        ok_or_fail abi.return_type
          (internal "Prover.toml parsed a return value but the ABI declares no return type")
    w ← value_from_input v main.return_type abi_type
    pure (some w)

  unfoldable pub expected_return_from_prover_toml :
      Program → Signature → Abi → Text → M F (Option (Value F))
  unfolding parse_prover_toml expected_of
  expected_return_from_prover_toml program main abi toml_src = do
    map ← parse_prover_toml toml_src abi
    expected_of program main abi (get bridge.main_return_name map)
