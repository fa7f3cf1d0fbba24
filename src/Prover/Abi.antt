-- ===== src/Prover/Abi.antt =====
-- noirc_abi, as src/input.rs reads it: the ABI's types, the values that a parsed `Prover.toml` holds, and
-- what the bridge calls of that crate. `S` is the payload of an `InputValue::Field`.
use ast_interpreter.Base.{
  ℕ, String, zero, suc, Bool, List, [], ◌∷◌, Option, none, some, if◌then◌else◌,
}
use ast_interpreter.Base.Search.{eqb_text}
use ast_interpreter.Error.{Text}
use ast_interpreter.Host.{FieldId}
use ast_interpreter.Ast.{MonoType}

mutual
  pub data AbiType : Type 0 where
    field boolean : AbiType
    integer : (signed : Bool) → (width : ℕ) → AbiType
    string : ℕ → AbiType
    array : (length : ℕ) → AbiType → AbiType
    tuple : AbiTypes → AbiType
    struct : AbiFields → AbiType

  pub data AbiTypes : Type 0 where
    no_types : AbiTypes
    with_type : AbiType → AbiTypes → AbiTypes

  pub data AbiFields : Type 0 where
    no_fields : AbiFields
    with_field : (name : Text) → AbiType → AbiFields → AbiFields

-- The fields of a struct stand in an ordered map, which is read by name.
mutual
  pub data InputValue (S : Type 0) : Type 0 where
    scalar : S → InputValue S
    string : (bytes : List ℕ) → InputValue S
    vec : InputValues S → InputValue S
    struct : InputMap S → InputValue S

  pub data InputValues (S : Type 0) : Type 0 where
    no_inputs : InputValues S
    with_input : InputValue S → InputValues S → InputValues S

  pub data InputMap (S : Type 0) : Type 0 where
    empty : InputMap S
    entry : (name : Text) → InputValue S → InputMap S → InputMap S

pub record Abi : Type 0 where
  pub parameters : List (Text × AbiType)
  pub return_type : Option AbiType

-- What another crate answers, or the text of its error.
pub data Answer (A : Type 0) : Type 0 where
  given : A → Answer A
  refused : (text : String) → Answer A

pub record Bridge (F S : Type 0) : Type 0 where
  -- `MAIN_RETURN_NAME`
  pub main_return_name : Text
  pub encode_scalar : S → AbiType → FieldId → Answer ℕ
  -- the derived `Debug`
  pub debug_type : AbiType → String
  pub try_from_biguint : ℕ → FieldId → Option F
  pub parse_toml : Text → Abi → FieldId → Answer (InputMap S)

-- What the bridge reads of `main`'s declaration, which the interpreter does not.
pub record Signature : Type 0 where
  pub parameters : List (Text × MonoType)
  pub return_type : MonoType

-- `BTreeMap::get`.
abbrev pub get : {S : Type 0} → Text → InputMap S → Option (InputValue S)
get name empty = none
get name (entry key v map) = let rest = get name map in if eqb_text key name then some v else rest

-- The first parameter of the name.
abbrev pub find_type : Text → List (Text × AbiType) → Option AbiType
find_type name [] = none
find_type name ((key, t) ∷ rest) =
    let later = find_type name rest in if eqb_text key name then some t else later

abbrev pub input_count : {S : Type 0} → InputValues S → ℕ
input_count no_inputs = zero
input_count (with_input _ vs) = suc (input_count vs)

abbrev pub type_count : AbiTypes → ℕ
type_count no_types = zero
type_count (with_type _ ts) = suc (type_count ts)

abbrev pub field_count : AbiFields → ℕ
field_count no_fields = zero
field_count (with_field _ _ ts) = suc (field_count ts)
