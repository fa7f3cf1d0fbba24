-- ===== src/Laws/Parameters.antt =====
-- src/input.rs: the inputs of `main`, and its recorded return, are of the types that it declares.
use ast_interpreter.Base.{String, ℕ, ◌≡◌, true, List, [], ◌∷◌, Option, none, some, ◌==◌}
use ast_interpreter.Error.{Text, InterpretError}
use ast_interpreter.Value.Data.{Value}
use ast_interpreter.Ast.{MonoType, Program}
use ast_interpreter.Host.{Host, FieldId}
use ast_interpreter.Machine.{Machine, Outcome, and_then, ok_or_fail}
use ast_interpreter.Entry.{main_function_of}
use ast_interpreter.Prover.Abi.{
  Answer, InputValue, InputMap, Bridge, Abi, Signature, get, find_type,
}
use ast_interpreter.Prover.Bind.{
  given_or_fail, parse_prover_toml, bind_inputs, inputs_from_prover_toml, expected_of,
  expected_return_from_prover_toml,
}
use ast_interpreter.Laws.Typing.{HasType, HasType-Grown, AllBound}
use ast_interpreter.Laws.After.{
  After, After-then, After-both, After-ok_or_fail, After-given_or_fail,
}
use ast_interpreter.Laws.Bindings.{value_from_input-After}

module _ {F S : Type 0} (host : Host F) (bridge : Bridge F S) (field : FieldId)
    (of_field : (n : ℕ) (f : F)
      → bridge.try_from_biguint n field ≡ some f
      → (host.field_of f == field) ≡ true) where
  -- A step whose result matters only to what follows.
  then_any :
      {A B : Type 0} (Q : List (Value F) → B → Type 0) (s : Machine F) (o : Option A)
      (error : InterpretError) (k : A → Machine F → Outcome F B)
      → ((a : A) (t : Machine F) → After Q t (k a t))
      → After Q s (and_then (ok_or_fail o error s) k)
  then_any Q s o error k h =
      After-then (λ heap a. o ≡ some a) Q s (ok_or_fail o error s) k (After-ok_or_fail o error s)
        (λ a t g p. h a t)

  then_given :
      {A B : Type 0} (Q : List (Value F) → B → Type 0) (s : Machine F)
      (error : String → InterpretError) (o : Answer A) (k : A → Machine F → Outcome F B)
      → ((a : A) (t : Machine F) → After Q t (k a t))
      → After Q s (and_then (given_or_fail error o s) k)
  then_given Q s error o k h =
      After-then (λ heap a. Unit {0}) Q s (given_or_fail error o s) k
        (After-given_or_fail error o s) (λ a t g p. h a t)

  bind_inputs-After :
      (abi : Abi) (map : InputMap S) (parameters : List (Text × MonoType)) (s : Machine F)
      → After (AllBound host field parameters) s (bind_inputs bridge field abi map parameters s)
  unfolding bind_inputs
  bind_inputs-After abi map [] s = (λ i v e. e, tt)
  bind_inputs-After abi map ((name, type) ∷ parameters) s =
      then_any (AllBound host field ((name, type) ∷ parameters)) s (find_type name abi.parameters) _
        _
        (λ abi_type t.
          then_any (AllBound host field ((name, type) ∷ parameters)) t (get name map) _ _ (λ v u.
            After-both (λ heap w. HasType host field heap type w) (AllBound host field parameters)
              (AllBound host field ((name, type) ∷ parameters)) u _
              (λ w. bind_inputs bridge field abi map parameters) (λ w ws. w ∷ ws)
              (λ heap later w g p. HasType-Grown host field heap later type w g p)
              (λ heap w ws p q. (p, q))
              (value_from_input-After host bridge field of_field v type abi_type u)
              (λ w x g p. bind_inputs-After abi map parameters x)))

  -- Where `try_from_biguint` makes values of the program's field: when the inputs are read from a
  -- `Prover.toml` without an error, there is one for each parameter of `main`, in order and of its type, a
  -- string of any length counting as one of a string type since the code checks none, and every cell that
  -- was there is kept.
  pub inputs_from_prover_toml-After :
      (program : Program) (main : Signature) (abi : Abi) (toml_src : Text) (s : Machine F)
      → After
          (AllBound host field main.parameters)
          s
          (inputs_from_prover_toml bridge field program main abi toml_src s)
  unfolding inputs_from_prover_toml parse_prover_toml
  inputs_from_prover_toml-After program main abi toml_src s =
      then_given (AllBound host field main.parameters) s _ _ _ (λ map t.
        then_any (AllBound host field main.parameters) t (main_function_of program) _ _
          (λ f u. bind_inputs-After abi map main.parameters u))

  -- The recorded return, if there is one, is of the type that `main` returns.
  abbrev pub IsReturn : MonoType → List (Value F) → Option (Value F) → Type 0
  IsReturn type heap none = Unit
  IsReturn type heap (some v) = HasType host field heap type v

  recorded-After :
      (program : Program) (main : Signature) (abi : Abi) (o : Option (InputValue S)) (s : Machine F)
      → After (IsReturn main.return_type) s (expected_of bridge field program main abi o s)
  unfolding expected_of
  recorded-After program main abi none s = (λ i v e. e, tt)
  recorded-After program main abi (some v) s =
      then_any (IsReturn main.return_type) s (main_function_of program) _ _ (λ f t.
        then_any (IsReturn main.return_type) t abi.return_type _ _ (λ abi_type u.
          After-then (λ heap w. HasType host field heap main.return_type w)
            (IsReturn main.return_type) u _ _
            (value_from_input-After host bridge field of_field v main.return_type abi_type u)
            (λ w x g p. (λ i y e. e, p))))

  -- Where `try_from_biguint` makes values of the program's field: when the recorded return is read without
  -- an error, it is absent or of the type that `main` returns, a string of any length counting as one of a
  -- string type.
  pub expected_return_from_prover_toml-After :
      (program : Program) (main : Signature) (abi : Abi) (toml_src : Text) (s : Machine F)
      → After
          (IsReturn main.return_type)
          s
          (expected_return_from_prover_toml bridge field program main abi toml_src s)
  unfolding expected_return_from_prover_toml parse_prover_toml
  expected_return_from_prover_toml-After program main abi toml_src s =
      then_given (IsReturn main.return_type) s _ _ _
        (λ map t. recorded-After program main abi (get bridge.main_return_name map) t)
