-- ===== src/Examples/Programs.antt =====
-- Runs of the model on small programs, over the integers modulo 97 in place of acvm's fields, and the
-- theorems on the evaluator at concrete inputs.
use ast_interpreter.Base.{
  ℕ, ◌+◌, ◌-◌, ◌*◌, ◌%◌, ◌≡◌, refl, true, false, [], ◌∷◌, Option, none, some, arith, ◌==◌,
  if◌then◌else◌, ltb, ◌^◌,
}
use ast_interpreter.Base.Int.{pos, negsuc, ◌-ℤ◌, ◌+ℤ◌, tmod}
use ast_interpreter.Value.Ints.{int_value, range, canonical, wrap, checked}
use ast_interpreter.Value.Data.{array_of, Value}
use ast_interpreter.Ast.{
  Expression, nil, cons, Definition, BinaryOpKind, Literal, LValue, MonoType, Function, Program,
}
use ast_interpreter.Host.{Host, Context}
use ast_interpreter.Machine.{
  Machine, Outcome, returned, Flow, get_call_depth, alloc, with_frame, with_call, env_get, read,
  get_global, set_globals, on_failure, write,
}
use ast_interpreter.Eval.Step.{
  eval, eval_assign, normal_flow, eval_operands, eval_ident, eval_literal,
}
use ast_interpreter.Entry.{new_machine, interpret_with_inputs, main_function_of}
use ast_interpreter.Eval.Calls.{function_of, call_function, eval_global}
use ast_interpreter.Input.{validate_inputs}
use ast_interpreter.Eval.Control.{eval_block}
use ast_interpreter.Eval.Places.{eval_expr_value, eval_local, lvalue_target_cell}
use ast_interpreter.Eval.Cells.{deep_copy, store_flattened}
use ast_interpreter.Eval.Operators.{eval_binary}
use ast_interpreter.Eval.Scalar.{eval_int_binary, int_operator}
use ast_interpreter.Eval.Assign.{store}
use ast_interpreter.Laws.Runs.{interpret_with_inputs-Stable}
use ast_interpreter.Laws.Copying.{IsReturned, deep_copy-IsReturned}
use ast_interpreter.Laws.Inputs.{AllInputs, Ensures, validate_inputs-Ensures}
use ast_interpreter.Laws.Globals.{Entered, eval_global-Entered}
use ast_interpreter.Stable.{After}
use ast_interpreter.Stable.Runs.{eval-Stable, call_function-Stable}
use ast_interpreter.Copy.{Copied, Fresh, deep_copy_lem}

abbrev pub small_field : Host ℕ
small_field = record {
  add = λ a b. (a + b) % 97;
  subtract = λ a b. (a + 97 - b) % 97;
  multiply = λ a b. (a * b) % 97;
  negative = λ a. (97 - a) % 97;
  checked_div = λ a b. if b == 0 then none else some ((a * b ^ 95) % 97);
  equal = λ a b. a == b;
  field_of = λ a. 0;
  zero_of = λ _. 0;
  one_of = λ _. 1;
  to_bigint = λ a. pos a;
  as_biguint = λ a. a;
  try_from_bigint = λ z _. elim z [ pos n ↦ if ltb n 97 then some n else none | negsuc n ↦ none ];
  fits_unsigned = λ _ bits. ltb (2 ^ bits) 97;
  to_short_hex = λ a. a ∷ [];
  from_utf8_lossy = λ bytes. bytes;
  parse_type = λ _. none;
  sha256_compression = λ state input. state;
  keccakf1600 = λ state. some state;
  blake2s = λ _. none;
  blake3 = λ _. none;
  aes128_encrypt = λ _ _ _. none;
  ecdsa_secp256k1_verify = λ _ _ _ _. none;
  ecdsa_secp256r1_verify = λ _ _ _ _. none;
}

abbrev pub u8 : ℕ → Value ℕ
u8 n = Value.int (int_value false 8 (pos n))

abbrev byte : ℕ → Expression
byte n = Expression.literal (Literal.integer (pos n) (MonoType.integer false 8))

abbrev x : Expression
x = Expression.ident (Definition.local 0)

-- fn main(mut x: u8) -> u8 { x = x + GLOBAL; x }, and the global 5.
abbrev add_global : Function
add_global = record {
  id = 0;
  parameters = record { id = 0; mutable = true } ∷ [];
  body = Expression.block (
      cons
        (Expression.assign (LValue.place_ident (Definition.local 0))
          (Expression.binary BinaryOpKind.add x (Expression.ident (Definition.global 7))))
        (cons x nil));
  unconstrained = false;
}

abbrev pub small_program : Program
small_program = record { functions = add_global ∷ []; globals = (7, byte 5) ∷ []; main_id = 0 }

abbrev small_context : Context ℕ
small_context = record { host = small_field; program = small_program; field = 0 }

abbrev pub empty_machine : Machine ℕ
empty_machine = record {
  heap = [];
  globals = [];
  frame = [];
  unconstrained = false;
  call_depth = 0;
}

unfoldable value_of : Outcome ℕ (Value ℕ) → Option (Value ℕ)
value_of (returned v s) = some v
value_of _ = none

adds_global : value_of (interpret_with_inputs small_context 8 [] (u8 37 ∷ [])) ≡ some (u8 42)
unfolding interpret_with_inputs value_of main_function_of function_of validate_inputs range ◌-ℤ◌
    call_function get_call_depth alloc with_frame with_call eval eval_block eval_assign normal_flow
    eval_operands eval_expr_value eval_ident eval_local env_get read deep_copy eval_global
    get_global set_globals on_failure eval_literal canonical wrap eval_binary eval_int_binary
    int_operator checked ◌+ℤ◌ tmod store lvalue_target_cell store_flattened write
adds_global = refl

interpret_with_inputs-Stable_example :
    After (new_machine []) (interpret_with_inputs small_context 8 [] (u8 37 ∷ []))
interpret_with_inputs-Stable_example = interpret_with_inputs-Stable small_context 8 [] (u8 37 ∷ [])

-- The machine in a call of `add_global` with 37.
abbrev in_call : Machine ℕ
in_call = record {
  heap = u8 37 ∷ [];
  globals = [];
  frame = (0, Value.ref 0 true) ∷ [];
  unconstrained = false;
  call_depth = 1;
}

eval-Stable_example : After in_call (eval small_context 8 add_global.body in_call)
eval-Stable_example = eval-Stable small_context 8 add_global.body in_call

call_function-Stable_example :
    After empty_machine
      (call_function small_context 8 (eval small_context 8) 0 (u8 37 ∷ []) empty_machine)
call_function-Stable_example = call_function-Stable small_context 8 0 (u8 37 ∷ []) empty_machine

byte_literal :
    eval small_context 2 (byte 5) empty_machine ≡ returned (Flow.normal (u8 5)) empty_machine
unfolding eval eval_literal canonical wrap tmod normal_flow
byte_literal = refl

eval_global-Entered_example :
    Entered 7 none (eval_global small_context 8 (eval small_context 8) 7 empty_machine)
eval_global-Entered_example =
    eval_global-Entered small_context 8 (eval small_context 8) 7 empty_machine

deep_copy_example : Copied 1 (Fresh 1) in_call (deep_copy 3 (Value.tuple (0 ∷ [])) in_call)
deep_copy_example = deep_copy_lem 3 1 (Value.tuple (0 ∷ [])) in_call (omega arith)

deep_copy-IsReturned_example : IsReturned (deep_copy 2 (Value.tuple (0 ∷ [])) in_call)
deep_copy-IsReturned_example =
    deep_copy-IsReturned 2 (Value.tuple (0 ∷ [])) in_call (u8 37, refl, tt, tt)

validate_inputs-Ensures_example :
    Ensures
      (AllInputs small_field 0 (array_of (u8 37 ∷ []) ∷ []))
      (validate_inputs small_field 0 5 (array_of (u8 37 ∷ []) ∷ []) empty_machine)
validate_inputs-Ensures_example =
    validate_inputs-Ensures small_field 0 5 (array_of (u8 37 ∷ []) ∷ []) empty_machine
