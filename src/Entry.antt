-- ===== src/Entry.antt =====
-- src/lib.rs: the entry points. The caller's inputs come with the heap that holds their cells.
use ast_interpreter.Base.{ℕ, false, List, [], Option, length, ◌==◌, if◌then◌else◌}
use ast_interpreter.Error.{internal, invalid_input}
use ast_interpreter.Value.Data.{Value}
use ast_interpreter.Ast.{Program, Function}
use ast_interpreter.Host.{Context}
use ast_interpreter.Machine.{Machine, Outcome, M, fail, ok_or_fail, ◌>>=◌, ◌>>◌}
use ast_interpreter.Eval.Calls.{function_of, call_function}
use ast_interpreter.Eval.Step.{eval}
use ast_interpreter.Input.{validate_inputs}

unfoldable pub main_function_of : Program → Option Function
main_function_of program = function_of program program.main_id

-- `Interpreter::new`.
unfoldable pub new_machine : {F : Type 0} → List (Value F) → Machine F
new_machine heap = record {
  heap = heap;
  globals = [];
  frame = [];
  unconstrained = false;
  call_depth = 0;
}

module _ {F : Type 0} (ctx : Context F) (n : ℕ) where
  unfoldable pub run_main : Function → List (Value F) → M F (Value F)
  run_main main inputs =
      if length main.parameters == length inputs
      then (do
        validate_inputs ctx.host ctx.field n inputs
        call_function ctx n (eval ctx n) main.id inputs)
      else fail (invalid_input "entry point expects input(s), got ")

  unfoldable pub interpret_with_inputs : List (Value F) → List (Value F) → Outcome F (Value F)
  unfolding run_main new_machine
  interpret_with_inputs heap inputs =
      (do
        main ← ok_or_fail (main_function_of ctx.program) (internal "program has no entry point")
        run_main main inputs)
        (new_machine heap)

  unfoldable pub interpret : Outcome F (Value F)
  unfolding interpret_with_inputs
  interpret = interpret_with_inputs [] []
