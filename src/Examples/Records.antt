-- ===== src/Examples/Records.antt =====
-- The record of a corpus program's run.
use ast_interpreter.Base.{ℕ, ◌≡◌, refl, Bool, false, [], ◌∷◌, none, some, codes, ltb}
use ast_interpreter.Base.Int.{pos}
use ast_interpreter.Base.Search.{words_from, is_space}
use ast_interpreter.Base.Text.{join}
use ast_interpreter.Diff.Values.{DiffValue}
use ast_interpreter.Diff.Errors.{FailureKind, comparable, normalize_text}
use ast_interpreter.Diff.Records.{StepOutcome, RunRecord}
use ast_interpreter.Corpus.Steps.{Attempt, run_step, compile_error_of}
use ast_interpreter.Corpus.Run.{
  Package, Harness, Validated, initial_record, not_run, run_steps, with_loaded, with_compiled,
}
use ast_interpreter.Corpus.Paths.{
  normalize_step, normalize_paths, replace_forms, replace_form, replace_root, replace_from,
  boundary_after, is_boundary,
}
use ast_interpreter.Corpus.Program.{CorpusProgram, normalize_record, normalized, run_record}
use ast_interpreter.Laws.Records.{Ended}
use ast_interpreter.Laws.Reports.{Reported, run_record-Reported}
use ast_interpreter.Base.Int.{◌-ℤ◌, ◌+ℤ◌, tmod}
use ast_interpreter.Value.Ints.{range, canonical, wrap, checked}
use ast_interpreter.Machine.{
  get_call_depth, alloc, with_frame, with_call, env_get, read, get_global, set_globals, on_failure,
  write,
}
use ast_interpreter.Eval.Step.{
  eval, eval_assign, normal_flow, eval_operands, eval_ident, eval_literal,
}
use ast_interpreter.Entry.{interpret_with_inputs, main_function_of}
use ast_interpreter.Eval.Calls.{function_of, call_function, eval_global}
use ast_interpreter.Input.{validate_inputs}
use ast_interpreter.Eval.Control.{eval_block}
use ast_interpreter.Eval.Places.{eval_expr_value, eval_local, lvalue_target_cell}
use ast_interpreter.Eval.Cells.{deep_copy, store_flattened}
use ast_interpreter.Eval.Operators.{eval_binary}
use ast_interpreter.Eval.Scalar.{eval_int_binary, int_operator}
use ast_interpreter.Eval.Assign.{store}
use ast_interpreter.Prover.Bind.{
  inputs_from_prover_toml, expected_return_from_prover_toml, expected_of, parse_prover_toml,
  bind_inputs, value_from_input, scalar_from, scalar_abi_matches, element,
}
use ast_interpreter.Diff.Values.{from_value, from_shape}
use ast_interpreter.Corpus.Run.{
  run_validated, with_attempt, with_interpreted, attempt_of, oracle_step, recorded_return,
  with_projection, interpretation,
}
use ast_interpreter.Laws.Sources.{IsRun, run_steps-IsRun}
use ast_interpreter.Examples.Programs.{small_field, small_program}
use ast_interpreter.Examples.Reports.{small_bridge, small_abi, small_signature, plain_escapes}

abbrev small_harness : Harness ℕ ℕ
small_harness = record {
  host = small_field;
  bridge = small_bridge;
  escapes = plain_escapes;
  bn254 = 0;
  fuel = 8;
  panic_message = codes "panic";
}

abbrev refused_package : Package
refused_package = record {
  new_project = Attempt.done tt;
  compile = λ field.
      Attempt.refused (record { summary = codes "no  main in /p/x"; detail = codes "/pq" });
  projection_hash = λ program. Attempt.done [];
  prover_toml = none;
}

abbrev refused_program : CorpusProgram
refused_program = record {
  workspace = false;
  source_hash = codes "00";
  dir = refused_package;
  path_roots = ((codes "/p" ∷ []), codes "<pkg>") ∷ [];
}

abbrev is_letter : ℕ → Bool
is_letter c = ltb 96 c

abbrev refused_record : RunRecord
refused_record = record {
  source_hash = codes "00";
  load = StepOutcome.passed;
  compile =
      StepOutcome.failed (comparable FailureKind.compile_error (codes "no main in <pkg>/x"))
        (codes "/pq");
  interpret = not_run "not compiled";
  oracle = not_run "not interpreted";
  projection = not_run "not compiled";
  returned = none;
  projection_hash = none;
}

refused_run : run_record small_harness is_letter refused_program 0 ≡ some refused_record
unfolding run_record normalized normalize_record normalize_step normalize_paths replace_forms
    replace_form replace_root replace_from boundary_after is_boundary run_steps with_loaded
    with_compiled initial_record run_step compile_error_of normalize_text words_from is_space join
refused_run = refl

run_record-Reported_example : Ended refused_record × Reported refused_record
run_record-Reported_example =
    run_record-Reported small_harness is_letter refused_program 0 refused_record refl refused_run

abbrev small_validated : Validated
small_validated = record {
  program = small_program;
  main = small_signature;
  abi = small_abi;
  field_id = 0;
}

abbrev small_package : Package
small_package = record {
  new_project = Attempt.done tt;
  compile = λ field. Attempt.done small_validated;
  projection_hash = λ program. Attempt.done (codes "ab");
  prover_toml = some (codes "x = 37");
}

abbrev small_record : RunRecord
small_record = record {
  source_hash = codes "00";
  load = StepOutcome.passed;
  compile = StepOutcome.passed;
  interpret = StepOutcome.passed;
  oracle = not_run "no recorded return";
  projection = StepOutcome.passed;
  returned = some (DiffValue.int false 8 (pos 42));
  projection_hash = some (codes "ab");
}

small_run : run_steps small_harness small_package (codes "00") 0 ≡ some small_record
unfolding run_steps with_loaded with_compiled run_validated with_attempt with_interpreted attempt_of
    oracle_step recorded_return with_projection initial_record run_step interpretation
    inputs_from_prover_toml expected_return_from_prover_toml expected_of parse_prover_toml
    bind_inputs value_from_input scalar_from scalar_abi_matches element from_value from_shape
    interpret_with_inputs main_function_of function_of validate_inputs range ◌-ℤ◌ call_function
    get_call_depth alloc with_frame with_call eval eval_block eval_assign normal_flow eval_operands
    eval_expr_value eval_ident eval_local env_get read deep_copy eval_global get_global set_globals
    on_failure eval_literal canonical wrap eval_binary eval_int_binary int_operator checked ◌+ℤ◌
    tmod store lvalue_target_cell store_flattened write
small_run = refl

run_steps-IsRun_example :
    (validated : Validated) × (small_package.compile 0 ≡ Attempt.done validated)
    × IsRun small_harness validated (some (codes "x = 37")) (DiffValue.int false 8 (pos 42))
run_steps-IsRun_example =
    run_steps-IsRun small_harness small_package (codes "00") 0 small_record
      (DiffValue.int false 8 (pos 42)) small_run refl
