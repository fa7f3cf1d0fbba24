-- ===== src/Examples/Reports.antt =====
-- The comparison of runs, the verdicts and the records of runs, at concrete inputs.
use ast_interpreter.Base.{
  ℕ, ◌≡◌, ◌↔◌, ◌⊎◌, refl, false, List, [], ◌∷◌, none, some, ◌==◌, ltb, if◌then◌else◌, arith, codes,
}
use ast_interpreter.Base.Int.{pos}
use ast_interpreter.Error.{Text}
use ast_interpreter.Value.Data.{Value}
use ast_interpreter.Ast.{MonoType, Types}
use ast_interpreter.Host.{FieldId, Fields}
use ast_interpreter.Machine.{Machine}
use ast_interpreter.Diff.Values.{DiffValue, DiffValues, from_value}
use ast_interpreter.Diff.Errors.{FailureKind, comparable, normalize_text}
use ast_interpreter.Diff.Records.{DiffOutcome, StepOutcome}
use ast_interpreter.Diff.Compare.{values_equivalent, same, outcomes_equivalent, equivalent}
use ast_interpreter.Diff.Rendering.{Escapes}
use ast_interpreter.Status.Expected
use ast_interpreter.Status.Expected.{is_allowlisted}
use ast_interpreter.Status.Tables.{
  program_capabilities, known_field_dependent, projection_invariant_fixtures,
}
use ast_interpreter.Status.Verdicts.{Verdict, Sides, classify, is_hard_failure}
use ast_interpreter.Status.Rows.{Row, check, invariant_violations}
use ast_interpreter.Corpus.Run.{compare_with_recorded}
use ast_interpreter.Corpus.Checkout.{accepted, pin_disagreement}
use ast_interpreter.Prover.Abi.{Answer, AbiType, InputValue, InputMap, Bridge, Abi, Signature}
use ast_interpreter.Prover.Bind.{inputs_from_prover_toml}
use ast_interpreter.Laws.Comparison.{erase, values_equivalent_iff}
use ast_interpreter.Laws.Outcomes.{IsHard, IsGap, summary, outcomes_equivalent_iff}
use ast_interpreter.Laws.Payloads.{Spaced, AllWords, normalize_text_lem}
use ast_interpreter.Laws.Verdicts.{classify-hard, equal_modulo_field_iff}
use ast_interpreter.Laws.Predictions.{RefusedBy, predicted_gap_iff}
use ast_interpreter.Laws.Symmetry.{swap, classify-swap}
use ast_interpreter.Laws.Violations.{AllHave, AllProjectAlike, invariant_violations_iff}
use ast_interpreter.Status.Report.{Provenance}
use ast_interpreter.Laws.Totals.{Runs}
use ast_interpreter.Base.Text.{join}
use ast_interpreter.Diff.Records.{RunRecord}
use ast_interpreter.Laws.Tables.{allowlisted_not_predicted}
use ast_interpreter.Laws.Capabilities.{Lacks}
use ast_interpreter.Laws.Typing.{HasType, HaveTypes, AllBound}
use ast_interpreter.Laws.After.{After}
use ast_interpreter.Laws.Sourced.{FromToml, inputs_from_prover_toml-AllRead}
use ast_interpreter.Laws.Parameters.{inputs_from_prover_toml-After}
use ast_interpreter.Laws.Encoding.{Gives, Encodes, levels, levels_all, from_value-Gives}
use ast_interpreter.Laws.Checks.{AllAre, compare_with_recorded_iff, pin_disagreement_iff}
use ast_interpreter.Base.Int.{tmod}
use ast_interpreter.Value.Ints.{canonical, wrap}
use ast_interpreter.Machine.{returned}
use ast_interpreter.Eval.Calls.{function_of}
use ast_interpreter.Entry.{main_function_of}
use ast_interpreter.Input.{validate_inputs}
use ast_interpreter.Prover.Bind.{
  parse_prover_toml, bind_inputs, value_from_input, scalar_from, scalar_abi_matches, element,
}
use ast_interpreter.Laws.Acceptance.{AllFit, HasBits, Passes, inputs_from_prover_toml-Passes}
use ast_interpreter.Examples.Programs.{small_field, small_program, u8, empty_machine}

-- Two fields, of 254 and of 64 bits.
abbrev two_fields : Fields
two_fields = record {
  fits_unsigned = λ field bits. ltb bits (if field == 0 then 254 else 64);
  num_bits = λ field. if field == 0 then 254 else 64;
  shown = λ field. if field == 0 then codes "bn254" else codes "goldilocks";
}

abbrev both : Sides
both = record { a = 0; b = 1 }

-- (payload, 7u64)
abbrev pair : Text → DiffValue
pair payload = DiffValue.tuple (
    DiffValues.more (DiffValue.field payload)
      (DiffValues.more (DiffValue.int false 64 (pos 7)) DiffValues.none))

abbrev crashed : DiffOutcome
crashed = DiffOutcome.errored (comparable FailureKind.panic (codes "boom")) []

abbrev too_wide : DiffOutcome
too_wide =
    DiffOutcome.errored
      (comparable FailureKind.input_error (codes "input exceeds the goldilocks field modulus")) []

values_equivalent_iff_example :
    (values_equivalent (pair (codes "5")) (pair (codes "6")) ≡ same)
    ↔ (erase (pair (codes "5")) ≡ erase (pair (codes "6")))
values_equivalent_iff_example = values_equivalent_iff (pair (codes "5")) (pair (codes "6"))

outcomes_equivalent_iff_example :
    (outcomes_equivalent (DiffOutcome.returned (pair (codes "5"))) crashed ≡ equivalent) ↔ (
      (¬ IsHard (DiffOutcome.returned (pair (codes "5"))))
      × (¬ IsHard crashed)
      × (IsGap (DiffOutcome.returned (pair (codes "5")))
          ⊎ (IsGap crashed
              ⊎ (summary (DiffOutcome.returned (pair (codes "5"))) ≡ summary crashed))))
outcomes_equivalent_iff_example =
    outcomes_equivalent_iff (DiffOutcome.returned (pair (codes "5"))) crashed

classify-hard_example :
    classify two_fields "strings" crashed (DiffOutcome.returned (pair (codes "5"))) both
    ≡ Verdict.divergence
unfolding is_hard_failure
classify-hard_example =
    classify-hard two_fields "strings" crashed (DiffOutcome.returned (pair (codes "5"))) both refl

predicted_gap_iff_example :
    (classify two_fields "bench_2_to_17" (DiffOutcome.returned (pair (codes "5"))) too_wide both
      ≡ Verdict.predicted_gap)
    ↔ ((field : FieldId) × (RefusedBy two_fields
            (DiffOutcome.returned (pair (codes "5")))
            too_wide
            both
            field
          × Lacks two_fields "bench_2_to_17" field program_capabilities))
predicted_gap_iff_example =
    predicted_gap_iff two_fields "bench_2_to_17" (DiffOutcome.returned (pair (codes "5"))) too_wide
      both

equal_modulo_field_iff_example :
    (classify two_fields "strings"
        (DiffOutcome.returned (pair (codes "5")))
        (DiffOutcome.returned (pair (codes "6")))
        both
      ≡ Verdict.equal_modulo_field)
    ↔ ((erase (pair (codes "5")) ≡ erase (pair (codes "6")))
        × (¬ (pair (codes "5") ≡ pair (codes "6"))))
equal_modulo_field_iff_example =
    equal_modulo_field_iff two_fields "strings" (pair (codes "5")) (pair (codes "6")) both

classify-swap_example :
    classify two_fields "strings" too_wide (DiffOutcome.returned (pair (codes "5"))) (swap both)
    ≡ classify two_fields "strings" (DiffOutcome.returned (pair (codes "5"))) too_wide both
classify-swap_example =
    classify-swap two_fields "strings" (DiffOutcome.returned (pair (codes "5"))) too_wide both

abbrev one_row : List Row
one_row =
    record {
      name = "strings";
      bn254 = (check, check, check);
      goldilocks = (check, check, check);
      verdict = Verdict.field_dependent;
      ast = check;
      record_hash = [];
    }
    ∷ []

invariant_violations_iff_example : (invariant_violations one_row ≡ []) ↔ (
    AllHave one_row Verdict.field_dependent known_field_dependent
    × AllHave one_row Verdict.predicted_gap program_capabilities
    × AllProjectAlike one_row projection_invariant_fixtures)
invariant_violations_iff_example = invariant_violations_iff one_row

allowlisted_not_predicted_example : Expected.predicted_gap two_fields "strings" 1 ≡ false
unfolding is_allowlisted
allowlisted_not_predicted_example = allowlisted_not_predicted two_fields "strings" 1 refl

normalize_text_example :
    ((ws : List Text) × Spaced (codes " a  b ") ws
      × AllWords ws
      × (normalize_text (codes " a  b ") ≡ join (codes " ") ws))
    × (normalize_text (normalize_text (codes " a  b ")) ≡ normalize_text (codes " a  b "))
normalize_text_example = normalize_text_lem (codes " a  b ")

-- A parser that reads one input `x`, the scalar 37.
abbrev pub small_bridge : Bridge ℕ ℕ
small_bridge = record {
  main_return_name = codes "return";
  encode_scalar = λ s abi_type field. Answer.given s;
  debug_type = λ abi_type. "type";
  try_from_biguint = λ n field. if ltb n 97 then some n else none;
  parse_toml = λ src abi field.
      Answer.given (InputMap.entry (codes "x") (InputValue.scalar 37) InputMap.empty);
}

abbrev pub small_abi : Abi
small_abi = record {
  parameters = (codes "x", AbiType.integer false 8) ∷ [];
  return_type = some (AbiType.integer false 8);
}

abbrev pub small_signature : Signature
small_signature = record {
  parameters = (codes "x", MonoType.integer false 8) ∷ [];
  return_type = MonoType.integer false 8;
}

inputs_from_prover_toml-After_example :
    After (AllBound small_field 0 ((codes "x", MonoType.integer false 8) ∷ [])) empty_machine (
      inputs_from_prover_toml small_bridge 0 small_program small_signature small_abi
        (codes "x = 37")
        empty_machine)
inputs_from_prover_toml-After_example =
    inputs_from_prover_toml-After small_field small_bridge 0 (λ n f e. refl) small_program
      small_signature small_abi (codes "x = 37") empty_machine

inputs_from_prover_toml-AllRead_example :
    After
      (FromToml small_bridge 0 small_abi
        (codes "x = 37")
        ((codes "x", MonoType.integer false 8) ∷ []))
      empty_machine
      (inputs_from_prover_toml small_bridge 0 small_program small_signature small_abi
        (codes "x = 37")
        empty_machine)
inputs_from_prover_toml-AllRead_example =
    inputs_from_prover_toml-AllRead small_bridge 0 small_program small_signature small_abi
      (codes "x = 37") empty_machine

-- The tuple (7u8, 5) of a heap.
abbrev pair_machine : Machine ℕ
pair_machine = record empty_machine { heap = u8 7 ∷ Value.field 5 ∷ [] }

abbrev pair_type : MonoType
pair_type =
    MonoType.tuple (Types.cons (MonoType.integer false 8) (Types.cons MonoType.field Types.nil))

pair_typed : HasType small_field 0 pair_machine.heap pair_type (Value.tuple (0 ∷ 1 ∷ []))
unfolding HasType HaveTypes
pair_typed = (
  (u8 7, refl, (refl, refl, λ h. record { has_bits = omega arith; in_range = omega arith })),
  ((Value.field 5, refl, refl), tt),
)

levels_example : levels pair_type ≡ 3
unfolding levels levels_all
levels_example = refl

from_value-Gives_example :
    Gives small_field 0
      (Encodes small_field pair_machine.heap pair_type (Value.tuple (0 ∷ 1 ∷ [])))
      pair_machine
      (from_value small_field 3 (Value.tuple (0 ∷ 1 ∷ [])) pair_machine)
from_value-Gives_example =
    from_value-Gives small_field 0 3 pair_type (Value.tuple (0 ∷ 1 ∷ [])) pair_machine
      (omega (arith, levels_example)) pair_typed

abbrev pub plain_escapes : Escapes
plain_escapes = record { debug_str = λ s. s; escape_ascii = λ s. s; debug_value = λ v. [] }

compare_with_recorded_iff_example :
    (compare_with_recorded plain_escapes 0 (pair (codes "5")) (pair (codes "6")) 0
      ≡ StepOutcome.passed)
    ↔ ((erase (pair (codes "5")) ≡ erase (pair (codes "6")))
        × (◌≡◌ {A = FieldId} 0 0 → pair (codes "5") ≡ pair (codes "6")))
compare_with_recorded_iff_example =
    compare_with_recorded_iff plain_escapes 0 (pair (codes "5")) (pair (codes "6")) 0

pin_disagreement_iff_example :
    (pin_disagreement (codes "a" ∷ codes "b" ∷ []) (codes "a") ≡ accepted)
    ↔ ((¬ (codes "a" ∷ codes "b" ∷ [] ≡ [])) × AllAre (codes "a") (codes "a" ∷ codes "b" ∷ []))
pin_disagreement_iff_example = pin_disagreement_iff (codes "a" ∷ codes "b" ∷ []) (codes "a")

abbrev some_provenance : Provenance
some_provenance = record {
  format_version = 1;
  projection_version = 1;
  field_name = codes "bn254";
  field_modulus = codes "7";
  noir_rev = codes "ab";
  interpreter_rev = codes "cd";
  interpreter_dirty = false;
  corpus_dir = codes "corpus";
  corpus_hash = codes "00";
  program_count = 1;
  toolchain = codes "rustc";
  features = [];
  built_at = codes "now";
}

abbrev unloaded : RunRecord
unloaded = record {
  source_hash = codes "00";
  load = StepOutcome.failed (comparable FailureKind.project_load (codes "x")) (codes "x");
  compile = StepOutcome.not_run (codes "not loaded");
  interpret = StepOutcome.not_run (codes "not compiled");
  oracle = StepOutcome.not_run (codes "not interpreted");
  projection = StepOutcome.not_run (codes "not compiled");
  returned = none;
  projection_hash = none;
}

abbrev one_run : Runs
one_run = ("strings", unloaded, unloaded, both) ∷ []

inputs_read :
    inputs_from_prover_toml small_bridge 0 small_program small_signature small_abi
      (codes "x = 37")
      empty_machine
    ≡ returned (u8 37 ∷ []) empty_machine
unfolding inputs_from_prover_toml parse_prover_toml bind_inputs value_from_input scalar_from
    scalar_abi_matches element main_function_of function_of canonical wrap tmod
inputs_read = refl

parameters_fit : AllFit 1 ((codes "x", MonoType.integer false 8) ∷ [])
unfolding levels HasBits
parameters_fit = (omega arith, omega arith, tt)

inputs_from_prover_toml-Passes_example :
    Passes empty_machine (validate_inputs small_field 0 1 (u8 37 ∷ []) empty_machine)
inputs_from_prover_toml-Passes_example =
    inputs_from_prover_toml-Passes small_field small_bridge 0 (λ n f e. refl) 1 small_program
      small_signature small_abi (codes "x = 37") empty_machine empty_machine (u8 37 ∷ [])
      parameters_fit inputs_read
