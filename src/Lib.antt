-- ===== src/Lib.antt =====
-- ast-interpreter: a verification library for the interpreter of Noir's monomorphized AST.
--
-- The program. `interpret_with_inputs` (src/lib.rs) checks the caller's inputs (src/input.rs) and
-- calls `main`. `Interpreter::eval` (src/eval.rs) walks the AST: locals live in the environment of the
-- current call, tuple fields and mutable slots are shared cells (`Rc<RefCell<Value>>`), globals are
-- computed on first reference and kept, and calls are bounded by a depth. Operators act on machine
-- integers of any width (src/value.rs) and on field elements; builtins and foreign functions go
-- through `call_intrinsic` (src/intrinsics.rs). Failures are the values of `InterpretError`
-- (src/error.rs).
--
-- Around the interpreter stands the crate's own harness. Inputs and a recorded return come from a
-- program's `Prover.toml` through the ABI (src/input.rs). The corpus runner (src/corpus.rs) loads,
-- compiles, projects and interprets a program under a field, each step under a panic guard, and keeps a
-- `RunRecord` (src/diff.rs) with the value encoded as `DiffValue`. The status report (src/status.rs)
-- compares the records of two fields, with tables of programs and capabilities (src/capability.rs).
--
-- Which file models which part.
--   * Value/Ints, Value/Data: `IntValue` and `Value` of src/value.rs. A cell is an address of the
--     heap. Value/Wrap and Value/Pattern hold the theorems on the reduction and on the pattern.
--   * Error: src/error.rs, and the outcome of a computation without state; `panic` is a Rust panic.
--   * Machine: the state of `Interpreter` (src/lib.rs) with the heap and the current environment, and
--     the commands over it. A Rust `Err` leaves the state as the failing code left it.
--   * Eval: src/eval.rs. Eval/Scalar and Eval/Operators are the operators and casts, Eval/Cells the
--     copies and walks through cells, Eval/Matching the match arms, Eval/Format the rendering of
--     format strings, Eval/Places and Eval/Assign the places and assignments, Eval/Control the loops,
--     branches and matches, Eval/Calls the calls (with `call_function` of src/lib.rs) and the globals,
--     Eval/Step the other arms and `eval` itself.
--   * Intrinsics: src/intrinsics.rs, in the build without the feature `bn254-crypto`. Intrinsics/Bn254
--     is src/bn254_crypto.rs, which that feature adds, over its solver as a parameter.
--   * Input, Entry: `validate_inputs` of src/input.rs and the entry points of src/lib.rs.
--   * Prover: the bridge from `Prover.toml` of src/input.rs. Prover/Abi has noirc_abi's types and the
--     calls of that crate as the record Bridge; Prover/Bind has `value_from_input`,
--     `inputs_from_prover_toml` and `expected_return_from_prover_toml`. `Signature` is the part of
--     `main`'s declaration that only this code reads.
--   * Diff: src/diff.rs. Diff/Values encodes values, Diff/Errors the errors, Diff/Records has the steps
--     and the record of a run, Diff/Compare the comparison, whose refusals are trees, and
--     Diff/Rendering the text of all these.
--   * Corpus: src/corpus.rs. Corpus/Steps is the guarded step, Corpus/Run `run_steps` and the check of
--     the recorded return, composed with Prover, Entry and Diff/Values, Corpus/Program `run_record`,
--     Corpus/Paths the texts with the machine's paths replaced, Corpus/Checkout the revision checks,
--     Corpus/Diagnostics the summaries of src/validation_frontend.rs.
--   * Capability, Status: src/capability.rs and src/status.rs. Status/Tables are the three tables,
--     Status/Expected their lookups, Status/Refusals the refusals for a field's width,
--     Status/Verdicts `classify`, Status/Rows the rows and `invariant_violations`, Status/Report the
--     text of STATUS.md.
--   * Ast, Host: what the interpreter reads of other crates. Ast has noirc_frontend's AST with the
--     constructors and fields that the code reads. Host is a record of acvm's field arithmetic and
--     black boxes and of text functions, a parameter of every definition that calls them. Fields is
--     what the reports ask of a field. The one thing assumed of these crates is that
--     `try_from_biguint` makes a value of the field it is given, where the theorems on `Prover.toml`
--     say so.
--   * Related: what a relation between two runs has to satisfy to hold of the whole evaluator, proved
--     once by recursion on the fuel and the code. Fuel and Stable are its two instances. Copy is on
--     deep copies, Laws on operators, builtins, globals, whole runs, inputs, records and verdicts,
--     Examples has test programs and the theorems at concrete inputs.
--
-- Fuel. `eval` spends one unit for each level of the expression and of the calls, and passes what is
-- left to its loops and to the walks through cells (deep copies, references to references), which may
-- go round a cycle of cells. A run that is cut short ends as `out_of_fuel`, an outcome that the program
-- does not have; a run of Noir code need not terminate, so no bound is given in advance. The encoding
-- of a value follows references and runs on fuel too; the levels of the value's type are enough for it.
-- A record whose run is cut short is `none`.
--
-- What is not modelled. The operands that an error message prints are left out, except in assertion
-- messages, which the code renders, and the texts of another crate's errors on a `Prover.toml`, which
-- the verdicts read. Addresses outside of the heap have no counterpart in the program,
-- and reading one panics. Stack exhaustion, memory exhaustion and Rust's dynamic borrow flags are not
-- modelled. A signed integer type of no bits panics where the code computes `bits - 1` on `u32`. A
-- string of the reports is a list of code points; SHA-256, Rust's escapes of strings, the loading and
-- the compiling of a package and the hash of its projection are parameters, and so is the text of an
-- interpreter's panic, which an outcome does not keep. The source's projection (src/projection.rs), the
-- oracles (src/noir_oracle.rs, src/mavros_oracle.rs), the JSON dumps, the
-- listing and hashing of programs and the calls of git have no modules here.
pub mod Base
pub mod Error
pub mod Value
pub mod Ast
pub mod Host
pub mod Machine
pub mod Eval
pub mod Intrinsics
pub mod Input
pub mod Entry
pub mod Related
pub mod Fuel
pub mod Copy
pub mod Stable
pub mod Diff
pub mod Capability
pub mod Status
pub mod Prover
pub mod Corpus
pub mod Laws
pub mod Examples
