-- ===== src/Corpus/Program.antt =====
-- src/corpus.rs: the record of a corpus program, with the machine's own paths out of its texts.
use ast_interpreter.Base.{ℕ, Bool, List, Option, none, some, if◌then◌else◌}
use ast_interpreter.Error.{Text}
use ast_interpreter.Host.{FieldId}
use ast_interpreter.Diff.Records.{RunRecord}
use ast_interpreter.Corpus.Paths.{normalize_step}
use ast_interpreter.Corpus.Run.{Package, Harness, not_run, run_steps}

-- What a run reads of a program: its directory is the package and the forms of the path roots.
pub record CorpusProgram : Type 0 where
  pub workspace : Bool
  pub source_hash : Text
  pub dir : Package
  pub path_roots : List (List Text × Text)

unfoldable pub workspace_record : Text → RunRecord
workspace_record source_hash = record {
  source_hash = source_hash;
  load = not_run "workspace manifest: the interpreter runs single-package programs";
  compile = not_run "not loaded";
  interpret = not_run "not compiled";
  oracle = not_run "not interpreted";
  projection = not_run "not compiled";
  returned = none;
  projection_hash = none;
}

unfoldable pub normalize_record : (ℕ → Bool) → List (List Text × Text) → RunRecord → RunRecord
unfolding normalize_step
normalize_record is_alphanumeric roots r = record r {
  load = normalize_step is_alphanumeric r.load roots;
  compile = normalize_step is_alphanumeric r.compile roots;
  interpret = normalize_step is_alphanumeric r.interpret roots;
  oracle = normalize_step is_alphanumeric r.oracle roots;
  projection = normalize_step is_alphanumeric r.projection roots;
}

unfoldable pub normalized :
    (ℕ → Bool) → List (List Text × Text) → Option RunRecord → Option RunRecord
unfolding normalize_record
normalized is_alphanumeric roots none = none
normalized is_alphanumeric roots (some r) = some (normalize_record is_alphanumeric roots r)

unfoldable pub run_record :
    {F S : Type 0} → Harness F S → (ℕ → Bool) → CorpusProgram → FieldId → Option RunRecord
unfolding workspace_record normalized run_steps
run_record harness is_alphanumeric program field =
    if program.workspace
    then some (workspace_record program.source_hash)
    else normalized is_alphanumeric program.path_roots
        (run_steps harness program.dir program.source_hash field)
