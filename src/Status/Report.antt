-- ===== src/Status/Report.antt =====
-- src/status.rs: the text of the report.
use ast_interpreter.Base.{ℕ, zero, suc, Bool, List, [], ◌∷◌, ◌++◌, if◌then◌else◌, codes}
use ast_interpreter.Base.Text.{decimal}
use ast_interpreter.Base.Search.{starts_with, eqb_text}
use ast_interpreter.Error.{Text}
use ast_interpreter.Status.Verdicts.{Verdict}
use ast_interpreter.Status.Rows.{check, cross, dash, Row, eqb_Verdict}

-- `DumpProvenance`: what a dump was built from.
pub record Provenance : Type 0 where
  pub format_version : ℕ
  pub projection_version : ℕ
  pub field_name : Text
  pub field_modulus : Text
  pub noir_rev : Text
  pub interpreter_rev : Text
  pub interpreter_dirty : Bool
  pub corpus_dir : Text
  pub corpus_hash : Text
  pub program_count : ℕ
  pub toolchain : Text
  pub features : List Text
  pub built_at : Text

unfoldable pub show_verdict : Verdict → Text
show_verdict Verdict.not_run = codes "➖ not run"
show_verdict Verdict.equal = codes "✅ equal"
show_verdict Verdict.equal_modulo_field = codes "✅ equal*"
show_verdict Verdict.predicted_gap = codes "🟡 predicted"
show_verdict Verdict.field_dependent = codes "🟡 field-dependent"
show_verdict Verdict.coverage_gap = codes "🟡 both-sides"
show_verdict Verdict.unexpected_gap = codes "⚠" ++ 65039 ∷ codes " unexpected"
show_verdict Verdict.divergence = codes "❌ divergence"

unfoldable pub introduction : Text
introduction =
    codes "# Status\n\nEvery program of Noir's `execution_success` corpus and this crate's "
    ++ codes
        "fixtures, compiled and interpreted under both fields at the pinned compiler revision. "
    ++ codes "`compile`, `run` and `return` are the frontend, the interpreter and the check "
    ++ codes "against the `return` recorded in `Prover.toml` (exact under bn254; `Field` values "
    ++ codes "ignored under goldilocks, whose corpus records bn254 values): ✅ passed, ❌ failed, "
    ++ codes "➖ not run. `Fields` compares the two sides: `equal`; `equal*`, only `Field` values "
    ++ codes "differ; `predicted`, one side lacks a field property the program's entry point, "
    ++ codes "inputs, recorded return, constants or casts need; `field-dependent`, allowlisted "
    ++ codes "as field-dependent by design; `both-sides`, neither side ran it; `unexpected`, "
    ++ codes "a one-sided gap nothing predicts; `divergence`, different results; `not run`, "
    ++ codes "a workspace manifest. `AST` says whether both monomorphized programs project to "
    ++ codes "the same hash. `Record` fingerprints the row's underlying records, so any change "
    ++ codes "shows here even when the glyphs do not. Regenerate with `make status`; CI fails "
    ++ codes "when a fresh run differs.\n\n"

unfoldable pub row_header : Text
row_header =
    codes
      "| Program | bn254 compile | bn254 run | bn254 return | goldilocks compile | goldilocks run | goldilocks return | Fields | AST | Record |\n"
    ++ codes "| --- | --- | --- | --- | --- | --- | --- | --- | --- | --- |\n"

-- `rows.iter().filter(p).count()`.
abbrev pub count_rows : (Row → Bool) → List Row → ℕ
count_rows p [] = zero
count_rows p (r ∷ rows) = let rest = count_rows p rows in if p r then suc rest else rest

unfoldable pub provenance_table : Provenance → (fixtures : ℕ) → Text
provenance_table p fixtures =
    codes "| provenance | value |\n| --- | --- |\n"
    ++ codes "| noir_rev | "
    ++ p.noir_rev
    ++ codes " |\n| corpus_hash | "
    ++ p.corpus_hash
    ++ codes " |\n| programs | "
    ++ decimal p.program_count
    ++ codes " corpus, "
    ++ decimal fixtures
    ++ codes " fixtures |\n| toolchain | "
    ++ p.toolchain
    ++ codes " |\n| format | dump "
    ++ decimal p.format_version
    ++ codes ", projection "
    ++ decimal p.projection_version
    ++ codes " |\n\n"

abbrev pub cell : Text → Text
cell t = t ++ codes " | "

abbrev pub show_steps : Text × Text × Text → Text
show_steps (compile, run, result) = cell compile ++ cell run ++ cell result

unfoldable pub show_row : Row → Text
unfolding show_verdict
show_row r =
    codes "| "
    ++ cell (codes r.name)
    ++ show_steps r.bn254
    ++ show_steps r.goldilocks
    ++ cell (show_verdict r.verdict)
    ++ cell r.ast
    ++ r.record_hash
    ++ codes " |\n"

unfoldable pub show_rows : List Row → Text
unfolding show_row
show_rows [] = []
show_rows (r ∷ rows) = show_row r ++ show_rows rows

unfoldable pub count_glyph : (Row → Text) → Text → List Row → ℕ
count_glyph column g rows = count_rows (λ (r : Row). eqb_text (column r) g) rows

unfoldable pub total_row : List Row → Text × (Row → Text) → Text
unfolding count_glyph
total_row rows (label, column) =
    codes "| "
    ++ cell label
    ++ cell (decimal (count_glyph column check rows))
    ++ cell (decimal (count_glyph column cross rows))
    ++ decimal (count_glyph column dash rows)
    ++ codes " |\n"

unfoldable pub total_rows : List Row → List (Text × (Row → Text)) → Text
unfolding total_row
total_rows rows [] = []
total_rows rows (column ∷ columns) = total_row rows column ++ total_rows rows columns

abbrev pub first_step : Text × Text × Text → Text
first_step (compile, run, result) = compile

abbrev pub second_step : Text × Text × Text → Text
second_step (compile, run, result) = run

abbrev pub third_step : Text × Text × Text → Text
third_step (compile, run, result) = result

abbrev pub columns : List (Text × (Row → Text))
columns =
    (codes "bn254 compile", λ (r : Row). first_step r.bn254)
    ∷ (codes "bn254 run", λ (r : Row). second_step r.bn254)
    ∷ (codes "bn254 return", λ (r : Row). third_step r.bn254)
    ∷ (codes "goldilocks compile", λ (r : Row). first_step r.goldilocks)
    ∷ (codes "goldilocks run", λ (r : Row). second_step r.goldilocks)
    ∷ (codes "goldilocks return", λ (r : Row). third_step r.goldilocks)
    ∷ (codes "AST", λ (r : Row). r.ast)
    ∷ []

unfoldable pub count_verdict : List Row → Verdict → ℕ
unfolding eqb_Verdict
count_verdict rows v = count_rows (λ (r : Row). eqb_Verdict r.verdict v) rows

unfoldable pub verdict_rows : List Row → List Verdict → Text
unfolding show_verdict count_verdict
verdict_rows rows [] = []
verdict_rows rows (v ∷ vs) =
    codes "| "
    ++ cell (show_verdict v)
    ++ decimal (count_verdict rows v)
    ++ codes " |\n"
    ++ verdict_rows rows vs

abbrev pub verdicts : List Verdict
verdicts =
    Verdict.equal ∷ Verdict.equal_modulo_field ∷ Verdict.predicted_gap ∷ Verdict.field_dependent
    ∷ Verdict.coverage_gap ∷ Verdict.unexpected_gap ∷ Verdict.divergence ∷ Verdict.not_run ∷ []

abbrev pub is_fixture : Row → Bool
is_fixture r = starts_with (codes r.name) (codes "fixtures/")

unfoldable pub render_status : Provenance → List Row → Text
unfolding introduction row_header provenance_table show_rows total_rows verdict_rows
render_status provenance rows =
    introduction
    ++ provenance_table provenance (count_rows is_fixture rows)
    ++ row_header
    ++ show_rows rows
    ++ codes "\n## Totals\n\n| column | ✅ | ❌ | ➖ |\n| --- | --- | --- | --- |\n"
    ++ total_rows rows columns
    ++ codes "\n| Fields | count |\n| --- | --- |\n"
    ++ verdict_rows rows verdicts
