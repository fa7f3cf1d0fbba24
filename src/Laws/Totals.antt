-- ===== src/Laws/Totals.antt =====
-- src/status.rs: the totals of the report.
use ast_interpreter.Base.{ℕ, zero, ◌+◌, ◌≡◌, String, List, [], ◌∷◌, ◌++◌, codes}
use ast_interpreter.Base.Text.{decimal}
use ast_interpreter.Error.{Text}
use ast_interpreter.Host.{Fields}
use ast_interpreter.Diff.Rendering.{Escapes}
use ast_interpreter.Diff.Records.{RunRecord}
use ast_interpreter.Status.Verdicts.{Verdict, Sides}
use ast_interpreter.Status.Rows.{Row, eqb_Verdict, row}
use ast_interpreter.Status.Report.{count_verdict, show_verdict}
use ast_interpreter.Laws.Counts.{CountOf, bit}

-- A line for each verdict, with the rows that have it, which add up to the number.
abbrev pub VerdictTotals : List Row → List Verdict → Text → ℕ → Type 0
VerdictTotals rows [] text total = (text ≡ []) × (total ≡ zero)
VerdictTotals rows (v ∷ vs) text total =
    (n : ℕ) × (m : ℕ) × (rest : Text) × (text
      ≡ codes "| " ++ (show_verdict v ++ codes " | ") ++ decimal n ++ codes " |\n" ++ rest)
    × CountOf (λ r. r.verdict ≡ v) rows n
    × (total ≡ n + m)
    × VerdictTotals rows vs rest m

-- The counts of a list of verdicts, added up.
sum_counts : List Row → List Verdict → ℕ
sum_counts rows [] = zero
sum_counts rows (v ∷ vs) = count_verdict rows v + sum_counts rows vs

-- How many of the verdicts of a list are the given one.
matching : Verdict → List Verdict → ℕ
matching v [] = zero
matching v (w ∷ ws) = bit (eqb_Verdict v w) + matching v ws

-- The report's programs, each with its two records and the sides' fields.
abbrev pub Runs : Type 0
Runs = List (String × RunRecord × RunRecord × Sides)

module _ (fields : Fields) (escapes : Escapes) (sha256 : Text → List ℕ) where
  abbrev pub rows_of : Runs → List Row
  rows_of [] = []
  rows_of ((name, a, b, sides) ∷ runs) = row fields escapes sha256 name a b sides ∷ rows_of runs
