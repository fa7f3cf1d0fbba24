-- ===== src/Status/Rows.antt =====
-- src/status.rs: a program's row of the report, and the tables' entries that a report leaves stale.
use Prim.Native.String.{◌++◌ as str_append}
use text.Mathlib.Text.{◌==◌ as str_eq}
use ast_interpreter.Base.{
  ℕ, take, Bool, true, false, List, [], ◌∷◌, ◌++◌, Option, none, some, String, ◌&&◌, ◌||◌,
  if◌then◌else◌, codes,
}
use ast_interpreter.Base.Search.{eqb_text}
use ast_interpreter.Error.{Text}
use ast_interpreter.Host.{Fields}
use ast_interpreter.Diff.Values.{DiffValue}
use ast_interpreter.Diff.Rendering.{Escapes, show_value, show_step}
use ast_interpreter.Corpus.Paths.{hex}
use ast_interpreter.Diff.Records.{StepOutcome, RunRecord, failure, outcome}
use ast_interpreter.Status.Tables.{
  program_capabilities, known_field_dependent, projection_invariant_fixtures,
}
use ast_interpreter.Status.Expected.{find}
use ast_interpreter.Status.Verdicts.{Verdict, Sides, classify}

abbrev pub check : Text
check = codes "✅"

abbrev pub cross : Text
cross = codes "❌"

abbrev pub dash : Text
dash = codes "➖"

unfoldable pub glyph : StepOutcome → Text
glyph StepOutcome.passed = check
glyph (StepOutcome.failed _ _) = cross
glyph (StepOutcome.not_run _) = dash

abbrev pub load_glyph : StepOutcome → Text → Text
load_glyph StepOutcome.passed compile = compile
load_glyph (StepOutcome.failed _ _) compile = cross
load_glyph (StepOutcome.not_run _) compile = dash

unfoldable pub step_glyphs : RunRecord → Text × Text × Text
unfolding glyph
step_glyphs record' =
    (load_glyph record'.load (glyph record'.compile), glyph record'.interpret, glyph record'.oracle)

abbrev pub is_some {ℓ} : {A : Type ℓ} → Option A → Bool
is_some none = false
is_some (some _) = true

abbrev pub hash_glyph : Option Text → Option Text → Text
hash_glyph (some x) (some y) = if eqb_text x y then check else cross
hash_glyph _ _ = dash

unfoldable pub ast_glyph : RunRecord → RunRecord → Text
unfolding failure
ast_glyph a b =
    if is_some (failure a.projection) || is_some (failure b.projection)
    then cross
    else hash_glyph a.projection_hash b.projection_hash

pub record Row : Type 0 where
  pub name : String
  pub bn254 : Text × Text × Text
  pub goldilocks : Text × Text × Text
  pub verdict : Verdict
  pub ast : Text
  -- the column `Record`
  pub record_hash : Text

abbrev pub is_not_run : StepOutcome → Bool
is_not_run (StepOutcome.not_run _) = true
is_not_run _ = false

abbrev pub or_default : Option Text → Text
or_default none = []
or_default (some t) = t

unfoldable pub returned_text : Escapes → Option DiffValue → Text
returned_text escapes none = []
returned_text escapes (some value) = show_value escapes value

-- What the fingerprint hashes of one record.
unfoldable pub fingerprinted : Escapes → RunRecord → Text
unfolding returned_text show_step
fingerprinted escapes r =
    let newline = codes "\n" in
    r.source_hash
    ++ newline
    ++ show_step r.load
    ++ newline
    ++ show_step r.compile
    ++ newline
    ++ show_step r.interpret
    ++ newline
    ++ show_step r.oracle
    ++ newline
    ++ show_step r.projection
    ++ newline
    ++ returned_text escapes r.returned
    ++ newline
    ++ or_default r.projection_hash
    ++ newline

unfoldable pub fingerprint : Escapes → (Text → List ℕ) → RunRecord → RunRecord → Text
unfolding fingerprinted hex
fingerprint escapes sha256 a b =
    take 8 (hex (sha256 (fingerprinted escapes a ++ fingerprinted escapes b)))

unfoldable pub row :
    Fields → Escapes → (Text → List ℕ) → String → RunRecord → RunRecord → Sides → Row
unfolding step_glyphs classify outcome ast_glyph fingerprint
row fields escapes sha256 name a b sides =
    let idle = is_not_run a.load && is_not_run b.load in
    record {
      name = name;
      bn254 = step_glyphs a;
      goldilocks = step_glyphs b;
      verdict =
          if idle then Verdict.not_run else classify fields name (outcome a) (outcome b) sides;
      ast = if idle then dash else ast_glyph a b;
      record_hash = fingerprint escapes sha256 a b;
    }

unfoldable pub eqb_Verdict : Verdict → Verdict → Bool
eqb_Verdict Verdict.not_run Verdict.not_run = true
eqb_Verdict Verdict.equal Verdict.equal = true
eqb_Verdict Verdict.equal_modulo_field Verdict.equal_modulo_field = true
eqb_Verdict Verdict.predicted_gap Verdict.predicted_gap = true
eqb_Verdict Verdict.field_dependent Verdict.field_dependent = true
eqb_Verdict Verdict.coverage_gap Verdict.coverage_gap = true
eqb_Verdict Verdict.unexpected_gap Verdict.unexpected_gap = true
eqb_Verdict Verdict.divergence Verdict.divergence = true
eqb_Verdict _ _ = false

-- The first row of a name.
unfoldable pub row_of : List Row → String → Option Row
row_of rows name = find (λ (r : Row). str_eq r.name name) rows

-- Whether the first row of a name has a verdict.
unfoldable pub has_verdict : List Row → Verdict → String → Bool
unfolding row_of eqb_Verdict
has_verdict rows verdict name = elim (row_of rows name) [
  | none ↦ false
  | some r ↦ eqb_Verdict r.verdict verdict
]

pub data Violation : Type 0 where
  not_field_dependent gap_not_predicted missing : (name : String) → Violation
  projects_differently : (name : String) → (ast : Text) → Violation

-- One violation for each entry of a table whose row does not have the table's verdict.
abbrev pub stale {ℓ} :
    {A : Type ℓ} → List Row → Verdict → (String → Violation) → List (String × A) → List Violation
stale rows verdict violation [] = []
stale rows verdict violation ((name, _) ∷ entries) =
    let rest = stale rows verdict violation entries in
    if has_verdict rows verdict name then rest else violation name ∷ rest

unfoldable pub projection_violation : String → Option Row → List Violation
projection_violation name none = missing name ∷ []
projection_violation name (some r) =
    if eqb_text r.ast check then [] else projects_differently name r.ast ∷ []

-- The name of a fixture's row, with FIXTURE_PREFIX.
unfoldable pub fixture : String → String
fixture name = str_append "fixtures/" name

unfoldable pub drifted : List Row → List String → List Violation
unfolding projection_violation fixture
drifted rows [] = []
drifted rows (name ∷ names) =
    projection_violation (fixture name) (row_of rows (fixture name)) ++ drifted rows names

unfoldable pub invariant_violations : List Row → List Violation
invariant_violations rows =
    stale rows Verdict.field_dependent not_field_dependent known_field_dependent
    ++ (stale rows Verdict.predicted_gap gap_not_predicted program_capabilities
        ++ drifted rows projection_invariant_fixtures)
