-- ===== src/Corpus/Diagnostics.antt =====
-- src/validation_frontend.rs: the summary and the detail of the compiler's diagnostics.
use ast_interpreter.Base.{
  ℕ, ◌-◌, Bool, ◌||◌, List, [], ◌∷◌, ◌++◌, length, take, ltb, codes, if◌then◌else◌,
}
use ast_interpreter.Base.Text.{decimal, join}
use ast_interpreter.Error.{Text}
use ast_interpreter.Diff.Errors.{normalize_text}
use ast_interpreter.Corpus.Paths.{hex}

-- What the code asks of a diagnostic of the compiler.
pub record Diagnostic : Type 0 where
  pub is_error : Bool
  pub is_bug : Bool
  pub message : Text

-- RECORDED_DIAGNOSTICS.
abbrev pub recorded_diagnostics : ℕ
recorded_diagnostics = 8

unfoldable pub error_messages : List Diagnostic → List Text
error_messages [] = []
error_messages (d ∷ ds) =
    let rest = error_messages ds in if d.is_error || d.is_bug then d.message ∷ rest else rest

unfoldable pub summary_of : (Text → List ℕ) → List Text → Text
unfolding normalize_text
summary_of sha256 messages =
    let summary = join (codes " | ") (take recorded_diagnostics messages) in
    if ltb recorded_diagnostics (length messages)
    then summary
      ++ codes " | ... and "
      ++ decimal (length messages - recorded_diagnostics)
      ++ codes " more (sha256="
      ++ hex (sha256 (normalize_text (join (codes " | ") messages)))
      ++ codes ")"
    else summary

unfoldable pub diagnostic_summary : (Text → List ℕ) → List Diagnostic → Text
unfolding error_messages summary_of
diagnostic_summary sha256 diagnostics = summary_of sha256 (error_messages diagnostics)

-- The derived `Debug` of a slice of diagnostics is a parameter.
unfoldable pub diagnostic_detail : (List Diagnostic → Text) → List Diagnostic → Text
diagnostic_detail debug diagnostics =
    let detail = codes "Noir compiler error: " ++ debug (take recorded_diagnostics diagnostics) in
    if ltb recorded_diagnostics (length diagnostics)
    then detail
      ++ codes " ... and "
      ++ decimal (length diagnostics - recorded_diagnostics)
      ++ codes " more"
    else detail
