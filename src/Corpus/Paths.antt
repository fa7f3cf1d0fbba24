-- ===== src/Corpus/Paths.antt =====
-- src/corpus.rs: hexadecimal text, and the machine's own paths in recorded text.
use ast_interpreter.Base.{
  ℕ, zero, suc, ◌-◌, ◌/◌, ◌%◌, ◌+◌, Bool, true, not, List, [], ◌∷◌, ◌++◌, ◌==◌, ◌||◌, ltb, length,
  if◌then◌else◌,
}
use ast_interpreter.Base.Search.{starts_with}
use ast_interpreter.Error.{Text}
use ast_interpreter.Diff.Errors.{comparable}
use ast_interpreter.Diff.Records.{StepOutcome}

abbrev pub hex_digit : ℕ → ℕ
hex_digit d = if ltb d 10 then b'0' + d else b'a' + (d - 10)

-- Two digits of each byte.
unfoldable pub hex : List ℕ → Text
hex [] = []
hex (b ∷ bytes) = hex_digit (b / 16) ∷ hex_digit (b % 16) ∷ hex bytes

-- `char::is_alphanumeric` is a parameter.
module _ (is_alphanumeric : ℕ → Bool) where
  -- Whether no longer name goes on at the text.
  unfoldable pub is_boundary : Text → Bool
  is_boundary [] = true
  is_boundary (c ∷ _) = not (is_alphanumeric c || c == b'_' || c == b'-' || c == b'.')

  -- The text after `n` characters.
  unfoldable pub boundary_after : ℕ → Text → Bool
  unfolding is_boundary
  boundary_after zero s = is_boundary s
  boundary_after (suc n) [] = is_boundary []
  boundary_after (suc n) (_ ∷ s) = boundary_after n s

  -- The loop, with what is left of the root that was found last; a root is not empty.
  unfoldable pub replace_from : (root stand_in : Text) → ℕ → Text → Text
  unfolding boundary_after
  replace_from root stand_in skip [] = []
  replace_from root stand_in (suc skip) (_ ∷ s) = replace_from root stand_in skip s
  replace_from root stand_in zero (c ∷ s) =
      let found = replace_from root stand_in (length root - 1) s in
      let other = replace_from root stand_in zero s in
      if starts_with (c ∷ s) root
      then (if boundary_after (length root) (c ∷ s) then stand_in else root) ++ found
      else c ∷ other

  unfoldable pub replace_root : Text → (root stand_in : Text) → Text
  unfolding replace_from
  replace_root text root stand_in = replace_from root stand_in zero text

  -- The forms of a root: given, normalized and canonical.
  abbrev pub trim_slashes : Text → Text
  trim_slashes [] = []
  trim_slashes (c ∷ s) = keep (trim_slashes s)
    where
      keep : Text → Text
      keep [] = if c == b'/' then [] else c ∷ []
      keep (d ∷ t) = c ∷ d ∷ t

  unfoldable pub replace_form : Text → (stand_in form : Text) → Text
  unfolding replace_root
  replace_form text stand_in [] = text
  replace_form text stand_in (c ∷ form) = replace_root text (c ∷ form) stand_in

  unfoldable pub replace_forms : Text → List Text → (stand_in : Text) → Text
  unfolding replace_form
  replace_forms text [] stand_in = text
  replace_forms text (form ∷ forms) stand_in =
      replace_forms (replace_form text stand_in (trim_slashes form)) forms stand_in

  -- Each root comes with its sorted forms, as the file system gives them, and its stand-in.
  unfoldable pub normalize_paths : Text → List (List Text × Text) → Text
  unfolding replace_forms
  normalize_paths text [] = text
  normalize_paths text ((forms, stand_in) ∷ roots) =
      normalize_paths (replace_forms text forms stand_in) roots

  unfoldable pub normalize_step : StepOutcome → List (List Text × Text) → StepOutcome
  unfolding normalize_paths
  normalize_step (StepOutcome.failed error detail) roots =
      StepOutcome.failed (comparable error.kind (normalize_paths error.payload roots))
        (normalize_paths detail roots)
  normalize_step other roots = other
