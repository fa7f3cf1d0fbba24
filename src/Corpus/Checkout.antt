-- ===== src/Corpus/Checkout.antt =====
-- src/corpus.rs: the checks that the checkout, the manifest and the compiler are of one revision. A
-- message keeps the fixed text of its format string and drops the operands.
use ast_interpreter.Base.{not, String, List, [], ◌∷◌, Option, none, some, if◌then◌else◌}
use ast_interpreter.Base.Search.{eqb_text}
use ast_interpreter.Error.{Text}

-- `Result<(), String>`.
pub data Checked : Type 0 where
  accepted : Checked
  refused : String → Checked

-- The first revision that is not the given one.
abbrev pub find_odd : Text → List Text → Option Text
find_odd first [] = none
find_odd first (rev ∷ revs) =
    let rest = find_odd first revs in if not (eqb_text rev first) then some rev else rest

unfoldable pub pin_disagreement : List Text → (stamp : Text) → Checked
pin_disagreement [] stamp = refused "Cargo.toml pins no worldfnd/noir crate"
pin_disagreement (first ∷ revs) stamp = elim (find_odd first (first ∷ revs)) [
  | some _ ↦ refused "Cargo.toml pins noir at both  and "
  | none ↦
      if not (eqb_text first stamp)
      then refused
          "Cargo.toml pins noir at  but the compiler in this build was built from : a path override or a stale build"
      else accepted
]

unfoldable pub checkout_mismatch : Option Text → (stamp : Text) → (dirty : List Text) → Checked
checkout_mismatch none stamp dirty =
    refused " is not a git checkout; the corpus must come from noir at "
checkout_mismatch (some head) stamp [] =
    if not (eqb_text head stamp)
    then refused
        " is at  but the pinned compiler was built from ; check that revision out there, or point NOIR_CHECKOUT at a worktree of it"
    else accepted
checkout_mismatch (some head) stamp (change ∷ dirty) =
    if not (eqb_text head stamp)
    then refused
        " is at  but the pinned compiler was built from ; check that revision out there, or point NOIR_CHECKOUT at a worktree of it"
    else refused " has local changes in the corpus or its path dependencies: "
