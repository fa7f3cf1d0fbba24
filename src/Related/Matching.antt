-- ===== src/Related/Matching.antt =====
-- The tests and bindings of a `match`.
use ast_interpreter.Base.{ℕ, ◌≤◌, true, List, [], ◌∷◌, length, ◌==◌, suc}
use ast_interpreter.Value.Data.{Value, Address}
use ast_interpreter.Ast.{Constructor}
use ast_interpreter.Host.{Host}
use ast_interpreter.Eval.Matching.{
  int_matches, tag_matches, variant_matches, case_matches, variant_fields, enum_payload,
  plain_payload, payload_cells, bind_arguments, bind_payload, bind_case_arguments,
}
use ast_interpreter.Related.Closed.{Closed, lifts, options, branches}
use ast_interpreter.Related.Cells.{read_copy-Rel}

module _ {F : Type 0} (c : Closed F) (host : Host F) where
  tag_matches-Rel : (i : ℕ) (v : Value F) → c.Rel (tag_matches host i v) (tag_matches host i v)
  unfolding tag_matches
  tag_matches-Rel i (Value.field f) = c.returns _
  tag_matches-Rel i _ = c.fails _

  int_matches-Rel : (v : Value F) (w : _) → c.Rel (int_matches host w v) (int_matches host w v)
  unfolding int_matches
  int_matches-Rel (Value.field f) w = c.returns _
  int_matches-Rel _ w = c.bind (lifts c _) (λ i. c.returns _)

  variant_matches-Rel :
      (i : ℕ) (v : Value F) → c.Rel (variant_matches host i v) (variant_matches host i v)
  unfolding variant_matches
  variant_matches-Rel i (Value.tuple []) = c.fails _
  variant_matches-Rel i (Value.tuple (a ∷ _)) = c.bind (c.reads a) (λ v. tag_matches-Rel i v)
  variant_matches-Rel i _ = c.fails _

  pub case_matches-Rel :
      (k : Constructor) (v : Value F) → c.Rel (case_matches host k v) (case_matches host k v)
  unfolding case_matches
  case_matches-Rel Constructor.unit v = c.returns _
  case_matches-Rel Constructor.tuple v = c.returns _
  case_matches-Rel Constructor.true v = lifts c _
  case_matches-Rel Constructor.false v = c.bind (lifts c _) (λ b. c.returns _)
  case_matches-Rel (Constructor.int want) v = int_matches-Rel v want
  case_matches-Rel (Constructor.variant is_enum i) v =
      branches c is_enum (variant_matches-Rel i v) (c.returns _)
  case_matches-Rel Constructor.range v = c.fails _

module _ {F : Type 0} (c : Closed F) where
  variant_fields-Rel : (v : Value F) → c.Rel (variant_fields v) (variant_fields v)
  unfolding variant_fields
  variant_fields-Rel (Value.tuple fields) = c.returns _
  variant_fields-Rel _ = c.fails _

  enum_payload-Rel : (i : ℕ) (v : Value F) → c.Rel (enum_payload i v) (enum_payload i v)
  unfolding enum_payload
  enum_payload-Rel i (Value.tuple variants) =
      c.bind (options c _ _) (λ a. c.bind (c.reads a) (λ v. variant_fields-Rel v))
  enum_payload-Rel i _ = c.fails _

  plain_payload-Rel : (v : Value F) → c.Rel (plain_payload v) (plain_payload v)
  unfolding plain_payload
  plain_payload-Rel (Value.tuple fields) = c.returns _
  plain_payload-Rel _ = c.fails _

  payload_cells-Rel :
      (k : Constructor) (v : Value F) → c.Rel (payload_cells k v) (payload_cells k v)
  unfolding payload_cells
  payload_cells-Rel (Constructor.variant true i) v = enum_payload-Rel i v
  payload_cells-Rel _ v = plain_payload-Rel v

module _ {F : Type 0} (c : Closed F) (n m : ℕ) (h : n ≤ m) where
  bind_arguments-Rel :
      (args : List ℕ) (cells : List Address)
      → c.Rel (bind_arguments n args cells) (bind_arguments m args cells)
  unfolding bind_arguments
  bind_arguments-Rel [] cells = c.returns tt
  bind_arguments-Rel (arg ∷ args) [] = c.returns tt
  bind_arguments-Rel (arg ∷ args) (cell ∷ cells) =
      c.bind (read_copy-Rel c n m h cell)
        (λ v. c.bind (c.env_inserts arg v) (λ _. bind_arguments-Rel args cells))

  pub bind_case_arguments-Rel :
      (k : Constructor) (args : List ℕ) (v : Value F)
      → c.Rel (bind_case_arguments n k args v) (bind_case_arguments m k args v)
  unfolding bind_case_arguments bind_payload
  bind_case_arguments-Rel k [] v = c.returns tt
  bind_case_arguments-Rel k (arg ∷ args) v = c.bind (payload_cells-Rel c k v) (λ cells.
      branches c (length cells == suc (length args)) (bind_arguments-Rel (arg ∷ args) cells)
        (c.fails _))
