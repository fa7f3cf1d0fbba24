-- ===== src/Related/Step.antt =====
-- One step of the evaluator, and the evaluator.
use ast_interpreter.Base.{ℕ, zero, suc, ◌≤◌, Bool, true, false, List, Option, none, some, arith}
use ast_interpreter.Base.Int.{ℤ}
use ast_interpreter.Error.{Location}
use ast_interpreter.Value.Data.{Value, Values, Fragment, to_list, as_bool}
use ast_interpreter.Ast.{
  Expression, Expressions, Literal, Message, silent, message, Definition, UnaryOp, BinaryOpKind,
  LValue, MonoType, PrintableType,
}
use ast_interpreter.Host.{Context}
use ast_interpreter.Machine.{M, Flow}
use ast_interpreter.Eval.Format.{printable_capture_types}
use ast_interpreter.Eval.Places.{Evaluator}
use ast_interpreter.Eval.Step.{
  reference_to, extract_field, captured_cells, repeat_copies, normal_flow, eval_integer,
  eval_elements, eval_fmt_captures, eval_repeated, eval_literal, eval_ident, eval_operator,
  eval_operands, eval_index, render_fragments, render_text, render_assert_message, eval_constrain,
  eval_let, eval_assign, eval_statement, eval_tuple, eval_extract, eval_cast_of, eval_step, eval,
}
use ast_interpreter.Related.Closed.{Closed, GlobalsRel, lifts, branches}
use ast_interpreter.Related.Cells.{
  deep_copy-Rel, read_copies-Rel, make_tuple-Rel, tuple_field-Rel, deref-Rel, project_reference-Rel,
}
use ast_interpreter.Related.Format.{format_fmt_str-Rel, format_value-Rel}
use ast_interpreter.Related.Places.{
  EvRel, eval_expr_value-Rel, eval_local-Rel, eval_place-Rel, eval_index_value-Rel, index_value-Rel,
  store-Rel,
}
use ast_interpreter.Related.Calls.{bind_slot-Rel, eval_values-Rel, eval_call-Rel}
use ast_interpreter.Related.Control.{
  eval_block-Rel, eval_loop-Rel, eval_while-Rel, eval_for-Rel, eval_if-Rel, eval_match-Rel,
}

module _ {F : Type 0} (c : Closed F) where
  reference_to-Rel : (v : Value F) → c.Rel (reference_to v) (reference_to v)
  unfolding reference_to
  reference_to-Rel (Value.ref a true) = c.returns _
  reference_to-Rel _ = c.bind (c.allocs _) (λ a. c.returns _)

  normal_flow-Rel : {m m' : M F (Value F)} → c.Rel m m' → c.Rel (normal_flow m) (normal_flow m')
  unfolding normal_flow
  normal_flow-Rel h = c.bind h (λ v. c.returns _)

module _ {F : Type 0} (c : Closed F) (n m : ℕ) (h : n ≤ m) where
  extract_field-Rel : (v : Value F) (i : ℕ) → c.Rel (extract_field n v i) (extract_field m v i)
  unfolding extract_field
  extract_field-Rel (Value.ref a _) i = project_reference-Rel c n m h a i
  extract_field-Rel _ i = tuple_field-Rel c n m h _ i

  captured_cells-Rel : (v : Value F) → c.Rel (captured_cells n v) (captured_cells m v)
  unfolding captured_cells
  captured_cells-Rel (Value.tuple cells) = read_copies-Rel c n m h cells
  captured_cells-Rel _ = c.fails _

  repeat_copies-Rel : (k : ℕ) (v : Value F) → c.Rel (repeat_copies n k v) (repeat_copies m k v)
  unfolding repeat_copies
  repeat_copies-Rel zero v = c.returns _
  repeat_copies-Rel (suc k) v =
      c.bind (deep_copy-Rel c n m h v) (λ w. c.bind (repeat_copies-Rel k v) (λ ws. c.returns _))

module _ {F : Type 0} (c : Closed F) (g : GlobalsRel c) (ctx : Context F) (n m : ℕ) (h : n ≤ m)
    {ev ev' : Evaluator F} (r : EvRel c ev ev') where
  eval_integer-Rel :
      (i : ℤ) (t : MonoType) → c.Rel (eval_integer ctx n ev i t) (eval_integer ctx m ev' i t)
  unfolding eval_integer
  eval_integer-Rel i MonoType.field = c.bind (lifts c _) (λ f. c.returns _)
  eval_integer-Rel i (MonoType.integer signed bits) = c.bind (lifts c _) (λ f. c.returns _)
  eval_integer-Rel i _ = c.fails _

  eval_elements-Rel :
      (es : Expressions) → c.Rel (eval_elements ctx n ev es) (eval_elements ctx m ev' es)
  unfolding eval_elements
  eval_elements-Rel es = c.bind (eval_values-Rel c ctx n m h r es) (λ vs. c.returns _)

  eval_literal-Rel : (l : Literal) → c.Rel (eval_literal ctx n ev l) (eval_literal ctx m ev' l)
  unfolding eval_literal eval_repeated eval_fmt_captures
  eval_literal-Rel (Literal.integer i t) = eval_integer-Rel i t
  eval_literal-Rel (Literal.bool b) = c.returns _
  eval_literal-Rel Literal.unit = c.returns _
  eval_literal-Rel (Literal.str bytes) = c.returns _
  eval_literal-Rel (Literal.array es) = eval_elements-Rel es
  eval_literal-Rel (Literal.vector es) = eval_elements-Rel es
  eval_literal-Rel (Literal.repeated e k) =
      c.bind (eval_expr_value-Rel c n m h r e)
        (λ v. c.bind (repeat_copies-Rel c n m h k v) (λ vs. c.returns _))
  eval_literal-Rel (Literal.fmt_str fs e) =
      c.bind (c.bind (eval_expr_value-Rel c n m h r e) (λ v. captured_cells-Rel c n m h v))
        (λ vs. c.returns _)

  eval_ident-Rel : (d : Definition) → c.Rel (eval_ident ctx n ev d) (eval_ident ctx m ev' d)
  unfolding eval_ident
  eval_ident-Rel (Definition.local id) = eval_local-Rel c n m h id
  eval_ident-Rel (Definition.global id) = g ctx n m _ _ id h r
  eval_ident-Rel (Definition.function id) = c.returns _
  eval_ident-Rel _ = c.fails _

  eval_operator-Rel :
      (op : UnaryOp) (skip : Bool) (e : Expression)
      → c.Rel (eval_operator ctx n ev op skip e) (eval_operator ctx m ev' op skip e)
  unfolding eval_operator
  eval_operator-Rel UnaryOp.reference true e = eval_expr_value-Rel c n m h r e
  eval_operator-Rel UnaryOp.reference false e =
      c.bind (eval_place-Rel c n m h r e) (λ place. reference_to-Rel c place)
  eval_operator-Rel UnaryOp.dereference skip e =
      c.bind (eval_expr_value-Rel c n m h r e) (λ v. deref-Rel c n m h v)
  eval_operator-Rel _ skip e = c.bind (eval_expr_value-Rel c n m h r e) (λ v. lifts c _)

  eval_operands-Rel :
      (op : BinaryOpKind) (a b : Expression)
      → c.Rel (eval_operands ctx n ev op a b) (eval_operands ctx m ev' op a b)
  unfolding eval_operands
  eval_operands-Rel op a b =
      c.bind (eval_expr_value-Rel c n m h r a)
        (λ v. c.bind (eval_expr_value-Rel c n m h r b) (λ w. lifts c _))

  eval_index-Rel :
      (a i : Expression) (l : Location)
      → c.Rel (eval_index ctx n ev a i l) (eval_index ctx m ev' a i l)
  unfolding eval_index
  eval_index-Rel a i l =
      c.bind (eval_index_value-Rel c n m h r i)
        (λ k. c.bind (eval_expr_value-Rel c n m h r a) (λ v. index_value-Rel c l v k))

  render_fragments-Rel :
      (fs : List Fragment) (vs : Values F) (o : Option (List PrintableType))
      → c.Rel (render_fragments ctx n ev fs vs o) (render_fragments ctx m ev' fs vs o)
  unfolding render_fragments
  render_fragments-Rel fs vs none = c.returns _
  render_fragments-Rel fs vs (some ts) =
      c.attempts (format_fmt_str-Rel c (format_value-Rel c ctx.host n m h) fs (to_list vs) ts)

  render_text-Rel :
      (t : PrintableType) (v : Value F)
      → c.Rel (render_text ctx n ev t v) (render_text ctx m ev' t v)
  unfolding render_text
  render_text-Rel t (Value.str bytes) = c.returns _
  render_text-Rel (PrintableType.fmt_string t) (Value.fmt_str fs vs) =
      render_fragments-Rel fs vs (printable_capture_types t)
  render_text-Rel _ _ = c.returns _

  render_assert_message-Rel :
      (text : Message)
      → c.Rel (render_assert_message ctx n ev text) (render_assert_message ctx m ev' text)
  unfolding render_assert_message
  render_assert_message-Rel silent = c.returns _
  render_assert_message-Rel (message e t) =
      c.bind (c.attempts (eval_expr_value-Rel c n m h r e))
        (elim [ none ↦ c.returns _ | some v ↦ render_text-Rel t v ])

  eval_constrain-Rel :
      (e : Expression) (l : Location) (text : Message)
      → c.Rel (eval_constrain ctx n ev e l text) (eval_constrain ctx m ev' e l text)
  unfolding eval_constrain
  eval_constrain-Rel e l text = c.bind (eval_expr_value-Rel c n m h r e) (λ v.
      c.bind (lifts c (as_bool v)) (λ holds.
        branches c holds (c.returns _)
          (c.bind (render_assert_message-Rel text) (λ rendered. c.fails _))))

  eval_let-Rel :
      (id : ℕ) (mutable : Bool) (e : Expression)
      → c.Rel (eval_let ctx n ev id mutable e) (eval_let ctx m ev' id mutable e)
  unfolding eval_let
  eval_let-Rel id mutable e = c.bind (r e) (elim [
    | Flow.normal v ↦
        c.bind (bind_slot-Rel c mutable v)
          (λ bound. c.bind (c.env_inserts id bound) (λ _. c.returns _))
    | Flow.break ↦ c.returns _
    | Flow.continue ↦ c.returns _
  ])

  eval_assign-Rel :
      (l : LValue) (e : Expression) → c.Rel (eval_assign ctx n ev l e) (eval_assign ctx m ev' l e)
  unfolding eval_assign
  eval_assign-Rel l e = c.bind (r e) (elim [
    | Flow.normal v ↦ c.bind (store-Rel c n m h r l v) (λ _. c.returns _)
    | Flow.break ↦ c.returns _
    | Flow.continue ↦ c.returns _
  ])

  eval_statement-Rel :
      (e : Expression) → c.Rel (eval_statement ctx n ev e) (eval_statement ctx m ev' e)
  unfolding eval_statement
  eval_statement-Rel e = c.bind (r e) (λ flow. c.returns _)

  eval_step-Rel : (e : Expression) → c.Rel (eval_step ctx n ev e) (eval_step ctx m ev' e)
  unfolding eval_step eval_tuple eval_extract eval_cast_of
  eval_step-Rel (Expression.ident d) = normal_flow-Rel c (eval_ident-Rel d)
  eval_step-Rel (Expression.literal l) = normal_flow-Rel c (eval_literal-Rel l)
  eval_step-Rel (Expression.block es) = eval_block-Rel c r es _
  eval_step-Rel (Expression.unary op skip e) = normal_flow-Rel c (eval_operator-Rel op skip e)
  eval_step-Rel (Expression.binary op a b) = normal_flow-Rel c (eval_operands-Rel op a b)
  eval_step-Rel (Expression.index a i l) = normal_flow-Rel c (eval_index-Rel a i l)
  eval_step-Rel (Expression.cast e t) =
      normal_flow-Rel c (c.bind (eval_expr_value-Rel c n m h r e) (λ v. lifts c _))
  eval_step-Rel (Expression.for id t a b inclusive body) = eval_for-Rel c r id t a b inclusive body
  eval_step-Rel (Expression.loop body) = eval_loop-Rel c r n m h body
  eval_step-Rel (Expression.while test body) = eval_while-Rel c r n m h test body
  eval_step-Rel (Expression.if_then test e o) = eval_if-Rel c r test e o
  eval_step-Rel (Expression.tuple es) =
      normal_flow-Rel c (c.bind (eval_values-Rel c ctx n m h r es) (λ vs. make_tuple-Rel c vs))
  eval_step-Rel (Expression.extract_tuple_field e i) =
      normal_flow-Rel c
        (c.bind (eval_expr_value-Rel c n m h r e) (λ v. extract_field-Rel c n m h v i))
  eval_step-Rel (Expression.call f es t l) =
      normal_flow-Rel c (eval_call-Rel c ctx n m h r f es t l)
  eval_step-Rel (Expression.let_in id mutable e) = eval_let-Rel id mutable e
  eval_step-Rel (Expression.constrain e l text) = normal_flow-Rel c (eval_constrain-Rel e l text)
  eval_step-Rel (Expression.assign l e) = eval_assign-Rel l e
  eval_step-Rel (Expression.semi e) = eval_statement-Rel e
  eval_step-Rel (Expression.clone e) = normal_flow-Rel c (eval_expr_value-Rel c n m h r e)
  eval_step-Rel (Expression.drop e) = eval_statement-Rel e
  eval_step-Rel Expression.break = c.returns _
  eval_step-Rel Expression.continue = c.returns _
  eval_step-Rel (Expression.match id cases o) = eval_match-Rel c ctx n m h r id cases o

module _ {F : Type 0} (c : Closed F) (g : GlobalsRel c) (ctx : Context F) where
  pub eval-Rel : (n m : ℕ) → n ≤ m → EvRel c (eval ctx n) (eval ctx m)
  unfolding eval
  eval-Rel zero m h e = c.starved _
  eval-Rel (suc n) zero h e = absurd (omega arith)
  eval-Rel (suc n) (suc m) h e =
      eval_step-Rel c g ctx n m (omega arith) (eval-Rel n m (omega arith)) e
