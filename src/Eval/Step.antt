-- ===== src/Eval/Step.antt =====
-- src/eval.rs: `eval` and the arms that are left, over the evaluator `ev` of subexpressions; the
-- evaluator itself recurs on fuel, one unit for each level of the expression and of the calls.
use ast_interpreter.Base.{
  ℕ, zero, suc, Bool, true, false, List, [], ◌∷◌, Option, none, some, if◌then◌else◌,
}
use ast_interpreter.Base.Int.{ℤ}
use ast_interpreter.Error.{Text, Location, assertion_failed, type_error, unsupported, internal}
use ast_interpreter.Value.Ints.{canonical}
use ast_interpreter.Value.Data.{Value, Values, Fragment, as_bool, to_list, of_list, array_of}
use ast_interpreter.Ast.{
  Expression, Expressions, Literal, Message, silent, message, Definition, UnaryOp, BinaryOpKind,
  LValue, MonoType, PrintableType,
}
use ast_interpreter.Host.{Context}
use ast_interpreter.Machine.{
  Flow, M, pure, fail, no_fuel, lift, alloc, attempt, env_insert, ◌>>=◌, ◌>>◌,
}
use ast_interpreter.Eval.Operators.{eval_unary, eval_binary, eval_cast, bigint_to_field}
use ast_interpreter.Eval.Cells.{
  deep_copy, read_copies, make_tuple, tuple_field, deref, project_reference,
}
use ast_interpreter.Eval.Format.{format_fmt_str, format_value, printable_capture_types}
use ast_interpreter.Eval.Places.{
  Evaluator, eval_expr_value, eval_local, eval_place, eval_index_value, index_value,
}
use ast_interpreter.Eval.Assign.{store}
use ast_interpreter.Eval.Calls.{eval_global, eval_call, eval_values, bind_slot}
use ast_interpreter.Eval.Control.{
  normal_unit, drop_value, eval_block, eval_loop, eval_while, eval_for, eval_if, eval_match,
}

module _ {F : Type 0} where
  unfoldable pub reference_to : Value F → M F (Value F)
  reference_to (Value.ref c true) = pure (Value.ref c false)
  reference_to other = do a ← alloc other; pure (Value.ref a false)

  unfoldable pub extract_field : ℕ → Value F → ℕ → M F (Value F)
  extract_field n (Value.ref c _) i = project_reference n c i
  extract_field n other i = tuple_field n other i

  unfoldable pub captured_cells : ℕ → Value F → M F (List (Value F))
  captured_cells n (Value.tuple cells) = read_copies n cells
  captured_cells n _ = fail (internal "fmt captures were not a tuple: ")

  unfoldable pub repeat_copies : ℕ → ℕ → Value F → M F (List (Value F))
  repeat_copies n zero v = pure []
  repeat_copies n (suc length) v = do
    w ← deep_copy n v
    ws ← repeat_copies n length v
    pure (w ∷ ws)

  unfoldable pub normal_flow : M F (Value F) → M F (Flow F)
  normal_flow m = do v ← m; pure (Flow.normal v)

module _ {F : Type 0} (ctx : Context F) (n : ℕ) (ev : Evaluator F) where
  unfoldable pub eval_integer : ℤ → MonoType → M F (Value F)
  eval_integer value MonoType.field = do
    f ← lift (bigint_to_field ctx.host value ctx.field)
    pure (Value.field f)
  eval_integer value (MonoType.integer signed bits) = do
    i ← lift (canonical signed bits value)
    pure (Value.int i)
  eval_integer value _ = fail (type_error "integer literal with non-numeric type ")

  unfoldable pub eval_elements : Expressions → M F (Value F)
  eval_elements es = do vs ← eval_values ctx n ev es; pure (array_of vs)

  unfoldable pub eval_fmt_captures : Expression → M F (List (Value F))
  eval_fmt_captures captures = do v ← eval_expr_value ev captures; captured_cells n v

  unfoldable pub eval_repeated : Expression → ℕ → M F (Value F)
  eval_repeated element length = do
    v ← eval_expr_value ev element
    vs ← repeat_copies n length v
    pure (array_of vs)

  unfoldable pub eval_literal : Literal → M F (Value F)
  unfolding eval_integer eval_elements eval_fmt_captures eval_repeated
  eval_literal (Literal.integer value type) = eval_integer value type
  eval_literal (Literal.bool b) = pure (Value.bool b)
  eval_literal Literal.unit = pure Value.unit
  eval_literal (Literal.str bytes) = pure (Value.str bytes)
  eval_literal (Literal.array es) = eval_elements es
  eval_literal (Literal.vector es) = eval_elements es
  eval_literal (Literal.repeated element length) = eval_repeated element length
  eval_literal (Literal.fmt_str fragments captures) = do
    vs ← eval_fmt_captures captures
    pure (Value.fmt_str fragments (of_list vs))

  unfoldable pub eval_ident : Definition → M F (Value F)
  eval_ident (Definition.local id) = eval_local n id
  eval_ident (Definition.global id) = eval_global ctx n ev id
  eval_ident (Definition.function id) = pure (Value.function id)
  eval_ident _ = fail (unsupported "reference to intrinsic ")

  unfoldable pub eval_operator : UnaryOp → Bool → Expression → M F (Value F)
  eval_operator UnaryOp.reference true rhs = eval_expr_value ev rhs
  eval_operator UnaryOp.reference false rhs = do place ← eval_place n ev rhs; reference_to place
  eval_operator UnaryOp.dereference skip rhs = do v ← eval_expr_value ev rhs; deref n v
  eval_operator op skip rhs = do v ← eval_expr_value ev rhs; lift (eval_unary ctx.host op v)

  unfoldable pub eval_operands : BinaryOpKind → (lhs rhs : Expression) → M F (Value F)
  eval_operands op lhs rhs = do
    a ← eval_expr_value ev lhs
    b ← eval_expr_value ev rhs
    lift (eval_binary ctx.host op a b)

  -- The index is evaluated before the collection is read.
  unfoldable pub eval_index : (collection index : Expression) → Location → M F (Value F)
  eval_index collection position location = do
    i ← eval_index_value n ev position
    v ← eval_expr_value ev collection
    index_value location v i

  unfoldable pub render_fragments :
      List Fragment → Values F → Option (List PrintableType) → M F (Option Text)
  render_fragments fragments captures none = pure none
  render_fragments fragments captures (some types) =
      attempt (format_fmt_str (format_value ctx.host n) fragments (to_list captures) types)

  unfoldable pub render_text : PrintableType → Value F → M F (Option Text)
  unfolding render_fragments
  render_text type (Value.str bytes) = pure (some (ctx.host.from_utf8_lossy bytes))
  render_text (PrintableType.fmt_string type) (Value.fmt_str fragments captures) =
      render_fragments fragments captures (printable_capture_types type)
  render_text _ _ = pure none

  -- An error while the message is computed leaves the assertion without one.
  unfoldable pub render_assert_message : Message → M F (Option Text)
  unfolding render_text
  render_assert_message silent = pure none
  render_assert_message (message e type) = do
    v ← attempt (eval_expr_value ev e)
    elim v [ none ↦ pure none | some value ↦ render_text type value ]

  unfoldable pub eval_constrain : Expression → Location → Message → M F (Value F)
  unfolding render_assert_message
  eval_constrain condition location text = do
    v ← eval_expr_value ev condition
    holds ← lift (as_bool v)
    if holds
        then pure Value.unit
        else (do rendered ← render_assert_message text; fail (assertion_failed location rendered))

  unfoldable pub eval_let : ℕ → Bool → Expression → M F (Flow F)
  eval_let id mutable e = do
    flow ← ev e
    elim flow [
      | Flow.normal v ↦ do bound ← bind_slot mutable v; env_insert id bound; pure normal_unit
      | other ↦ pure other
    ]

  unfoldable pub eval_assign : LValue → Expression → M F (Flow F)
  eval_assign place e = do
    flow ← ev e
    elim flow [ Flow.normal v ↦ do store n ev place v; pure normal_unit | other ↦ pure other ]

  unfoldable pub eval_statement : Expression → M F (Flow F)
  eval_statement e = do flow ← ev e; pure (drop_value flow)

  unfoldable pub eval_tuple : Expressions → M F (Value F)
  eval_tuple es = do vs ← eval_values ctx n ev es; make_tuple vs

  unfoldable pub eval_extract : Expression → ℕ → M F (Value F)
  eval_extract e i = do v ← eval_expr_value ev e; extract_field n v i

  unfoldable pub eval_cast_of : Expression → MonoType → M F (Value F)
  eval_cast_of e type = do v ← eval_expr_value ev e; lift (eval_cast ctx.host v type ctx.field)

  unfoldable pub eval_step : Expression → M F (Flow F)
  eval_step (Expression.ident d) = normal_flow (eval_ident d)
  eval_step (Expression.literal l) = normal_flow (eval_literal l)
  eval_step (Expression.block es) = eval_block ev es Value.unit
  eval_step (Expression.unary op skip rhs) = normal_flow (eval_operator op skip rhs)
  eval_step (Expression.binary op lhs rhs) = normal_flow (eval_operands op lhs rhs)
  eval_step (Expression.index collection i location) =
      normal_flow (eval_index collection i location)
  eval_step (Expression.cast e type) = normal_flow (eval_cast_of e type)
  eval_step (Expression.for variable type from to inclusive body) =
      eval_for ev variable type from to inclusive body
  eval_step (Expression.loop body) = eval_loop ev n body
  eval_step (Expression.while condition body) = eval_while ev n condition body
  eval_step (Expression.if_then condition consequence alternative) =
      eval_if ev condition consequence alternative
  eval_step (Expression.tuple es) = normal_flow (eval_tuple es)
  eval_step (Expression.extract_tuple_field e i) = normal_flow (eval_extract e i)
  eval_step (Expression.call func arguments return_type location) =
      normal_flow (eval_call ctx n ev func arguments return_type location)
  eval_step (Expression.let_in id mutable e) = eval_let id mutable e
  eval_step (Expression.constrain condition location text) =
      normal_flow (eval_constrain condition location text)
  eval_step (Expression.assign place e) = eval_assign place e
  eval_step (Expression.semi e) = eval_statement e
  eval_step (Expression.clone e) = normal_flow (eval_expr_value ev e)
  eval_step (Expression.drop e) = eval_statement e
  eval_step Expression.break = pure Flow.break
  eval_step Expression.continue = pure Flow.continue
  eval_step (Expression.match variable cases default_case) =
      eval_match ctx n ev variable cases default_case

unfoldable pub eval : {F : Type 0} → Context F → ℕ → Evaluator F
unfolding eval_step
eval ctx zero e = no_fuel
eval ctx (suc n) e = eval_step ctx n (eval ctx n) e
