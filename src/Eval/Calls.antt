-- ===== src/Eval/Calls.antt =====
-- src/lib.rs and src/eval.rs: calls of functions, and globals that are computed on first reference.
use text.Mathlib.Text.{◌==◌ as str_eq}
use ast_interpreter.Base.{
  ℕ, Bool, true, false, List, [], ◌∷◌, Option, none, some, length, get_elem?, assoc_get,
  assoc_insert, assoc_remove, leb, ◌==◌, if◌then◌else◌, String,
}
use ast_interpreter.Error.{Location, type_error, unsupported, internal}
use ast_interpreter.Value.Data.{Value}
use ast_interpreter.Ast.{
  Expression, Expressions, nil, cons, Definition, Function, Parameter, Program, MonoType,
}
use ast_interpreter.Host.{Context}
use ast_interpreter.Machine.{
  Machine, Frame, Flow, M, GlobalState, in_progress, computed, pure, fail, ok_or_fail, alloc,
  get_global, set_globals, get_call_depth, with_frame, with_call, on_failure, ◌>>=◌, ◌>>◌,
}
use ast_interpreter.Eval.Cells.{deep_copy}
use ast_interpreter.Eval.Places.{Evaluator, eval_expr_value}
use ast_interpreter.Intrinsics.Dispatch.{call_intrinsic}

pub data Callee : Type 0 where
  user : ℕ → Callee
  intrinsic : String → Callee

abbrev pub max_call_depth : ℕ
max_call_depth = 256

-- The function that stands at its own id.
unfoldable pub function_of : Program → ℕ → Option Function
function_of program id = elim (get_elem? program.functions id) [
  | none ↦ none
  | some f ↦ if f.id == id then some f else none
]

abbrev pub forget_global : {F : Type 0} → ℕ → Machine F → Machine F
forget_global id s = record s { globals = assoc_remove id s.globals }

module _ {F : Type 0} where
  -- A `mut` parameter and a `let mut` are slots: cells of their own that a bare read loads.
  unfoldable pub bind_slot : Bool → Value F → M F (Value F)
  bind_slot true v = do c ← alloc v; pure (Value.ref c true)
  bind_slot false v = pure v

  unfoldable pub bind_parameters : List Parameter → List (Value F) → Frame F → M F (Frame F)
  unfolding bind_slot
  bind_parameters (p ∷ ps) (arg ∷ args) frame = do
    bound ← bind_slot p.mutable arg
    bind_parameters ps args (assoc_insert p.id bound frame)
  bind_parameters _ _ frame = pure frame

  unfoldable pub body_result : Flow F → M F (Value F)
  body_result (Flow.normal v) = pure v
  body_result _ = fail (internal "break/continue escaped a function body")

  unfoldable pub function_callee : Value F → M F Callee
  function_callee (Value.function id) = pure (Callee.user id)
  function_callee _ = fail (type_error "call of non-function ")

module _ {F : Type 0} (ctx : Context F) (n : ℕ) (ev : Evaluator F) where
  unfoldable pub run_function : Function → List (Value F) → M F (Value F)
  unfolding bind_parameters body_result
  run_function func args = do
    frame ← bind_parameters func.parameters args []
    flow ← with_frame frame (with_call func.unconstrained (ev func.body))
    body_result flow

  unfoldable pub call_known : Function → List (Value F) → M F (Value F)
  unfolding run_function
  call_known func args =
      if length func.parameters == length args
      then run_function func args
      else fail (internal "function expects arguments, got ")

  unfoldable pub call_function : ℕ → List (Value F) → M F (Value F)
  unfolding call_known
  call_function id args = do
    depth ← get_call_depth
    if leb max_call_depth depth then fail (unsupported "call depth exceeds ") else (do
      func ← ok_or_fail (function_of ctx.program id) (internal "unknown function id ")
      call_known func args)

  -- The first reference: the mark guards against a cycle, and an error takes it off again.
  unfoldable pub compute_global : ℕ → Expression → M F (Value F)
  compute_global id expr = do
    set_globals (assoc_insert id in_progress)
    v ← on_failure (forget_global id) (with_frame [] (eval_expr_value ev expr))
    copy ← deep_copy n v
    set_globals (assoc_insert id (computed copy))
    pure v

  unfoldable pub first_reference : ℕ → M F (Value F)
  unfolding compute_global
  first_reference id = do
    expr ← ok_or_fail (assoc_get id ctx.program.globals) (internal "unknown global ")
    compute_global id expr

  unfoldable pub global_value : ℕ → Option (GlobalState F) → M F (Value F)
  unfolding first_reference
  global_value id (some (computed v)) = deep_copy n v
  global_value id (some in_progress) = fail (internal "global is defined in terms of itself")
  global_value id none = first_reference id

  unfoldable pub eval_global : ℕ → M F (Value F)
  unfolding global_value
  eval_global id = do state ← get_global id; global_value id state

  unfoldable pub callee_of_value : Expression → M F Callee
  unfolding function_callee
  callee_of_value func = do v ← eval_expr_value ev func; function_callee v

  unfoldable pub callee_of_definition : Definition → M F Callee
  unfolding callee_of_value
  callee_of_definition (Definition.function id) = pure (Callee.user id)
  callee_of_definition (Definition.builtin name) = pure (Callee.intrinsic name)
  callee_of_definition (Definition.low_level name) = pure (Callee.intrinsic name)
  callee_of_definition (Definition.oracle name) =
      if str_eq name "print"
      then pure (Callee.intrinsic "print")
      else fail (unsupported "oracle call ")
  callee_of_definition d = callee_of_value (Expression.ident d)

  unfoldable pub resolve_callee : Expression → M F Callee
  unfolding callee_of_definition
  resolve_callee (Expression.ident d) = callee_of_definition d
  resolve_callee func = callee_of_value func

  unfoldable pub eval_values : Expressions → M F (List (Value F))
  eval_values nil = pure []
  eval_values (cons e es) = do v ← eval_expr_value ev e; vs ← eval_values es; pure (v ∷ vs)

  unfoldable pub dispatch : Callee → List (Value F) → MonoType → Location → M F (Value F)
  dispatch (Callee.user id) args return_type location = call_function id args
  dispatch (Callee.intrinsic name) args return_type location =
      call_intrinsic ctx n name args return_type location

  unfoldable pub eval_call : Expression → Expressions → MonoType → Location → M F (Value F)
  unfolding resolve_callee eval_values dispatch
  eval_call func arguments return_type location = do
    callee ← resolve_callee func
    args ← eval_values arguments
    dispatch callee args return_type location
