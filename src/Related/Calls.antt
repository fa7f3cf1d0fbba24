-- ===== src/Related/Calls.antt =====
-- Calls.
use text.Mathlib.Text.{◌==◌ as str_eq}
use ast_interpreter.Base.{ℕ, ◌≤◌, Bool, true, false, List, [], ◌∷◌, length, leb, ◌==◌}
use ast_interpreter.Error.{Location}
use ast_interpreter.Value.Data.{Value}
use ast_interpreter.Ast.{
  Expression, Expressions, nil, cons, Definition, Function, Parameter, MonoType,
}
use ast_interpreter.Host.{Context}
use ast_interpreter.Machine.{Flow, Frame}
use ast_interpreter.Eval.Places.{Evaluator}
use ast_interpreter.Eval.Calls.{
  Callee, max_call_depth, function_of, bind_slot, bind_parameters, body_result, run_function,
  call_known, call_function, function_callee, callee_of_value, callee_of_definition, resolve_callee,
  eval_values, dispatch, eval_call,
}
use ast_interpreter.Related.Closed.{Closed, options, branches}
use ast_interpreter.Related.Places.{EvRel, eval_expr_value-Rel}
use ast_interpreter.Related.Intrinsics.{call_intrinsic-Rel}

module _ {F : Type 0} (c : Closed F) where
  pub bind_slot-Rel : (b : Bool) (v : Value F) → c.Rel (bind_slot b v) (bind_slot b v)
  unfolding bind_slot
  bind_slot-Rel true v = c.bind (c.allocs v) (λ a. c.returns _)
  bind_slot-Rel false v = c.returns v

  bind_parameters-Rel :
      (ps : List Parameter) (args : List (Value F)) (frame : Frame F)
      → c.Rel (bind_parameters ps args frame) (bind_parameters ps args frame)
  unfolding bind_parameters
  bind_parameters-Rel [] args frame = c.returns frame
  bind_parameters-Rel (p ∷ ps) [] frame = c.returns frame
  bind_parameters-Rel (p ∷ ps) (arg ∷ args) frame =
      c.bind (bind_slot-Rel p.mutable arg) (λ bound. bind_parameters-Rel ps args _)

  body_result-Rel : (flow : Flow F) → c.Rel (body_result flow) (body_result flow)
  unfolding body_result
  body_result-Rel (Flow.normal v) = c.returns v
  body_result-Rel _ = c.fails _

  function_callee-Rel : (v : Value F) → c.Rel (function_callee v) (function_callee v)
  unfolding function_callee
  function_callee-Rel (Value.function id) = c.returns _
  function_callee-Rel _ = c.fails _

module _ {F : Type 0} (c : Closed F) (ctx : Context F) (n m : ℕ) (h : n ≤ m) {ev ev' : Evaluator F}
    (r : EvRel c ev ev') where
  run_function-Rel :
      (func : Function) (args : List (Value F))
      → c.Rel (run_function ctx n ev func args) (run_function ctx m ev' func args)
  unfolding run_function
  run_function-Rel func args = c.bind (bind_parameters-Rel c func.parameters args []) (λ frame.
      c.bind (c.frames frame (c.calls func.unconstrained (r func.body)))
        (λ flow. body_result-Rel c flow))

  pub call_function-Rel :
      (id : ℕ) (args : List (Value F))
      → c.Rel (call_function ctx n ev id args) (call_function ctx m ev' id args)
  unfolding call_function call_known
  call_function-Rel id args = c.bind c.depths (λ depth.
      branches c (leb max_call_depth depth) (c.fails _) (
        c.bind (options c (function_of ctx.program id) _) (λ func.
          branches c (length func.parameters == length args) (run_function-Rel func args)
            (c.fails _))))

  callee_of_value-Rel :
      (e : Expression) → c.Rel (callee_of_value ctx n ev e) (callee_of_value ctx m ev' e)
  unfolding callee_of_value
  callee_of_value-Rel e = c.bind (eval_expr_value-Rel c n m h r e) (λ v. function_callee-Rel c v)

  callee_of_definition-Rel :
      (d : Definition) → c.Rel (callee_of_definition ctx n ev d) (callee_of_definition ctx m ev' d)
  unfolding callee_of_definition
  callee_of_definition-Rel (Definition.function id) = c.returns _
  callee_of_definition-Rel (Definition.builtin name) = c.returns _
  callee_of_definition-Rel (Definition.low_level name) = c.returns _
  callee_of_definition-Rel (Definition.oracle name) =
      branches c (str_eq name "print") (c.returns _) (c.fails _)
  callee_of_definition-Rel _ = callee_of_value-Rel _

  resolve_callee-Rel :
      (e : Expression) → c.Rel (resolve_callee ctx n ev e) (resolve_callee ctx m ev' e)
  unfolding resolve_callee
  resolve_callee-Rel (Expression.ident d) = callee_of_definition-Rel d
  resolve_callee-Rel _ = callee_of_value-Rel _

  pub eval_values-Rel :
      (es : Expressions) → c.Rel (eval_values ctx n ev es) (eval_values ctx m ev' es)
  unfolding eval_values
  eval_values-Rel nil = c.returns _
  eval_values-Rel (cons e es) =
      c.bind (eval_expr_value-Rel c n m h r e)
        (λ v. c.bind (eval_values-Rel es) (λ vs. c.returns _))

  dispatch-Rel :
      (callee : Callee) (args : List (Value F)) (type : MonoType) (l : Location)
      → c.Rel (dispatch ctx n ev callee args type l) (dispatch ctx m ev' callee args type l)
  unfolding dispatch
  dispatch-Rel (Callee.user id) args type l = call_function-Rel id args
  dispatch-Rel (Callee.intrinsic name) args type l = call_intrinsic-Rel c ctx n m h name args type l

  pub eval_call-Rel :
      (func : Expression) (es : Expressions) (type : MonoType) (l : Location)
      → c.Rel (eval_call ctx n ev func es type l) (eval_call ctx m ev' func es type l)
  unfolding eval_call
  eval_call-Rel func es type l =
      c.bind (resolve_callee-Rel func)
        (λ callee. c.bind (eval_values-Rel es) (λ args. dispatch-Rel callee args type l))
