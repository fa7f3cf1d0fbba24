-- ===== src/Laws/Globals.antt =====
-- src/eval.rs: the table of globals after a reference to one of them.
use ast_interpreter.Base.{
  ℕ, ◌≡◌, refl, ◌∙◌, Option, none, some, arith, assoc_get, assoc_insert, assoc_get-insert,
  assoc_get-remove, ap,
}
use ast_interpreter.Error.{internal}
use ast_interpreter.Value.Data.{Value}
use ast_interpreter.Ast.{Expression}
use ast_interpreter.Host.{Context}
use ast_interpreter.Machine.{
  Machine, Outcome, returned, failed, panicked, out_of_fuel, GlobalState, in_progress, computed,
  and_then, clean_up, ok_or_fail, get_global, set_globals, on_failure,
}
use ast_interpreter.Eval.Places.{Evaluator}
use ast_interpreter.Eval.Cells.{deep_copy}
use ast_interpreter.Eval.Calls.{
  eval_global, global_value, first_reference, compute_global, forget_global,
}
use ast_interpreter.Copy.{Copied, Fresh, deep_copy_lem}

-- What the table holds for the global after its evaluation.
abbrev pub Entered : {F A : Type 0} → ℕ → Option (GlobalState F) → Outcome F A → Type 0
Entered id before (returned a t) = (v : Value _) × (assoc_get id t.globals ≡ some (computed v))
Entered id before (failed e t) = assoc_get id t.globals ≡ before
Entered id before panicked = Unit
Entered id before out_of_fuel = Unit

module _ {F : Type 0} where
  Entered-copy :
      (id : ℕ) (s u : Machine F) (v : Value F) (o : Outcome F (Value F))
      → Copied 0 (Fresh 0) u o
      → Entered id none (
          and_then o (λ copy t.
            returned v (record t { globals = assoc_insert id (computed copy) t.globals })))
  Entered-copy id s u v (returned copy t) c =
      (copy, assoc_get-insert id id (computed copy) t.globals ∙ ground arith)
  Entered-copy id s u v (failed e t) c = elim c [ ]
  Entered-copy id s u v panicked c = tt
  Entered-copy id s u v out_of_fuel c = tt

  Entered-body :
      (n id : ℕ) (s : Machine F) (o : Outcome F (Value F))
      → Entered id none (
          and_then (clean_up (forget_global id) o) (λ v u. and_then (deep_copy n v u) (λ copy t.
            returned v (record t { globals = assoc_insert id (computed copy) t.globals }))))
  Entered-body n id s (returned v u) =
      Entered-copy id s u v (deep_copy n v u) (deep_copy_lem n 0 v u (omega arith))
  Entered-body n id s (failed e u) = assoc_get-remove id id u.globals ∙ ground arith
  Entered-body n id s panicked = tt
  Entered-body n id s out_of_fuel = tt

  Entered-deep_copy :
      (id : ℕ) (s : Machine F) (v : Value F)
      → assoc_get id s.globals ≡ some (computed v)
      → (b : Option (GlobalState F)) (o : Outcome F (Value F)) → Copied 0 (Fresh 0) s o
      → Entered id b o
  Entered-deep_copy id s v e b (returned w t) (_, x) = (v, ap (assoc_get id) x.globals ∙ e)
  Entered-deep_copy id s v e b (failed x t) c = elim c [ ]
  Entered-deep_copy id s v e b panicked c = tt
  Entered-deep_copy id s v e b out_of_fuel c = tt

  module _ (ctx : Context F) (n : ℕ) (ev : Evaluator F) where
    Entered-compute :
        (id : ℕ) (e : Expression) (s : Machine F) → Entered id none (compute_global ctx n ev id e s)
    unfolding compute_global on_failure set_globals
    Entered-compute id e s = Entered-body n id s _

    Entered-first :
        (id : ℕ) (s : Machine F) (o : Option Expression)
        → assoc_get id s.globals ≡ none
        → Entered id none
            (and_then (ok_or_fail o (internal "unknown global ") s) (compute_global ctx n ev id))
    Entered-first id s none e = e
    Entered-first id s (some x) e = Entered-compute id x s

    Entered-global :
        (id : ℕ) (s : Machine F) (o : Option (GlobalState F))
        → assoc_get id s.globals ≡ o
        → Entered id o (global_value ctx n ev id o s)
    unfolding global_value first_reference
    Entered-global id s (some in_progress) e = e
    Entered-global id s (some (computed v)) e =
        Entered-deep_copy id s v e _ (deep_copy n v s) (deep_copy_lem n 0 v s (omega arith))
    Entered-global id s none e = Entered-first id s (assoc_get id ctx.program.globals) e

-- When a reference to a global returns, whatever the evaluator of expressions does, the table holds a
-- computed value for the global; when it fails, the table holds what it held before, so that no mark
-- `InProgress` of the reference stays behind.
pub eval_global-Entered :
    {F : Type 0} (ctx : Context F) (n : ℕ) (ev : Evaluator F) (id : ℕ) (s : Machine F)
    → Entered id (assoc_get id s.globals) (eval_global ctx n ev id s)
unfolding eval_global get_global
eval_global-Entered ctx n ev id s = Entered-global ctx n ev id s (assoc_get id s.globals) refl
