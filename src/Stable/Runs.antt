-- ===== src/Stable/Runs.antt =====
-- src/eval.rs and src/lib.rs: globals, expressions and calls against the state before them.
use ast_interpreter.Base.{
  ℕ, ◌≡◌, refl, sym, ap, ◌∙◌, List, [], Option, none, some, arith, assoc_get, assoc_insert,
  assoc_get-insert, assoc_get-remove,
}
use ast_interpreter.Error.{internal}
use ast_interpreter.Value.Data.{Value}
use ast_interpreter.Ast.{Expression}
use ast_interpreter.Host.{Context}
use ast_interpreter.Machine.{
  Machine, Outcome, returned, failed, panicked, out_of_fuel, M, GlobalState, computed, in_progress,
  clean_up, and_then, ok_or_fail, set_globals, get_global, on_failure,
}
use ast_interpreter.Eval.Places.{Evaluator, eval_expr_value}
use ast_interpreter.Eval.Cells.{deep_copy}
use ast_interpreter.Eval.Calls.{
  eval_global, global_value, first_reference, compute_global, forget_global, call_function,
}
use ast_interpreter.Eval.Step.{eval}
use ast_interpreter.Copy.{Copied, Fresh, Extended, deep_copy_lem}
use ast_interpreter.Related.Closed.{GlobalsRel}
use ast_interpreter.Related.Places.{EvRel, eval_expr_value-Rel}
use ast_interpreter.Related.Calls.{call_function-Rel}
use ast_interpreter.Related.Step.{eval-Rel}
use ast_interpreter.Stable.{Stable, After, Stable-refl, Stable-trans, stability}

module _ {F : Type 0} where
  -- A global that was not in the table, entered with its value at the end.
  Stable-cached :
      (id : ℕ) (s u : Machine F) (v : Value F)
      → assoc_get id s.globals ≡ none
      → Stable (record s { globals = assoc_insert id in_progress s.globals }) u
      → Stable s (record u { globals = assoc_insert id (computed v) u.globals })
  Stable-cached id s u v fresh p = record {
    cells = p.cells;
    depth = p.depth;
    mark = p.mark;
    kept = λ j g e. ground (
      arith,
      p.kept j g,
      fresh,
      e,
      assoc_get-insert id j in_progress s.globals,
      assoc_get-insert id j (computed v) u.globals,
    );
    settled = λ j e. ground (
      arith,
      p.settled j,
      fresh,
      e,
      assoc_get-insert id j in_progress s.globals,
      assoc_get-insert id j (computed v) u.globals,
    );
  }

  Stable-forgotten :
      (id : ℕ) (s u : Machine F)
      → assoc_get id s.globals ≡ none
      → Stable (record s { globals = assoc_insert id in_progress s.globals }) u
      → Stable s (forget_global id u)
  Stable-forgotten id s u fresh p = record {
    cells = p.cells;
    depth = p.depth;
    mark = p.mark;
    kept = λ j g e. ground (
      arith,
      p.kept j g,
      fresh,
      e,
      assoc_get-insert id j in_progress s.globals,
      assoc_get-remove id j u.globals,
    );
    settled = λ j e. ground (
      arith,
      p.settled j,
      fresh,
      e,
      assoc_get-insert id j in_progress s.globals,
      assoc_get-remove id j u.globals,
    );
  }

  Stable-Extended : {b : ℕ} {s t : Machine F} → Extended b s t → Stable s t
  Stable-Extended {b} {s} {t} p = record {
    cells = p.grown;
    depth = p.depth;
    mark = p.mark;
    kept = λ id g e. ap (assoc_get id) p.globals ∙ e;
    settled = λ id e. sym (ap (assoc_get id) p.globals) ∙ e;
  }

  After-Copied :
      {A : Type 0} (b : ℕ) (P : A → Type 0) (s : Machine F) (o : Outcome F A)
      → Copied b P s o
      → After s o
  After-Copied b P s (returned a t) (p, q) = Stable-Extended q
  After-Copied b P s (failed e t) p = elim p [ ]
  After-Copied b P s panicked p = tt
  After-Copied b P s out_of_fuel p = tt

  After-deep_copy : (n : ℕ) (v : Value F) (s : Machine F) → After s (deep_copy n v s)
  After-deep_copy n v s =
      After-Copied 0 (Fresh 0) s (deep_copy n v s) (deep_copy_lem n 0 v s (omega arith))

  -- The copy for the table, after the body has been evaluated.
  After-cached :
      (id : ℕ) (s u : Machine F) (v : Value F)
      → assoc_get id s.globals ≡ none
      → Stable (record s { globals = assoc_insert id in_progress s.globals }) u
      → (o : Outcome F (Value F)) → Copied 0 (Fresh 0) u o
      → After s (
          and_then o (λ copy t.
            returned v (record t { globals = assoc_insert id (computed copy) t.globals })))
  After-cached id s u v fresh p (returned copy t) (_, q) =
      Stable-cached id s t copy fresh (Stable-trans p (Stable-Extended q))
  After-cached id s u v fresh p (failed e t) q = elim q [ ]
  After-cached id s u v fresh p panicked q = tt
  After-cached id s u v fresh p out_of_fuel q = tt

  After-body :
      (n id : ℕ) (s : Machine F)
      → assoc_get id s.globals ≡ none
      → (o : Outcome F (Value F))
      → After (record s { globals = assoc_insert id in_progress s.globals }) o
      → After s (
          and_then (clean_up (forget_global id) o) (λ v u. and_then (deep_copy n v u) (λ copy t.
            returned v (record t { globals = assoc_insert id (computed copy) t.globals }))))
  After-body n id s fresh (returned v u) p =
      After-cached id s u v fresh p (deep_copy n v u) (deep_copy_lem n 0 v u (omega arith))
  After-body n id s fresh (failed e u) p = Stable-forgotten id s u fresh p
  After-body n id s fresh panicked p = tt
  After-body n id s fresh out_of_fuel p = tt

  module _ (ctx : Context F) (n : ℕ) (ev : Evaluator F) (r : EvRel stability ev ev) where
    After-compute :
        (id : ℕ) (e : Expression) (s : Machine F)
        → assoc_get id s.globals ≡ none
        → After s (compute_global ctx n ev id e s)
    unfolding compute_global on_failure set_globals stability
    After-compute id e s fresh = After-body n id s fresh _ (
        stability.frames {m' = eval_expr_value ev e} []
          (eval_expr_value-Rel stability n n (omega arith) {ev' = ev} r e) _)

    After-first :
        (id : ℕ) (s : Machine F)
        → assoc_get id s.globals ≡ none
        → (o : Option Expression)
        → After s
            (and_then (ok_or_fail o (internal "unknown global ") s) (compute_global ctx n ev id))
    After-first id s fresh none = Stable-refl s
    After-first id s fresh (some e) = After-compute id e s fresh

    After-global :
        (id : ℕ) (s : Machine F) (o : Option (GlobalState F))
        → assoc_get id s.globals ≡ o
        → After s (global_value ctx n ev id o s)
    unfolding global_value first_reference
    After-global id s (some in_progress) e = Stable-refl s
    After-global id s (some (computed v)) e = After-deep_copy n v s
    After-global id s none e = After-first id s e (assoc_get id ctx.program.globals)

  pub keeps_globals : GlobalsRel {F = F} stability
  unfolding eval_global get_global stability
  keeps_globals ctx n m ev ev' id h r s = After-global ctx n ev r id s (assoc_get id s.globals) refl

pub After-related :
    {F A : Type 0} (m m' : M F A) → stability.Rel m m' → (s : Machine F) → After s (m s)
unfolding stability
After-related m m' h s = h s

-- Running an expression never takes a cell away, gives the depth of calls and the mark of the current
-- function back as they were, keeps every entry of the table of globals, and leaves no new mark
-- `InProgress` in it, whether it returns or fails.
pub eval-Stable :
    {F : Type 0} (ctx : Context F) (n : ℕ) (e : Expression) (s : Machine F)
    → After s (eval ctx n e s)
unfolding stability
eval-Stable ctx n e s = eval-Rel stability keeps_globals ctx n n (omega arith) e s

-- A call of a function by its id, over the evaluator of the same fuel, never takes a cell away, gives
-- the depth of calls and the caller's mark back as they were, keeps every entry of the table of
-- globals, and leaves no new mark `InProgress` in it, whether it returns or fails.
pub call_function-Stable :
    {F : Type 0} (ctx : Context F) (n : ℕ) (id : ℕ) (args : List (Value F)) (s : Machine F)
    → After s (call_function ctx n (eval ctx n) id args s)
unfolding stability
call_function-Stable ctx n id args s =
    call_function-Rel stability ctx n n (omega arith) {ev' = eval ctx n}
      (λ e. eval-Rel stability keeps_globals ctx n n (omega arith) e) id args s
