-- ===== src/Stable.antt =====
-- src/eval.rs and src/lib.rs: the state after a run against the state before it, as an instance of
-- `Related`: the heap, the depth of calls, the mark of the current function and the globals.
pub mod Runs
use ast_interpreter.Base.{
  ℕ, ◌+◌, ◌-◌, ◌≤◌, ◌≡◌, refl, sym, ap, ◌∙◌, Bool, List, [], ◌∷◌, Option, none, some, arith, length,
  length-append, length-set, get_elem?, assoc_get, assoc_insert, assoc_get-insert, assoc_get-remove,
}
use ast_interpreter.Error.{InterpretError, internal}
use ast_interpreter.Value.Data.{Value, Address}
use ast_interpreter.Ast.{Expression}
use ast_interpreter.Host.{Context}
use ast_interpreter.Machine.{
  Machine, Outcome, returned, failed, panicked, out_of_fuel, Frame, M, GlobalState, computed,
  in_progress, attempted, clean_up, and_then, map_state, ok_or_fail, set_globals, get_global,
  with_frame, with_call, attempt, on_failure, alloc, read, write, env_get, env_insert,
  get_unconstrained, get_call_depth,
}
use ast_interpreter.Eval.Places.{Evaluator, eval_expr_value}
use ast_interpreter.Eval.Cells.{deep_copy}
use ast_interpreter.Eval.Calls.{
  eval_global, global_value, first_reference, compute_global, forget_global, call_function,
}
use ast_interpreter.Eval.Step.{eval}
use ast_interpreter.Copy.{Copied, Fresh, Extended, deep_copy_lem}
use ast_interpreter.Related.Closed.{Closed, GlobalsRel}
use ast_interpreter.Related.Places.{EvRel, eval_expr_value-Rel}
use ast_interpreter.Related.Calls.{call_function-Rel}
use ast_interpreter.Related.Step.{eval-Rel}

-- `kept`: an entry of the table stays. `settled`: a mark `InProgress` at the end was there before.
pub record Stable {F : Type 0} (s t : Machine F) : Type 0 where
  pub cells : length s.heap ≤ length t.heap
  pub depth : t.call_depth ≡ s.call_depth
  pub mark : t.unconstrained ≡ s.unconstrained
  pub kept :
      (id : ℕ) (g : GlobalState F)
      → assoc_get id s.globals ≡ some g
      → assoc_get id t.globals ≡ some g
  pub settled :
      (id : ℕ)
      → assoc_get id t.globals ≡ some in_progress
      → assoc_get id s.globals ≡ some in_progress

module _ {F : Type 0} where
  -- The state at the end, if there is one, is related to the state at the start.
  abbrev pub After : {A : Type 0} → Machine F → Outcome F A → Type 0
  After s (returned a t) = Stable s t
  After s (failed e t) = Stable s t
  After s panicked = Unit
  After s out_of_fuel = Unit

  pub Stable-refl : (s : Machine F) → Stable s s
  Stable-refl s = record {
    cells = omega arith;
    depth = refl;
    mark = refl;
    kept = λ id g e. e;
    settled = λ id e. e;
  }

  pub Stable-trans : {s t u : Machine F} → Stable s t → Stable t u → Stable s u
  Stable-trans p q = record {
    cells = omega (arith, p.cells, q.cells);
    depth = q.depth ∙ p.depth;
    mark = q.mark ∙ p.mark;
    kept = λ id g e. q.kept id g (p.kept id g e);
    settled = λ id e. p.settled id (q.settled id e);
  }

  After-trans :
      {A : Type 0} (s t : Machine F) (o : Outcome F A) → Stable s t → After t o → After s o
  After-trans s t (returned a u) p q = Stable-trans p q
  After-trans s t (failed e u) p q = Stable-trans p q
  After-trans s t panicked p q = tt
  After-trans s t out_of_fuel p q = tt

  After-then :
      {A B : Type 0} (s : Machine F) (o : Outcome F A) (k : A → M F B)
      → After s o
      → ((a : A) (t : Machine F) → After t (k a t))
      → After s (and_then o k)
  After-then s (returned a t) k p h = After-trans s t (k a t) p (h a t)
  After-then s (failed e t) k p h = p
  After-then s panicked k p h = tt
  After-then s out_of_fuel k p h = tt

  -- The environment of a command is no part of what has to be kept.
  After-frame :
      {A : Type 0} (frame frame' : Frame F) (s : Machine F) (o : Outcome F A)
      → After (record s { frame = frame }) o
      → After s (map_state (λ t. record t { frame = frame' }) o)
  After-frame frame frame' s (returned a t) p = record {
    cells = p.cells;
    depth = p.depth;
    mark = p.mark;
    kept = p.kept;
    settled = p.settled;
  }
  After-frame frame frame' s (failed e t) p = record {
    cells = p.cells;
    depth = p.depth;
    mark = p.mark;
    kept = p.kept;
    settled = p.settled;
  }
  After-frame frame frame' s panicked p = tt
  After-frame frame frame' s out_of_fuel p = tt

  After-call :
      {A : Type 0} (u : Bool) (s : Machine F) (o : Outcome F A)
      → After (record s { unconstrained = u; call_depth = s.call_depth + 1 }) o
      → After s (
          map_state
            (λ t. record t { unconstrained = s.unconstrained; call_depth = t.call_depth - 1 })
            o)
  After-call u s (returned a t) p = record {
    cells = p.cells;
    depth = omega (arith, p.depth);
    mark = refl;
    kept = p.kept;
    settled = p.settled;
  }
  After-call u s (failed e t) p = record {
    cells = p.cells;
    depth = omega (arith, p.depth);
    mark = refl;
    kept = p.kept;
    settled = p.settled;
  }
  After-call u s panicked p = tt
  After-call u s out_of_fuel p = tt

  After-attempt : {A : Type 0} (s : Machine F) (o : Outcome F A) → After s o → After s (attempted o)
  After-attempt s (returned a t) p = p
  After-attempt s (failed e t) p = p
  After-attempt s panicked p = tt
  After-attempt s out_of_fuel p = tt

  After-option :
      {A : Type 0} (o : Option A) (e : InterpretError) (s : Machine F) → After s (ok_or_fail o e s)
  After-option none e s = Stable-refl s
  After-option (some a) e s = Stable-refl s

  -- A change of the heap that only adds cells or overwrites them.
  Stable-heap :
      (s : Machine F) (heap : List (Value F))
      → length s.heap ≤ length heap
      → Stable s (record s { heap = heap })
  Stable-heap s heap h = record {
    cells = h;
    depth = refl;
    mark = refl;
    kept = λ id g e. e;
    settled = λ id e. e;
  }

  Stable-frame : (s : Machine F) (frame : Frame F) → Stable s (record s { frame = frame })
  Stable-frame s frame = record {
    cells = omega arith;
    depth = refl;
    mark = refl;
    kept = λ id g e. e;
    settled = λ id e. e;
  }

  After-read : (a : Address) (s : Machine F) → After s (read a s)
  unfolding read
  After-read a s = by_cell (get_elem? s.heap a)
    where
      by_cell :
          (o : Option (Value F)) → After s (elim o [ none ↦ panicked | some v ↦ returned v s ])
      by_cell none = tt
      by_cell (some v) = Stable-refl s

  abbrev Keeps : {A : Type 0} → M F A → M F A → Type 0
  Keeps m m' = (s : Machine F) → After s (m s)

  pub stability : Closed F
  unfolding with_frame with_call attempt alloc write env_get env_insert get_unconstrained
      get_call_depth
  stability = record {
    Rel = Keeps;
    returns = λ a s. Stable-refl s;
    fails = λ e s. Stable-refl s;
    panicking = λ s. tt;
    starved = λ m s. tt;
    bind = λ p h s. After-then s _ _ (p s) h;
    allocs = λ v s. Stable-heap s _ (omega (arith, length-append s.heap (v ∷ [])));
    reads = After-read;
    writes = λ a v s. Stable-heap s _ (omega (arith, length-set s.heap a v));
    env_gets = λ id e s. After-option (assoc_get id s.frame) e s;
    env_inserts = λ id v s. Stable-frame s _;
    marks = λ s. Stable-refl s;
    depths = λ s. Stable-refl s;
    frames = λ frame h s. After-frame frame _ s _ (h _);
    calls = λ u h s. After-call u s _ (h _);
    attempts = λ h s. After-attempt s _ (h s);
  }
