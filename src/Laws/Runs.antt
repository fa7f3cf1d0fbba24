-- ===== src/Laws/Runs.antt =====
-- src/lib.rs and src/input.rs: whole runs, from the check of the inputs to the result of `main`.
use ast_interpreter.Base.{ℕ, zero, suc, ◌≤◌, ◌≡◌, ◌≢◌, not, List, [], ◌∷◌, length, arith, ◌==◌}
use ast_interpreter.Error.{internal}
use ast_interpreter.Value.Data.{Value, Values, nil, cons, Address}
use ast_interpreter.Ast.{Function}
use ast_interpreter.Host.{Context, Host, FieldId}
use ast_interpreter.Machine.{out_of_fuel, M, ok_or_fail, ◌>>=◌}
use ast_interpreter.Eval.Cells.{holds}
use ast_interpreter.Eval.Step.{eval}
use ast_interpreter.Input.{
  Checker, check_int, check_cells, check_values, check_all, check_by_shape, check_value,
  validate_inputs,
}
use ast_interpreter.Entry.{main_function_of, new_machine, run_main, interpret_with_inputs}
use ast_interpreter.Related.Closed.{Closed, GlobalsRel, lifts, options, branches}
use ast_interpreter.Related.Calls.{call_function-Rel}
use ast_interpreter.Related.Step.{eval-Rel}
use ast_interpreter.Fuel.{agreement, agrees_globals, same_result}
use ast_interpreter.Stable.{stability, After}
use ast_interpreter.Stable.Runs.{After-related, keeps_globals}

-- A run as a command: the entry point, and then its call.
abbrev run_of : {F : Type 0} → Context F → ℕ → List (Value F) → M F (Value F)
run_of ctx n inputs =
    ok_or_fail (main_function_of ctx.program) (internal "program has no entry point")
    >>= (λ main. run_main ctx n main inputs)

module _ {F : Type 0} (c : Closed F) where
  abbrev CheckRel : (check check' : Checker F) → Type 0
  CheckRel check check' = (seen : List Address) (v : Value F) → c.Rel (check seen v) (check' seen v)

  check_cells-Rel :
      {check check' : Checker F} (seen cells : List Address)
      → CheckRel check check'
      → c.Rel (check_cells check seen cells) (check_cells check' seen cells)
  unfolding check_cells
  check_cells-Rel seen [] h = c.returns _
  check_cells-Rel seen (a ∷ cells) h =
      c.bind (branches c (holds a seen) (c.returns _) (c.bind (c.reads a) (λ v. h _ v)))
        (λ seen'. check_cells-Rel seen' cells h)

  check_values-Rel :
      {check check' : Checker F} (seen : List Address) (vs : Values F)
      → CheckRel check check'
      → c.Rel (check_values check seen vs) (check_values check' seen vs)
  unfolding check_values
  check_values-Rel seen nil h = c.returns _
  check_values-Rel seen (cons v vs) h = c.bind (h seen v) (λ seen'. check_values-Rel seen' vs h)

  check_all-Rel :
      {check check' : Checker F} (seen : List Address) (vs : List (Value F))
      → CheckRel check check'
      → c.Rel (check_all check seen vs) (check_all check' seen vs)
  unfolding check_all
  check_all-Rel seen [] h = c.returns _
  check_all-Rel seen (v ∷ vs) h = c.bind (h seen v) (λ seen'. check_all-Rel seen' vs h)

  check_by_shape-Rel :
      (host : Host F) (field : FieldId) {check check' : Checker F}
      → CheckRel check check'
      → CheckRel (check_by_shape host field check) (check_by_shape host field check')
  unfolding check_by_shape
  check_by_shape-Rel host field h seen (Value.field f) =
      branches c (not (host.field_of f == field)) (c.fails _) (c.returns _)
  check_by_shape-Rel host field h seen (Value.int i) =
      c.bind (lifts c (check_int i)) (λ _. c.returns _)
  check_by_shape-Rel host field h seen (Value.array vs) = check_values-Rel seen vs h
  check_by_shape-Rel host field h seen (Value.fmt_str _ vs) = check_values-Rel seen vs h
  check_by_shape-Rel host field h seen (Value.tuple cells) = check_cells-Rel seen cells h
  check_by_shape-Rel host field h seen (Value.ref a _) = check_cells-Rel seen (a ∷ []) h
  check_by_shape-Rel host field h seen _ = c.returns _

  check_value-Rel :
      (host : Host F) (field : FieldId) (n m : ℕ)
      → n ≤ m
      → CheckRel (check_value host field n) (check_value host field m)
  unfolding check_value
  check_value-Rel host field zero m h seen v = c.starved _
  check_value-Rel host field (suc n) zero h seen v = absurd (omega arith)
  check_value-Rel host field (suc n) (suc m) h seen v =
      check_by_shape-Rel host field (check_value-Rel host field n m (omega arith)) seen v

  module _ (globals : GlobalsRel c) (ctx : Context F) (n m : ℕ) (h : n ≤ m) where
    run_main-Rel :
        (main : Function) (inputs : List (Value F))
        → c.Rel (run_main ctx n main inputs) (run_main ctx m main inputs)
    unfolding run_main validate_inputs
    run_main-Rel main inputs =
        branches c (length main.parameters == length inputs)
          (c.bind (check_all-Rel [] inputs (check_value-Rel ctx.host ctx.field n m h)) (λ _.
            call_function-Rel c ctx n m h {ev = eval ctx n} {ev' = eval ctx m}
              (λ e. eval-Rel c globals ctx n m h e) main.id inputs))
          (c.fails _)

    run_of-Rel : (inputs : List (Value F)) → c.Rel (run_of ctx n inputs) (run_of ctx m inputs)
    run_of-Rel inputs =
        c.bind (options c (main_function_of ctx.program) _) (λ main. run_main-Rel main inputs)

-- A whole run that is not cut short, the check of its inputs included, gives the same outcome and
-- state with any larger fuel.
pub interpret_with_inputs-more_fuel :
    {F : Type 0} (ctx : Context F) (n m : ℕ) (heap inputs : List (Value F))
    → n ≤ m
    → interpret_with_inputs ctx n heap inputs ≢ out_of_fuel
    → interpret_with_inputs ctx m heap inputs ≡ interpret_with_inputs ctx n heap inputs
unfolding interpret_with_inputs
interpret_with_inputs-more_fuel ctx n m heap inputs h ne =
    same_result (run_of ctx n inputs) (run_of ctx m inputs)
      (run_of-Rel agreement agrees_globals ctx n m h inputs) (new_machine heap) ne

-- A whole run that returns or fails does so at depth zero, with no function marked unconstrained, with
-- every cell of the caller's still there, and with no mark `InProgress` in the table of globals.
pub interpret_with_inputs-Stable :
    {F : Type 0} (ctx : Context F) (n : ℕ) (heap inputs : List (Value F))
    → After (new_machine heap) (interpret_with_inputs ctx n heap inputs)
unfolding interpret_with_inputs
interpret_with_inputs-Stable ctx n heap inputs =
    After-related (run_of ctx n inputs) (run_of ctx n inputs)
      (run_of-Rel stability keeps_globals ctx n n (omega arith) inputs) (new_machine heap)
