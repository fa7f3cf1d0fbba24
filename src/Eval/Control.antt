-- ===== src/Eval/Control.antt =====
-- src/eval.rs: blocks, loops, conditionals and matches. A `loop` and a `while` run on fuel; a `for`
-- has as many rounds as its range has numbers.
use ast_interpreter.Base.{ℕ, zero, suc, Bool, true, false, List, if◌then◌else◌}
use ast_interpreter.Base.Int.{ℤ, pos, pos_part, ◌+ℤ◌, ◌-ℤ◌}
use ast_interpreter.Error.{type_error, internal}
use ast_interpreter.Value.Ints.{canonical}
use ast_interpreter.Value.Data.{Value, as_bool, as_int}
use ast_interpreter.Ast.{
  Expression, Expressions, nil, cons, Optional, absent, present, MatchCases, no_cases, match_case,
  Constructor, MonoType,
}
use ast_interpreter.Host.{Context}
use ast_interpreter.Machine.{
  Flow, M, pure, fail, no_fuel, lift, ok_or_fail, env_get, env_insert, ◌>>=◌, ◌>>◌,
}
use ast_interpreter.Eval.Places.{Evaluator, eval_expr_value, load_slot}
use ast_interpreter.Eval.Operators.{int_type}
use ast_interpreter.Eval.Matching.{case_matches, bind_case_arguments}

abbrev pub normal_unit : {F : Type 0} → Flow F
normal_unit = Flow.normal Value.unit

-- A statement's flow, its value dropped.
abbrev pub drop_value : {F : Type 0} → Flow F → Flow F
drop_value (Flow.normal _) = normal_unit
drop_value other = other

-- A `break` ends a loop; after any other flow comes the next round.
unfoldable pub next_round : {F : Type 0} → M F (Flow F) → Flow F → M F (Flow F)
next_round again Flow.break = pure normal_unit
next_round again _ = again

module _ {F : Type 0} (ev : Evaluator F) where
  unfoldable pub eval_block : Expressions → Value F → M F (Flow F)
  eval_block nil last = pure (Flow.normal last)
  eval_block (cons e es) last = do
    flow ← ev e
    elim flow [ Flow.normal v ↦ eval_block es v | other ↦ pure other ]

  unfoldable pub eval_loop : ℕ → Expression → M F (Flow F)
  unfolding next_round
  eval_loop zero body = no_fuel
  eval_loop (suc k) body = do flow ← ev body; next_round (eval_loop k body) flow

  -- A `break` in the condition belongs to the enclosing loop.
  unfoldable pub eval_while : ℕ → (condition body : Expression) → M F (Flow F)
  unfolding next_round
  eval_while zero condition body = no_fuel
  eval_while (suc k) condition body = do
    test ← ev condition
    elim test [
      | Flow.normal v ↦ do
        b ← lift (as_bool v)
        elim b [
          | true ↦ do flow ← ev body; next_round (eval_while k condition body) flow
          | false ↦ pure normal_unit
        ]
      | other ↦ pure other
    ]

  -- `while i < end` from `i`, with the rounds that are left.
  unfoldable pub for_rounds :
      ℕ → ℤ → (variable : ℕ) → (signed : Bool) → (bits : ℕ) → Expression → M F (Flow F)
  unfolding next_round
  for_rounds zero i variable signed bits body = pure normal_unit
  for_rounds (suc k) i variable signed bits body = do
    int ← lift (canonical signed bits i)
    env_insert variable (Value.int int)
    flow ← ev body
    next_round (for_rounds k (i +ℤ pos 1) variable signed bits body) flow

  unfoldable pub eval_for :
      ℕ → MonoType → (start_range end_range : Expression) → Bool → Expression → M F (Flow F)
  unfolding for_rounds
  eval_for variable index_type start_range end_range inclusive body = do
    (signed, bits) ←
        ok_or_fail (int_type index_type) (type_error "for-loop index is not an integer type")
    start_value ← eval_expr_value ev start_range
    end_value ← eval_expr_value ev end_range
    start ← lift (as_int start_value)
    last ← lift (as_int end_value)
    for_rounds (pos_part ((if inclusive then last.value +ℤ pos 1 else last.value) -ℤ start.value))
        start.value variable signed bits body

  unfoldable pub eval_optional : Optional → M F (Flow F)
  eval_optional absent = pure normal_unit
  eval_optional (present e) = ev e

  unfoldable pub eval_if : (condition consequence : Expression) → Optional → M F (Flow F)
  unfolding eval_optional
  eval_if condition consequence alternative = do
    v ← eval_expr_value ev condition
    b ← lift (as_bool v)
    if b then ev consequence else eval_optional alternative

module _ {F : Type 0} (ctx : Context F) (n : ℕ) (ev : Evaluator F) where
  unfoldable pub take_case : Constructor → List ℕ → Expression → Value F → M F (Flow F)
  take_case constructor arguments branch scrutinee = do
    bind_case_arguments n constructor arguments scrutinee
    ev branch

  -- Without a default the last case is taken untested.
  unfoldable pub match_cases : MatchCases → Optional → Value F → M F (Flow F)
  unfolding take_case
  match_cases no_cases absent scrutinee = fail (internal "match with no cases and no default")
  match_cases no_cases (present default_case) scrutinee = ev default_case
  match_cases (match_case constructor arguments branch no_cases) absent scrutinee =
      take_case constructor arguments branch scrutinee
  match_cases (match_case constructor arguments branch rest) default_case scrutinee = do
    hit ← case_matches ctx.host constructor scrutinee
    elim hit [
      | true ↦ take_case constructor arguments branch scrutinee
      | false ↦ match_cases rest default_case scrutinee
    ]

  unfoldable pub eval_match : ℕ → MatchCases → Optional → M F (Flow F)
  unfolding match_cases
  eval_match variable cases default_case = do
    slot ← env_get variable (internal "unbound match scrutinee")
    scrutinee ← load_slot slot
    match_cases cases default_case scrutinee
