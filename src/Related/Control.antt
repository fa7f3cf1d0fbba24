-- ===== src/Related/Control.antt =====
-- Blocks, loops, conditionals and matches.
use ast_interpreter.Base.{ℕ, zero, suc, ◌≤◌, Bool, true, false, List, arith}
use ast_interpreter.Base.Int.{ℤ}
use ast_interpreter.Error.{type_error}
use ast_interpreter.Value.Data.{Value, as_bool, as_int}
use ast_interpreter.Ast.{
  Expression, Expressions, nil, cons, Optional, absent, present, MatchCases, no_cases, match_case,
  Constructor, MonoType,
}
use ast_interpreter.Host.{Context}
use ast_interpreter.Machine.{Flow, M}
use ast_interpreter.Eval.Places.{Evaluator}
use ast_interpreter.Eval.Operators.{int_type}
use ast_interpreter.Eval.Control.{
  next_round, eval_block, eval_loop, eval_while, for_rounds, eval_for, eval_optional, eval_if,
  take_case, match_cases, eval_match,
}
use ast_interpreter.Related.Closed.{Closed, lifts, options, branches}
use ast_interpreter.Related.Places.{EvRel, eval_expr_value-Rel, load_slot-Rel}
use ast_interpreter.Related.Matching.{case_matches-Rel, bind_case_arguments-Rel}

module _ {F : Type 0} (c : Closed F) where
  next_round-Rel :
      {again again' : M F (Flow F)} (flow : Flow F)
      → c.Rel again again'
      → c.Rel (next_round again flow) (next_round again' flow)
  unfolding next_round
  next_round-Rel Flow.break h = c.returns _
  next_round-Rel (Flow.normal v) h = h
  next_round-Rel Flow.continue h = h

module _ {F : Type 0} (c : Closed F) {ev ev' : Evaluator F} (r : EvRel c ev ev') where
  pub eval_block-Rel :
      (es : Expressions) (v : Value F) → c.Rel (eval_block ev es v) (eval_block ev' es v)
  unfolding eval_block
  eval_block-Rel nil v = c.returns _
  eval_block-Rel (cons e es) v = c.bind (r e) (elim [
    | Flow.normal w ↦ eval_block-Rel es w
    | Flow.break ↦ c.returns _
    | Flow.continue ↦ c.returns _
  ])

  pub eval_loop-Rel :
      (n m : ℕ) → n ≤ m → (body : Expression) → c.Rel (eval_loop ev n body) (eval_loop ev' m body)
  unfolding eval_loop
  eval_loop-Rel zero m h body = c.starved _
  eval_loop-Rel (suc n) zero h body = absurd (omega arith)
  eval_loop-Rel (suc n) (suc m) h body =
      c.bind (r body) (λ flow. next_round-Rel c flow (eval_loop-Rel n m (omega arith) body))

  pub eval_while-Rel :
      (n m : ℕ)
      → n ≤ m
      → (test body : Expression) → c.Rel (eval_while ev n test body) (eval_while ev' m test body)
  unfolding eval_while
  eval_while-Rel zero m h test body = c.starved _
  eval_while-Rel (suc n) zero h test body = absurd (omega arith)
  eval_while-Rel (suc n) (suc m) h test body =
      let again = eval_while-Rel n m (omega arith) test body in
      c.bind (r test) (elim [
        | Flow.normal v ↦ c.bind (lifts c (as_bool v)) (elim [
          | true ↦ c.bind (r body) (λ flow. next_round-Rel c flow again)
          | false ↦ c.returns _
        ])
        | Flow.break ↦ c.returns _
        | Flow.continue ↦ c.returns _
      ])

  for_rounds-Rel :
      (k : ℕ) (i : ℤ) (id : ℕ) (signed : Bool) (bits : ℕ) (body : Expression)
      → c.Rel (for_rounds ev k i id signed bits body) (for_rounds ev' k i id signed bits body)
  unfolding for_rounds
  for_rounds-Rel zero i id signed bits body = c.returns _
  for_rounds-Rel (suc k) i id signed bits body = c.bind (lifts c _) (λ int.
      c.bind (c.env_inserts id _) (λ _.
        c.bind (r body) (λ flow. next_round-Rel c flow (for_rounds-Rel k _ id signed bits body))))

  pub eval_for-Rel :
      (id : ℕ) (type : MonoType) (from to : Expression) (inclusive : Bool) (body : Expression)
      → c.Rel
          (eval_for ev id type from to inclusive body)
          (eval_for ev' id type from to inclusive body)
  unfolding eval_for
  eval_for-Rel id type from to inclusive body =
      c.bind (options c (int_type type) (type_error "for-loop index is not an integer type")) (λ p.
        c.bind (eval_expr_value-Rel c 0 0 (omega arith) r from) (λ a.
          c.bind (eval_expr_value-Rel c 0 0 (omega arith) r to) (λ b.
            c.bind (lifts c (as_int a)) (λ start.
              c.bind (lifts c (as_int b)) (λ last. for_rounds-Rel _ start.value id p.0 p.1 body)))))

  eval_optional-Rel : (o : Optional) → c.Rel (eval_optional ev o) (eval_optional ev' o)
  unfolding eval_optional
  eval_optional-Rel absent = c.returns _
  eval_optional-Rel (present e) = r e

  pub eval_if-Rel :
      (test e : Expression) (o : Optional) → c.Rel (eval_if ev test e o) (eval_if ev' test e o)
  unfolding eval_if
  eval_if-Rel test e o =
      c.bind (eval_expr_value-Rel c 0 0 (omega arith) r test)
        (λ v. c.bind (lifts c _) (λ b. branches c b (r e) (eval_optional-Rel o)))

module _ {F : Type 0} (c : Closed F) (ctx : Context F) (n m : ℕ) (h : n ≤ m) {ev ev' : Evaluator F}
    (r : EvRel c ev ev') where
  take_case-Rel :
      (k : Constructor) (args : List ℕ) (e : Expression) (v : Value F)
      → c.Rel (take_case ctx n ev k args e v) (take_case ctx m ev' k args e v)
  unfolding take_case
  take_case-Rel k args e v = c.bind (bind_case_arguments-Rel c n m h k args v) (λ _. r e)

  match_cases-Rel :
      (cases : MatchCases) (o : Optional) (v : Value F)
      → c.Rel (match_cases ctx n ev cases o v) (match_cases ctx m ev' cases o v)
  unfolding match_cases
  match_cases-Rel no_cases absent v = c.fails _
  match_cases-Rel no_cases (present e) v = r e
  match_cases-Rel (match_case k args e no_cases) absent v = take_case-Rel k args e v
  match_cases-Rel (match_case k args e rest) o v =
      c.bind (case_matches-Rel c ctx.host k v)
        (elim [ true ↦ take_case-Rel k args e v | false ↦ match_cases-Rel rest o v ])

  pub eval_match-Rel :
      (id : ℕ) (cases : MatchCases) (o : Optional)
      → c.Rel (eval_match ctx n ev id cases o) (eval_match ctx m ev' id cases o)
  unfolding eval_match
  eval_match-Rel id cases o =
      c.bind (c.env_gets id _)
        (λ slot. c.bind (load_slot-Rel c slot) (λ v. match_cases-Rel cases o v))
