-- ===== src/Fuel.antt =====
-- src/eval.rs on two amounts of fuel: an instance of `Related`, for runs that agree wherever the first
-- is not cut short.
use ast_interpreter.Base.{ℕ, ◌≤◌, assoc_get, [], ◌≡◌, ◌≢◌, refl, ◌⊎◌, inl, inr, Option, none, some}
use ast_interpreter.Ast.{Expression}
use ast_interpreter.Host.{Context}
use ast_interpreter.Machine.{
  Machine, Outcome, returned, failed, panicked, out_of_fuel, M, GlobalState, computed, in_progress,
  attempted, clean_up, and_then, map_state, ok_or_fail, set_globals, get_global, with_frame,
  with_call, attempt, on_failure, pure, fail,
}
use ast_interpreter.Eval.Places.{Evaluator}
use ast_interpreter.Eval.Calls.{
  eval_global, global_value, first_reference, compute_global, forget_global,
}
use ast_interpreter.Eval.Step.{eval}
use ast_interpreter.Related.Closed.{Closed, GlobalsRel}
use ast_interpreter.Related.Cells.{deep_copy-Rel}
use ast_interpreter.Related.Places.{EvRel, eval_expr_value-Rel}
use ast_interpreter.Related.Step.{eval-Rel}

-- The second command does what the first does, unless the first runs out of fuel.
abbrev pub Agrees : {F A : Type 0} → M F A → M F A → Type 0
Agrees {F} m m' = (s : Machine F) → (m s ≡ out_of_fuel) ⊎ (m' s ≡ m s)

module _ {F : Type 0} where
  Agrees-self : {A : Type 0} (m : M F A) → Agrees m m
  Agrees-self m s = inr refl

  Agrees-then :
      {A B : Type 0} (o o' : Outcome F A) {k k' : A → M F B}
      → (o ≡ out_of_fuel) ⊎ (o' ≡ o)
      → ((a : A) → Agrees (k a) (k' a))
      → (and_then o k ≡ out_of_fuel) ⊎ (and_then o' k' ≡ and_then o k)
  Agrees-then o o' (inl e) h = inl (rw e)
  Agrees-then (returned a s) o' (inr e) h = rw e (h a s)
  Agrees-then (failed x s) o' (inr e) h = inr (rw e)
  Agrees-then panicked o' (inr e) h = inr (rw e)
  Agrees-then out_of_fuel o' (inr e) h = inl refl

  agrees_map :
      {A : Type 0} (f : Machine F → Machine F) (o o' : Outcome F A)
      → (o ≡ out_of_fuel) ⊎ (o' ≡ o)
      → (map_state f o ≡ out_of_fuel) ⊎ (map_state f o' ≡ map_state f o)
  agrees_map f o o' (inl e) = inl (rw e)
  agrees_map f o o' (inr e) = inr (rw e)

  agrees_attempt :
      {A : Type 0} (o o' : Outcome F A)
      → (o ≡ out_of_fuel) ⊎ (o' ≡ o)
      → (attempted o ≡ out_of_fuel) ⊎ (attempted o' ≡ attempted o)
  agrees_attempt o o' (inl e) = inl (rw e)
  agrees_attempt o o' (inr e) = inr (rw e)

  agrees_clean_up :
      {A : Type 0} (f : Machine F → Machine F) (o o' : Outcome F A)
      → (o ≡ out_of_fuel) ⊎ (o' ≡ o)
      → (clean_up f o ≡ out_of_fuel) ⊎ (clean_up f o' ≡ clean_up f o)
  agrees_clean_up f o o' (inl e) = inl (rw e)
  agrees_clean_up f o o' (inr e) = inr (rw e)

  pub agreement : Closed F
  unfolding with_frame with_call attempt
  agreement = record {
    Rel = Agrees;
    returns = λ a. Agrees-self (pure a);
    fails = λ e. Agrees-self (fail e);
    panicking = Agrees-self _;
    starved = λ m s. inl refl;
    bind = λ h k s. Agrees-then _ _ (h s) k;
    allocs = λ v. Agrees-self _;
    reads = λ a. Agrees-self _;
    writes = λ a v. Agrees-self _;
    env_gets = λ id e. Agrees-self _;
    env_inserts = λ id v. Agrees-self _;
    marks = Agrees-self _;
    depths = Agrees-self _;
    frames = λ frame h s. agrees_map _ _ _ (h _);
    calls = λ u h s. agrees_map _ _ _ (h _);
    attempts = λ h s. agrees_attempt _ _ (h s);
  }

  module _ (ctx : Context F) (n m : ℕ) (h : n ≤ m) (ev ev' : Evaluator F)
      (r : EvRel agreement ev ev') where
    Agrees-compute :
        (id : ℕ) (e : Expression)
        → Agrees (compute_global ctx n ev id e) (compute_global ctx m ev' id e)
    unfolding compute_global on_failure agreement
    Agrees-compute id e = agreement.bind (Agrees-self (set_globals _)) (λ _.
        agreement.bind
          (λ s.
            agrees_clean_up (forget_global id) _ _
              (agreement.frames [] (eval_expr_value-Rel agreement n m h r e) s))
          (λ v.
            agreement.bind (deep_copy-Rel agreement n m h v)
              (λ copy. agreement.bind (Agrees-self (set_globals _)) (λ _. Agrees-self (pure v)))))

    Agrees-global :
        (id : ℕ) (o : Option (GlobalState F))
        → Agrees (global_value ctx n ev id o) (global_value ctx m ev' id o)
    unfolding global_value first_reference agreement
    Agrees-global id (some in_progress) = Agrees-self _
    Agrees-global id (some (computed v)) = deep_copy-Rel agreement n m h v
    Agrees-global id none =
        agreement.bind (Agrees-self (ok_or_fail (assoc_get id ctx.program.globals) _))
          (λ expr. Agrees-compute id expr)

  pub agrees_globals : GlobalsRel agreement
  unfolding eval_global agreement
  agrees_globals ctx n m ev ev' id h r =
      agreement.bind (Agrees-self (get_global id)) (λ o. Agrees-global ctx n m h ev ev' r id o)

  unless_starved :
      {A : Type 0} {o o' : Outcome F A} → (o ≡ out_of_fuel) ⊎ (o' ≡ o) → o ≢ out_of_fuel → o' ≡ o
  unless_starved (inl e) h = absurd (h e)
  unless_starved (inr e) h = e

  -- Commands that agree give the same result, unless the first runs out of fuel.
  pub same_result :
      {A : Type 0} (m m' : M F A)
      → agreement.Rel m m'
      → (s : Machine F) → m s ≢ out_of_fuel
      → m' s ≡ m s
  unfolding agreement
  same_result m m' h s = unless_starved (h s)

-- A run that is not cut short gives the same outcome and state with any larger fuel.
pub eval-more_fuel :
    {F : Type 0} (ctx : Context F) (n m : ℕ) (e : Expression) (s : Machine F)
    → n ≤ m
    → eval ctx n e s ≢ out_of_fuel
    → eval ctx m e s ≡ eval ctx n e s
unfolding agreement
eval-more_fuel ctx n m e s h ne =
    unless_starved (eval-Rel agreement agrees_globals ctx n m h e s) ne
