-- ===== src/Related/Closed.antt =====
-- What a relation between two runs of a command has to satisfy. The first run may be cut short by
-- its fuel; the second has at least as much.
use ast_interpreter.Base.{ℕ, ◌≤◌, Bool, true, false, Option, none, some, if◌then◌else◌}
use ast_interpreter.Error.{InterpretError, Result, ok, err, panic}
use ast_interpreter.Value.Data.{Value, Address}
use ast_interpreter.Ast.{Expression}
use ast_interpreter.Host.{Context}
use ast_interpreter.Machine.{
  Frame, M, ◌>>=◌, pure, fail, panics, no_fuel, lift, ok_or_fail, alloc, read, write, env_get,
  env_insert, get_unconstrained, get_call_depth, with_frame, with_call, attempt,
}
use ast_interpreter.Eval.Places.{Evaluator}
use ast_interpreter.Eval.Calls.{eval_global}

pub record Closed (F : Type 0) : Type 1 where
  pub Rel : {A : Type 0} → M F A → M F A → Type 0
  pub returns : {A : Type 0} (a : A) → Rel (pure a) (pure a)
  pub fails : {A : Type 0} (e : InterpretError) → Rel {A = A} (fail e) (fail e)
  pub panicking : {A : Type 0} → Rel {A = A} panics panics
  pub starved : {A : Type 0} (m : M F A) → Rel no_fuel m
  pub bind :
      {A B : Type 0} {m m' : M F A} {k k' : A → M F B}
      → Rel m m'
      → ((a : A) → Rel (k a) (k' a))
      → Rel (m >>= k) (m' >>= k')
  pub allocs : (v : Value F) → Rel (alloc v) (alloc v)
  pub reads : (a : Address) → Rel (read a) (read a)
  pub writes : (a : Address) (v : Value F) → Rel (write a v) (write a v)
  pub env_gets : (id : ℕ) (e : InterpretError) → Rel (env_get id e) (env_get id e)
  pub env_inserts : (id : ℕ) (v : Value F) → Rel (env_insert id v) (env_insert id v)
  pub marks : Rel get_unconstrained get_unconstrained
  pub depths : Rel get_call_depth get_call_depth
  pub frames :
      {A : Type 0} {m m' : M F A} (frame : Frame F)
      → Rel m m'
      → Rel (with_frame frame m) (with_frame frame m')
  pub calls :
      {A : Type 0} {m m' : M F A} (unconstrained : Bool)
      → Rel m m'
      → Rel (with_call unconstrained m) (with_call unconstrained m')
  pub attempts : {A : Type 0} {m m' : M F A} → Rel m m' → Rel (attempt m) (attempt m')

-- What the relation has to say of globals, whose evaluation is no plain composition of commands.
abbrev pub GlobalsRel : {F : Type 0} → Closed F → Type 0
GlobalsRel {F} c =
    (ctx : Context F) (n m : ℕ) (ev ev' : Evaluator F) (id : ℕ)
    → n ≤ m
    → ((e : Expression) → c.Rel (ev e) (ev' e))
    → c.Rel (eval_global ctx n ev id) (eval_global ctx m ev' id)

module _ {F : Type 0} (c : Closed F) where
  pub lifts : {A : Type 0} (r : Result A) → c.Rel (lift r) (lift r)
  lifts (ok a) = c.returns a
  lifts (err e) = c.fails e
  lifts panic = c.panicking

  pub options :
      {A : Type 0} (o : Option A) (e : InterpretError) → c.Rel (ok_or_fail o e) (ok_or_fail o e)
  options none e = c.fails e
  options (some a) e = c.returns a

  pub branches :
      {A : Type 0} (b : Bool) {m n m' n' : M F A}
      → c.Rel m m'
      → c.Rel n n'
      → c.Rel (if b then m else n) (if b then m' else n')
  branches true p q = p
  branches false p q = q
