-- ===== src/Laws/After.antt =====
-- What a command that adds cells leaves, and the integers that `canonical` makes.
use ast_interpreter.Prover.Abi.{Answer, given, refused}
use ast_interpreter.Prover.Bind.{given_or_fail}
use ast_interpreter.Base.{
  String, ℕ, zero, suc, ◌≡◌, ◌<◌, refl, Bool, true, false, List, Option, none, some, ◌⊎◌, inl, inr,
  if◌then◌else◌, arith,
}
use ast_interpreter.Base.Int.{ℤ}
use ast_interpreter.Error.{InterpretError, ok, panic}
use ast_interpreter.Value.Ints.{IntValue, int_value, canonical, wrap, half_range}
use ast_interpreter.Value.Pattern.{IsCanonical}
use ast_interpreter.Value.Wrap.{wrap_lem}
use ast_interpreter.Value.Data.{Value}
use ast_interpreter.Machine.{
  Machine, Outcome, returned, failed, panicked, out_of_fuel, M, and_then, pure, fail, ok_or_fail,
}
use ast_interpreter.Laws.Typing.{Grown}

module _ {F : Type 0} where
  -- If the command returns, every cell is kept and the result has the property in the last heap.
  abbrev pub After : {A : Type 0} → (List (Value F) → A → Type 0) → Machine F → Outcome F A → Type 0
  After P s (returned a t) = Grown s.heap t.heap × P t.heap a
  After P s (failed e t) = Unit
  After P s panicked = Unit
  After P s out_of_fuel = Unit

  pub After-After :
      {A : Type 0} (P : List (Value F) → A → Type 0) (s t : Machine F) (o : Outcome F A)
      → Grown s.heap t.heap
      → After P t o
      → After P s o
  After-After P s t (returned a u) g (g', p) = (λ i v e. g' i v (g i v e), p)
  After-After P s t (failed e u) g p = tt
  After-After P s t panicked g p = tt
  After-After P s t out_of_fuel g p = tt

  pub After-then :
      {A B : Type 0} (P : List (Value F) → A → Type 0) (Q : List (Value F) → B → Type 0)
      (s : Machine F) (o : Outcome F A) (k : A → M F B)
      → After P s o
      → ((a : A) (t : Machine F) → Grown s.heap t.heap → P t.heap a → After Q t (k a t))
      → After Q s (and_then o k)
  After-then P Q s (returned a t) k (g, p) h = After-After Q s t (k a t) g (h a t g p)
  After-then P Q s (failed e t) k p h = tt
  After-then P Q s panicked k p h = tt
  After-then P Q s out_of_fuel k p h = tt

  pub After-map :
      {A : Type 0} (P Q : List (Value F) → A → Type 0) (s : Machine F) (o : Outcome F A)
      → ((a : A) (t : Machine F) → Grown s.heap t.heap → P t.heap a → Q t.heap a)
      → After P s o
      → After Q s o
  After-map P Q s (returned a t) f (g, p) = (g, f a t g p)
  After-map P Q s (failed e t) f p = tt
  After-map P Q s panicked f p = tt
  After-map P Q s out_of_fuel f p = tt

  -- One command and a second, whose results are paired.
  pub After-both :
      {A B C : Type 0} (P : List (Value F) → A → Type 0) (Q : List (Value F) → B → Type 0)
      (R : List (Value F) → C → Type 0) (s : Machine F) (o : Outcome F A) (m : A → M F B)
      (f : A → B → C)
      → ((heap later : List (Value F)) (a : A) → Grown heap later → P heap a → P later a)
      → ((heap : List (Value F)) (a : A) (b : B) → P heap a → Q heap b → R heap (f a b))
      → After P s o
      → ((a : A) (t : Machine F) → Grown s.heap t.heap → P t.heap a → After Q t (m a t))
      → After R s (and_then o (λ a t. and_then (m a t) (λ b. pure (f a b))))
  After-both P Q R s o m f keep join p h = After-then P R s o _ p (λ a t g' pa.
      After-then (λ heap b. P heap a × Q heap b) R t (m a t) _
        (After-map Q (λ heap b. P heap a × Q heap b) t (m a t)
          (λ b u g q. (keep t.heap u.heap a g pa, q)) (h a t g' pa))
        (λ b u g'' (pa', q). (λ i v e. e, join u.heap a b pa' q)))

  -- A test that fails, or the rest.
  pub After-guard :
      {A : Type 0} (P : List (Value F) → A → Type 0) (s : Machine F) (b : Bool)
      (error : InterpretError) (n : M F A)
      → (b ≡ false → After P s (n s))
      → After P s ((if b then fail error else n) s)
  After-guard P s true error n q = tt
  After-guard P s false error n q = q refl

  pub After-ok_or_fail :
      {A : Type 0} (o : Option A) (error : InterpretError) (s : Machine F)
      → After (λ heap a. o ≡ some a) s (ok_or_fail o error s)
  After-ok_or_fail none error s = tt
  After-ok_or_fail (some a) error s = (λ i v e. e, refl)

  pub After-given_or_fail :
      {A : Type 0} (error : String → InterpretError) (o : Answer A) (s : Machine F)
      → After (λ heap a. Unit {0}) s (given_or_fail error o s)
  After-given_or_fail error (given a) s = (λ i v e. e, tt)
  After-given_or_fail error (refused text) s = tt

pub canonical_lem :
    (signed : Bool) (bits : ℕ) (raw : ℤ)
    → (canonical signed bits raw ≡ panic)
      ⊎ ((i : IntValue) × (canonical signed bits raw ≡ ok i)
          × (i.signed ≡ signed)
          × (i.bits ≡ bits)
          × (0 < bits → IsCanonical i))
unfolding canonical wrap half_range
canonical_lem false zero raw = inr (_, refl, refl, refl, λ h. absurd (omega arith))
canonical_lem true zero raw = inl refl
canonical_lem signed (suc bits) raw =
    let (v, e, r, c) = wrap_lem signed (suc bits) raw (omega arith) in
    inr (
      int_value signed (suc bits) v,
      rw e refl,
      refl,
      refl,
      λ h. record { has_bits = h; in_range = r },
    )
