-- ===== src/Copy.antt =====
-- src/value.rs: `Value::deep_copy` and the cells of the copy.
use mathlib.Core.Option.{some-injective}
use mathlib.Core.Path.{subst}
use ast_interpreter.Base.{
  ℕ, zero, suc, ◌≤◌, ◌<◌, ◌≡◌, refl, sym, ◌∙◌, List, [], ◌∷◌, ◌++◌, Option, none, some, arith,
  length, length-append, get_elem?, get_elem?-append, lt_of_get_elem?, ◌⊎◌, inl, inr,
}
use ast_interpreter.Value.Data.{Value, Values, nil, cons, Address}
use ast_interpreter.Machine.{
  Machine, Outcome, returned, failed, panicked, out_of_fuel, M, and_then, alloc, read,
}
use ast_interpreter.Eval.Cells.{copy_cells, copy_values, deep_copy}

abbrev pub AllFrom : ℕ → List Address → Type 0
AllFrom b [] = Unit
AllFrom b (c ∷ cs) = (b ≤ c) × AllFrom b cs

-- No cell of the value stands below `b`; a reference is shared on purpose.
mutual
  pub Fresh : {F : Type 0} → ℕ → Value F → Type 0
  Fresh b (Value.tuple cells) = AllFrom b cells
  Fresh b (Value.array elements) = FreshValues b elements
  Fresh b (Value.fmt_str fragments captures) = FreshValues b captures
  Fresh b _ = Unit

  pub FreshValues : {F : Type 0} → ℕ → Values F → Type 0
  FreshValues b nil = Unit
  FreshValues b (cons v vs) = Fresh b v × FreshValues b vs

-- `t` is `s` with cells added at the end, none of which leads back below `b`.
pub record Extended {F : Type 0} (b : ℕ) (s t : Machine F) : Type 0 where
  pub grown : length s.heap ≤ length t.heap
  pub old : (i : ℕ) → i < length s.heap → get_elem? t.heap i ≡ get_elem? s.heap i
  pub new : (i : ℕ) (v : Value F) → length s.heap ≤ i → get_elem? t.heap i ≡ some v → Fresh b v
  pub globals : t.globals ≡ s.globals
  pub frame : t.frame ≡ s.frame
  pub mark : t.unconstrained ≡ s.unconstrained
  pub depth : t.call_depth ≡ s.call_depth

below_or_from : (a b : ℕ) → (a < b) ⊎ (b ≤ a)
below_or_from a zero = inr (omega arith)
below_or_from zero (suc b) = inl (omega arith)
below_or_from (suc a) (suc b) = elim (below_or_from a b) [
  | inl h ↦ inl (omega arith)
  | inr h ↦ inr (omega arith)
]

module _ {F : Type 0} where
  abbrev pub Copied : {A : Type 0} → ℕ → (A → Type 0) → Machine F → Outcome F A → Type 0
  Copied b P s (returned a t) = P a × Extended b s t
  Copied b P s (failed e t) = ⊥
  Copied b P s panicked = Unit
  Copied b P s out_of_fuel = Unit

  Extended-refl : (b : ℕ) (s : Machine F) → Extended b s s
  Extended-refl b s = record {
    grown = omega arith;
    old = λ i h. refl;
    new = λ i v h e. absurd (omega (arith, lt_of_get_elem? s.heap i e));
    globals = refl;
    frame = refl;
    mark = refl;
    depth = refl;
  }

  Extended-trans : {b : ℕ} {s t u : Machine F} → Extended b s t → Extended b t u → Extended b s u
  Extended-trans {b} {s} {t} {u} p q = record {
    grown = omega (arith, p.grown, q.grown);
    old = λ i h. q.old i (omega (arith, p.grown)) ∙ p.old i h;
    new = λ i v h e. elim (below_or_from i (length t.heap)) [
      | inl below ↦ p.new i v h (sym (q.old i below) ∙ e)
      | inr above ↦ q.new i v above e
    ];
    globals = q.globals ∙ p.globals;
    frame = q.frame ∙ p.frame;
    mark = q.mark ∙ p.mark;
    depth = q.depth ∙ p.depth;
  }

  Copied-after :
      {A : Type 0} (b : ℕ) (Q : A → Type 0) (s t : Machine F)
      → Extended b s t
      → (o : Outcome F A) → Copied b Q t o
      → Copied b Q s o
  Copied-after b Q s t q (returned c u) (r, z) = (r, Extended-trans q z)
  Copied-after b Q s t q (failed e u) r = r
  Copied-after b Q s t q panicked r = tt
  Copied-after b Q s t q out_of_fuel r = tt

  Copied-then :
      {A B : Type 0} (b : ℕ) (P : A → Type 0) (Q : B → Type 0) (s : Machine F) (o : Outcome F A)
      (k : A → M F B)
      → Copied b P s o
      → ((a : A) (t : Machine F) → P a → length s.heap ≤ length t.heap → Copied b Q t (k a t))
      → Copied b Q s (and_then o k)
  Copied-then b P Q s (returned a t) k (p, q) h = Copied-after b Q s t q (k a t) (h a t p q.grown)
  Copied-then b P Q s (failed e t) k p h = p
  Copied-then b P Q s panicked k p h = tt
  Copied-then b P Q s out_of_fuel k p h = tt

  new_at_end :
      (b : ℕ) (v w : Value F) (heap : List (Value F)) (i : ℕ)
      → Fresh b v
      → length heap ≤ i
      → get_elem? (heap ++ v ∷ []) i ≡ some w
      → Fresh b w
  new_at_end b v w [] zero fresh le e = subst (Fresh b) (some-injective v w e) fresh
  new_at_end b v w [] (suc i) fresh le e = ground arith
  new_at_end b v w (x ∷ heap) zero fresh le e = absurd (omega arith)
  new_at_end b v w (x ∷ heap) (suc i) fresh le e = new_at_end b v w heap i fresh (omega arith) e

  Copied-alloc :
      (b : ℕ) (v : Value F) (s : Machine F)
      → b ≤ length s.heap
      → Fresh b v
      → Copied b (λ a. b ≤ a) s (alloc v s)
  unfolding alloc
  Copied-alloc b v s h fresh = (
    h,
    record {
      grown = omega (arith, length-append s.heap (v ∷ []));
      old = λ i below. get_elem?-append s.heap (v ∷ []) i below;
      new = λ i w le e. new_at_end b v w s.heap i fresh le e;
      globals = refl;
      frame = refl;
      mark = refl;
      depth = refl;
    },
  )

  Copied-read : (b : ℕ) (a : Address) (s : Machine F) → Copied b (λ v. Unit {0}) s (read a s)
  unfolding read
  Copied-read b a s = by_cell (get_elem? s.heap a)
    where
      by_cell :
          (o : Option (Value F))
          → Copied b (λ v. Unit {0}) s (elim o [ none ↦ panicked | some v ↦ returned v s ])
      by_cell none = tt
      by_cell (some v) = (tt, Extended-refl b s)

  abbrev Copies : (Value F → M F (Value F)) → Type 0
  Copies copy =
      (b : ℕ) (v : Value F) (s : Machine F) → b ≤ length s.heap → Copied b (Fresh b) s (copy v s)

  copy_cells_lem :
      (copy : Value F → M F (Value F))
      → Copies copy
      → (b : ℕ) (cs : List Address) (s : Machine F) → b ≤ length s.heap
      → Copied b (AllFrom b) s (copy_cells copy cs s)
  unfolding copy_cells
  copy_cells_lem copy h b [] s le = (tt, Extended-refl b s)
  copy_cells_lem copy h b (c ∷ cs) s le = Copied-then b _ _ s _ _ (Copied-read b c s) (λ v s1 _ le1.
      Copied-then b _ _ s1 _ _ (h b v s1 (omega arith)) (λ w s2 fresh le2.
        Copied-then b _ _ s2 _ _ (Copied-alloc b w s2 (omega arith) fresh) (λ a s3 above le3.
          Copied-then b _ _ s3 _ _ (copy_cells_lem copy h b cs s3 (omega arith))
            (λ as' s4 all le4. ((above, all), Extended-refl b s4)))))

  copy_values_lem :
      (copy : Value F → M F (Value F))
      → Copies copy
      → (b : ℕ) (vs : Values F) (s : Machine F) → b ≤ length s.heap
      → Copied b (FreshValues b) s (copy_values copy vs s)
  unfolding copy_values FreshValues
  copy_values_lem copy h b nil s le = (tt, Extended-refl b s)
  copy_values_lem copy h b (cons v vs) s le =
      Copied-then b _ _ s _ _ (h b v s le) (λ w s1 fresh le1.
        Copied-then b _ _ s1 _ _ (copy_values_lem copy h b vs s1 (omega arith))
          (λ ws s2 all le2. ((fresh, all), Extended-refl b s2)))

-- A deep copy never fails. It leaves every cell, the environment, the globals and the calls as they
-- were, and no tuple cell of the copy, at any depth outside of the references that it shares, stands
-- below a bound that the heap had reached.
pub deep_copy_lem :
    {F : Type 0} (n b : ℕ) (v : Value F) (s : Machine F)
    → b ≤ length s.heap
    → Copied b (Fresh b) s (deep_copy n v s)
unfolding deep_copy Fresh
deep_copy_lem zero b v s le = tt
deep_copy_lem (suc n) b (Value.tuple cells) s le =
    Copied-then b _ _ s _ _ (copy_cells_lem (deep_copy n) (deep_copy_lem n) b cells s le)
      (λ cs t all _. (all, Extended-refl b t))
deep_copy_lem (suc n) b (Value.array vs) s le =
    Copied-then b _ _ s _ _ (copy_values_lem (deep_copy n) (deep_copy_lem n) b vs s le)
      (λ ws t all _. (all, Extended-refl b t))
deep_copy_lem (suc n) b (Value.fmt_str fragments vs) s le =
    Copied-then b _ _ s _ _ (copy_values_lem (deep_copy n) (deep_copy_lem n) b vs s le)
      (λ ws t all _. (all, Extended-refl b t))
deep_copy_lem (suc n) b (Value.field x) s le = (tt, Extended-refl b s)
deep_copy_lem (suc n) b (Value.int x) s le = (tt, Extended-refl b s)
deep_copy_lem (suc n) b (Value.bool x) s le = (tt, Extended-refl b s)
deep_copy_lem (suc n) b Value.unit s le = (tt, Extended-refl b s)
deep_copy_lem (suc n) b (Value.str x) s le = (tt, Extended-refl b s)
deep_copy_lem (suc n) b (Value.function x) s le = (tt, Extended-refl b s)
deep_copy_lem (suc n) b (Value.ref a x) s le = (tt, Extended-refl b s)
