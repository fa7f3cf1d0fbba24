-- ===== src/Laws/Copying.antt =====
-- src/value.rs: the fuel that `Value::deep_copy` takes, by the nesting of the value in the heap.
use mathlib.Core.Path.{subst}
use ast_interpreter.Base.{
  ℕ, zero, suc, ◌≡◌, sym, ap, ◌∙◌, List, [], ◌∷◌, Option, none, some, arith, get_elem?,
  get_elem?-append, lt_of_get_elem?,
}
use ast_interpreter.Value.Data.{Value, Values, nil, cons, Address}
use ast_interpreter.Machine.{
  Machine, Outcome, returned, failed, panicked, out_of_fuel, M, and_then, alloc, read, pure, pure,
}
use ast_interpreter.Eval.Cells.{copy_cells, copy_values, deep_copy}
use ast_interpreter.Copy.{Extended, Copied, deep_copy_lem}

-- Every cell keeps its value.
abbrev Extends : {F : Type 0} → (heap heap' : List (Value F)) → Type 0
Extends {F} heap heap' =
    (i : ℕ) (v : Value F) → get_elem? heap i ≡ some v → get_elem? heap' i ≡ some v

module _ {F : Type 0} where
  abbrev pub AllCells : (Value F → Type 0) → List (Value F) → List Address → Type 0
  AllCells P heap [] = Unit
  AllCells P heap (c ∷ cells) =
      (v : Value F) × (get_elem? heap c ≡ some v) × P v × AllCells P heap cells

  abbrev pub AllValues : (Value F → Type 0) → Values F → Type 0
  AllValues P nil = Unit
  AllValues P (cons v vs) = P v × AllValues P vs

  -- The value nests less than `n` deep, with its tuple cells in the heap.
  abbrev pub NestsBelow : ℕ → List (Value F) → Value F → Type 0
  NestsBelow zero heap v = ⊥
  NestsBelow (suc n) heap (Value.tuple cells) = AllCells (NestsBelow n heap) heap cells
  NestsBelow (suc n) heap (Value.array elements) = AllValues (NestsBelow n heap) elements
  NestsBelow (suc n) heap (Value.fmt_str fragments captures) =
      AllValues (NestsBelow n heap) captures
  NestsBelow (suc n) heap _ = Unit

  abbrev pub IsReturned : {A : Type 0} → Outcome F A → Type 0
  IsReturned (returned a t) = Unit
  IsReturned (failed e t) = ⊥
  IsReturned panicked = ⊥
  IsReturned out_of_fuel = ⊥

  AllCells-mono :
      (P Q : Value F → Type 0) (heap heap' : List (Value F)) (cells : List Address)
      → Extends heap heap'
      → ((v : Value F) → P v → Q v)
      → AllCells P heap cells
      → AllCells Q heap' cells
  AllCells-mono P Q heap heap' [] x f h = tt
  AllCells-mono P Q heap heap' (c ∷ cells) x f (v, e, p, h) =
      (v, x c v e, f v p, AllCells-mono P Q heap heap' cells x f h)

  AllValues-mono :
      (P Q : Value F → Type 0) (vs : Values F)
      → ((v : Value F) → P v → Q v)
      → AllValues P vs
      → AllValues Q vs
  AllValues-mono P Q nil f h = tt
  AllValues-mono P Q (cons v vs) f (p, h) = (f v p, AllValues-mono P Q vs f h)

  NestsBelow-mono :
      (n : ℕ) (heap heap' : List (Value F)) (v : Value F)
      → Extends heap heap'
      → NestsBelow n heap v
      → NestsBelow n heap' v
  NestsBelow-mono zero heap heap' v x h = h
  NestsBelow-mono (suc n) heap heap' (Value.tuple cells) x h =
      AllCells-mono _ _ heap heap' cells x (λ v p. NestsBelow-mono n heap heap' v x p) h
  NestsBelow-mono (suc n) heap heap' (Value.array vs) x h =
      AllValues-mono _ _ vs (λ v p. NestsBelow-mono n heap heap' v x p) h
  NestsBelow-mono (suc n) heap heap' (Value.fmt_str fragments vs) x h =
      AllValues-mono _ _ vs (λ v p. NestsBelow-mono n heap heap' v x p) h
  NestsBelow-mono (suc n) heap heap' (Value.field a) x h = tt
  NestsBelow-mono (suc n) heap heap' (Value.int a) x h = tt
  NestsBelow-mono (suc n) heap heap' (Value.bool a) x h = tt
  NestsBelow-mono (suc n) heap heap' Value.unit x h = tt
  NestsBelow-mono (suc n) heap heap' (Value.str a) x h = tt
  NestsBelow-mono (suc n) heap heap' (Value.function a) x h = tt
  NestsBelow-mono (suc n) heap heap' (Value.ref a b) x h = tt

  Extended-Extends : {b : ℕ} {s t : Machine F} → Extended b s t → Extends s.heap t.heap
  Extended-Extends {b} {s} {t} p i v e = p.old i (lt_of_get_elem? s.heap i e) ∙ e

  IsReturned-then :
      {A B : Type 0} (b : ℕ) (P : A → Type 0) (s : Machine F) (o : Outcome F A) (k : A → M F B)
      → Copied b P s o
      → IsReturned o
      → ((a : A) (t : Machine F) → Extends s.heap t.heap → IsReturned (k a t))
      → IsReturned (and_then o k)
  IsReturned-then b P s (returned a t) k (p, x) r h = h a t (Extended-Extends x)
  IsReturned-then b P s (failed e t) k p r h = absurd r
  IsReturned-then b P s panicked k p r h = absurd r
  IsReturned-then b P s out_of_fuel k p r h = absurd r

  IsReturned-map :
      {A B : Type 0} (o : Outcome F A) (f : A → B)
      → IsReturned o
      → IsReturned (and_then o (λ a. pure (f a)))
  IsReturned-map (returned a t) f h = tt
  IsReturned-map (failed e t) f h = h
  IsReturned-map panicked f h = h
  IsReturned-map out_of_fuel f h = h

  alloc-Extends :
      (v : Value F) (s : Machine F) (k : Address → M F (List Address))
      → ((a : Address) (t : Machine F) → Extends s.heap t.heap → IsReturned (k a t))
      → IsReturned (and_then (alloc v s) k)
  unfolding alloc
  alloc-Extends v s k h =
      h _ _ (λ i z e. get_elem?-append s.heap (v ∷ []) i (lt_of_get_elem? s.heap i e) ∙ e)

  read_held :
      (c : Address) (v : Value F) (s : Machine F)
      → get_elem? s.heap c ≡ some v
      → read c s ≡ returned v s
  unfolding read
  read_held c v s e =
      ap (λ (o : Option (Value F)). elim o [ none ↦ panicked | some w ↦ returned w s ]) e

  IsReturned-read :
      {A : Type 0} (c : Address) (v : Value F) (s : Machine F) (k : Value F → M F A)
      → get_elem? s.heap c ≡ some v
      → IsReturned (k v s)
      → IsReturned (and_then (read c s) k)
  IsReturned-read c v s k e h = subst (λ o. IsReturned (and_then o k)) (sym (read_held c v s e)) h

  IsReturned-copy_cells :
      (n : ℕ) (cells : List Address) (s : Machine F)
      → ((v : Value F) (t : Machine F) → NestsBelow n t.heap v → IsReturned (deep_copy n v t))
      → AllCells (NestsBelow n s.heap) s.heap cells
      → IsReturned (copy_cells (deep_copy n) cells s)
  unfolding copy_cells
  IsReturned-copy_cells n [] s f h = tt
  IsReturned-copy_cells n (c ∷ cells) s f (v, e, p, h) = IsReturned-read c v s _ e (
      IsReturned-then 0 _ s _ _ (deep_copy_lem n 0 v s (omega arith)) (f v s p) (λ w t x.
        alloc-Extends w t _ (λ a u y.
          IsReturned-map (copy_cells (deep_copy n) cells u) (λ cs. a ∷ cs)
            (IsReturned-copy_cells n cells u f (
              AllCells-mono _ _ s.heap u.heap cells (λ i z q. y i z (x i z q))
                (λ z q. NestsBelow-mono n s.heap u.heap z (λ i z' q'. y i z' (x i z' q')) q) h)))))

  IsReturned-copy_values :
      (n : ℕ) (vs : Values F) (s : Machine F)
      → ((v : Value F) (t : Machine F) → NestsBelow n t.heap v → IsReturned (deep_copy n v t))
      → AllValues (NestsBelow n s.heap) vs
      → IsReturned (copy_values (deep_copy n) vs s)
  unfolding copy_values
  IsReturned-copy_values n nil s f h = tt
  IsReturned-copy_values n (cons v vs) s f (p, h) =
      IsReturned-then 0 _ s _ _ (deep_copy_lem n 0 v s (omega arith)) (f v s p) (λ w t x.
        IsReturned-map (copy_values (deep_copy n) vs t) (λ ws. cons w ws)
          (IsReturned-copy_values n vs t f
            (AllValues-mono _ _ vs (λ z q. NestsBelow-mono n s.heap t.heap z x q) h)))

-- With more fuel than a value nests deep, with its tuple cells in the heap, its deep copy returns a
-- value: it neither runs out of fuel nor fails nor panics.
pub deep_copy-IsReturned :
    {F : Type 0} (n : ℕ) (v : Value F) (s : Machine F)
    → NestsBelow n s.heap v
    → IsReturned (deep_copy n v s)
unfolding deep_copy
deep_copy-IsReturned zero v s h = absurd h
deep_copy-IsReturned (suc n) (Value.tuple cells) s h =
    IsReturned-map (copy_cells (deep_copy n) cells s) (λ cs. Value.tuple cs)
      (IsReturned-copy_cells n cells s (deep_copy-IsReturned n) h)
deep_copy-IsReturned (suc n) (Value.array vs) s h =
    IsReturned-map (copy_values (deep_copy n) vs s) (λ ws. Value.array ws)
      (IsReturned-copy_values n vs s (deep_copy-IsReturned n) h)
deep_copy-IsReturned (suc n) (Value.fmt_str fragments vs) s h =
    IsReturned-map (copy_values (deep_copy n) vs s) (λ ws. Value.fmt_str fragments ws)
      (IsReturned-copy_values n vs s (deep_copy-IsReturned n) h)
deep_copy-IsReturned (suc n) (Value.field a) s h = tt
deep_copy-IsReturned (suc n) (Value.int a) s h = tt
deep_copy-IsReturned (suc n) (Value.bool a) s h = tt
deep_copy-IsReturned (suc n) Value.unit s h = tt
deep_copy-IsReturned (suc n) (Value.str a) s h = tt
deep_copy-IsReturned (suc n) (Value.function a) s h = tt
deep_copy-IsReturned (suc n) (Value.ref a b) s h = tt
