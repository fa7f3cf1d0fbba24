-- ===== src/Related/Cells.antt =====
-- Copies and walks through cells.
use ast_interpreter.Base.{ℕ, zero, suc, ◌≤◌, Option, none, some, List, [], ◌∷◌, arith}
use ast_interpreter.Value.Data.{Value, Values, nil, cons, Address}
use ast_interpreter.Machine.{M}
use ast_interpreter.Eval.Cells.{
  copy_cells, copy_values, deep_copy, read_copy, read_copies, alloc_all, make_tuple, tuple_field,
  deref, project_reference, tuple_cells_of, paired_cells, write_free, store_cells, store_paired,
  store_held, store_flattened, holds,
}
use ast_interpreter.Related.Closed.{Closed, options, branches}

module _ {F : Type 0} (c : Closed F) where
  abbrev pub CopyRel : (f g : Value F → M F (Value F)) → Type 0
  CopyRel f g = (v : Value F) → c.Rel (f v) (g v)

  pub copy_cells-Rel :
      {f g : Value F → M F (Value F)} (cs : List Address)
      → CopyRel f g
      → c.Rel (copy_cells f cs) (copy_cells g cs)
  unfolding copy_cells
  copy_cells-Rel [] h = c.returns _
  copy_cells-Rel (a ∷ cs) h = c.bind (c.reads a) (λ v.
      c.bind (h v)
        (λ w. c.bind (c.allocs w) (λ b. c.bind (copy_cells-Rel cs h) (λ bs. c.returns _))))

  pub copy_values-Rel :
      {f g : Value F → M F (Value F)} (vs : Values F)
      → CopyRel f g
      → c.Rel (copy_values f vs) (copy_values g vs)
  unfolding copy_values
  copy_values-Rel nil h = c.returns _
  copy_values-Rel (cons v vs) h =
      c.bind (h v) (λ w. c.bind (copy_values-Rel vs h) (λ ws. c.returns _))

  pub deep_copy-Rel : (n m : ℕ) → n ≤ m → CopyRel (deep_copy n) (deep_copy m)
  unfolding deep_copy
  deep_copy-Rel zero m h v = c.starved _
  deep_copy-Rel (suc n) zero h v = absurd (omega arith)
  deep_copy-Rel (suc n) (suc m) h (Value.tuple cells) =
      c.bind (copy_cells-Rel cells (deep_copy-Rel n m (omega arith))) (λ cs. c.returns _)
  deep_copy-Rel (suc n) (suc m) h (Value.array vs) =
      c.bind (copy_values-Rel vs (deep_copy-Rel n m (omega arith))) (λ ws. c.returns _)
  deep_copy-Rel (suc n) (suc m) h (Value.fmt_str fragments vs) =
      c.bind (copy_values-Rel vs (deep_copy-Rel n m (omega arith))) (λ ws. c.returns _)
  deep_copy-Rel (suc n) (suc m) h _ = c.returns _

  pub alloc_all-Rel : (vs : List (Value F)) → c.Rel (alloc_all vs) (alloc_all vs)
  unfolding alloc_all
  alloc_all-Rel [] = c.returns _
  alloc_all-Rel (v ∷ vs) = c.bind (c.allocs v) (λ a. c.bind (alloc_all-Rel vs) (λ as'. c.returns _))

  pub make_tuple-Rel : (vs : List (Value F)) → c.Rel (make_tuple vs) (make_tuple vs)
  unfolding make_tuple
  make_tuple-Rel vs = c.bind (alloc_all-Rel vs) (λ cells. c.returns _)

  pub tuple_cells_of-Rel :
      (n m : ℕ) → n ≤ m → (v : Value F) → c.Rel (tuple_cells_of n v) (tuple_cells_of m v)
  unfolding tuple_cells_of
  tuple_cells_of-Rel zero m h v = c.starved _
  tuple_cells_of-Rel (suc n) zero h v = absurd (omega arith)
  tuple_cells_of-Rel (suc n) (suc m) h (Value.tuple cells) = c.returns _
  tuple_cells_of-Rel (suc n) (suc m) h (Value.ref a _) =
      c.bind (c.reads a) (λ v. tuple_cells_of-Rel n m (omega arith) v)
  tuple_cells_of-Rel (suc n) (suc m) h _ = c.fails _

  pub write_free-Rel :
      (held : List Address) (a : Address) (v : Value F)
      → c.Rel (write_free held a v) (write_free held a v)
  unfolding write_free
  write_free-Rel held a v = branches c (holds a held) c.panicking (c.writes a v)

  pub store_cells-Rel :
      {f g : Address → Value F → M F (Unit {0})} (ts rs : List Address)
      → ((t : Address) (v : Value F) → c.Rel (f t v) (g t v))
      → c.Rel (store_cells f ts rs) (store_cells g ts rs)
  unfolding store_cells
  store_cells-Rel [] rs h = c.returns tt
  store_cells-Rel (t ∷ ts) [] h = c.returns tt
  store_cells-Rel (t ∷ ts) (r ∷ rs) h =
      c.bind (c.reads r) (λ v. c.bind (h t v) (λ _. store_cells-Rel ts rs h))

  pub store_paired-Rel :
      {f g : Address → Value F → M F (Unit {0})} (held : List Address) (target : Address)
      (rhs : Value F) (o : Option (List Address × List Address))
      → ((t : Address) (v : Value F) → c.Rel (f t v) (g t v))
      → c.Rel (store_paired f held target rhs o) (store_paired g held target rhs o)
  unfolding store_paired
  store_paired-Rel held target rhs none h = write_free-Rel held target rhs
  store_paired-Rel held target rhs (some (ts, rs)) h = store_cells-Rel ts rs h

  pub store_held-Rel :
      (n m : ℕ)
      → n ≤ m
      → (held : List Address) (target : Address) (rhs : Value F)
      → c.Rel (store_held n held target rhs) (store_held m held target rhs)
  unfolding store_held
  store_held-Rel zero m h held target rhs = c.starved _
  store_held-Rel (suc n) zero h held target rhs = absurd (omega arith)
  store_held-Rel (suc n) (suc m) h held target rhs = c.bind (c.reads target) (λ old.
      store_paired-Rel held target rhs (paired_cells old rhs)
        (store_held-Rel n m (omega arith) (target ∷ held)))

  pub store_flattened-Rel :
      (n m : ℕ)
      → n ≤ m
      → (target : Address) (rhs : Value F)
      → c.Rel (store_flattened n target rhs) (store_flattened m target rhs)
  unfolding store_flattened
  store_flattened-Rel n m h target rhs = store_held-Rel n m h [] target rhs

module _ {F : Type 0} (c : Closed F) (n m : ℕ) (h : n ≤ m) where
  pub read_copy-Rel : (a : Address) → c.Rel (read_copy n a) (read_copy m a)
  unfolding read_copy
  read_copy-Rel a = c.bind (c.reads a) (λ v. deep_copy-Rel c n m h v)

  pub read_copies-Rel : (cs : List Address) → c.Rel (read_copies n cs) (read_copies m cs)
  unfolding read_copies
  read_copies-Rel [] = c.returns _
  read_copies-Rel (a ∷ cs) =
      c.bind (read_copy-Rel a) (λ v. c.bind (read_copies-Rel cs) (λ vs. c.returns _))

  pub tuple_field-Rel : (v : Value F) (i : ℕ) → c.Rel (tuple_field n v i) (tuple_field m v i)
  unfolding tuple_field
  tuple_field-Rel (Value.tuple cells) i = c.bind (options c _ _) (λ a. read_copy-Rel a)
  tuple_field-Rel _ i = c.fails _

  pub deref-Rel : (v : Value F) → c.Rel (deref n v) (deref m v)
  unfolding deref
  deref-Rel (Value.ref a _) = read_copy-Rel a
  deref-Rel _ = c.fails _

module _ {F : Type 0} (c : Closed F) where
  pub project_reference-Rel :
      (n m : ℕ)
      → n ≤ m
      → (a : Address) (i : ℕ) → c.Rel (project_reference n a i) (project_reference m a i)
  unfolding project_reference
  project_reference-Rel zero m h a i = c.starved _
  project_reference-Rel (suc n) zero h a i = absurd (omega arith)
  project_reference-Rel (suc n) (suc m) h a i = c.bind (c.reads a) (elim [
    | Value.tuple cells ↦ c.bind (options c _ _) (λ field. c.returns _)
    | Value.ref inner _ ↦
        c.bind (project_reference-Rel n m (omega arith) inner i)
          (λ p. c.bind (c.allocs p) (λ b. c.returns _))
    | _ ↦ c.fails _
  ])
