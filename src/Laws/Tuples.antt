-- ===== src/Laws/Tuples.antt =====
-- Tuples and arrays of typed values, as src/input.rs makes them.
use ast_interpreter.Base.{
  ℕ, ◌≡◌, ◌∙◌, List, [], ◌∷◌, ◌++◌, some, get_elem?, get_elem?-append, get_elem?-append_length,
  lt_of_get_elem?,
}
use ast_interpreter.Value.Data.{Value, Values, Address}
use ast_interpreter.Ast.{MonoType, Types}
use ast_interpreter.Host.{Host, FieldId}
use ast_interpreter.Machine.{Machine, Outcome, and_then, pure, alloc}
use ast_interpreter.Eval.Cells.{alloc_all, make_tuple}
use ast_interpreter.Prover.Abi.{InputValues, input_count}
use ast_interpreter.Laws.Typing.{HasType, HaveTypes, Grown, HasType-Grown, ForEach, count_values}
use ast_interpreter.Laws.After.{After, After-then, After-both}

module _ {F : Type 0} (host : Host F) (field : FieldId) where
  abbrev Typed : MonoType → List (Value F) → Value F → Type 0
  Typed type heap v = HasType host field heap type v

  -- Values of a list of types, in order.
  abbrev pub AllTyped : Types → List (Value F) → List (Value F) → Type 0
  AllTyped Types.nil heap [] = Unit
  AllTyped (Types.cons type types) heap (v ∷ vs) = Typed type heap v × AllTyped types heap vs
  AllTyped _ heap _ = ⊥

  AllTyped-Grown :
      (types : Types) (heap later : List (Value F)) (vs : List (Value F))
      → Grown heap later
      → AllTyped types heap vs
      → AllTyped types later vs
  AllTyped-Grown Types.nil heap later [] g h = tt
  AllTyped-Grown (Types.cons type types) heap later (v ∷ vs) g (p, h) =
      (HasType-Grown host field heap later type v g p, AllTyped-Grown types heap later vs g h)
  AllTyped-Grown Types.nil heap later (v ∷ vs) g h = absurd h
  AllTyped-Grown (Types.cons type types) heap later [] g h = absurd h

  -- A cell that holds a value of the type.
  abbrev Holds : MonoType → List (Value F) → Address → Type 0
  Holds type heap c = (v : Value F) × (get_elem? heap c ≡ some v) × Typed type heap v

  Holds-Grown :
      (type : MonoType) (heap later : List (Value F)) (c : Address)
      → Grown heap later
      → Holds type heap c
      → Holds type later c
  Holds-Grown type heap later c g (v, e, h) =
      (v, g c v e, HasType-Grown host field heap later type v g h)

  Grown-append : (heap more : List (Value F)) → Grown heap (heap ++ more)
  Grown-append heap more i v e = get_elem?-append heap more i (lt_of_get_elem? heap i e) ∙ e

  alloc-After :
      (type : MonoType) (v : Value F) (s : Machine F)
      → Typed type s.heap v
      → After (Holds type) s (alloc v s)
  unfolding alloc
  alloc-After type v s h =
      let g = Grown-append s.heap (v ∷ []) in
      (
        g,
        (
          v,
          get_elem?-append_length s.heap [] v,
          HasType-Grown host field s.heap (s.heap ++ v ∷ []) type v g h,
        ),
      )

  alloc_all-After :
      (types : Types) (vs : List (Value F)) (s : Machine F)
      → AllTyped types s.heap vs
      → After (λ heap cells. HaveTypes host field heap types cells) s (alloc_all vs s)
  unfolding alloc_all HaveTypes
  alloc_all-After Types.nil [] s h = (λ i v e. e, tt)
  alloc_all-After (Types.cons type types) (v ∷ vs) s (p, h) =
      After-both (Holds type) (λ heap cells. HaveTypes host field heap types cells)
        (λ heap cells. HaveTypes host field heap (Types.cons type types) cells) s (alloc v s)
        (λ a. alloc_all vs) (λ a cells. a ∷ cells)
        (λ heap later c g k. Holds-Grown type heap later c g k) (λ heap c cells k q. (k, q))
        (alloc-After type v s p)
        (λ a t g k. alloc_all-After types vs t (AllTyped-Grown types s.heap t.heap vs g h))
  alloc_all-After Types.nil (v ∷ vs) s h = absurd h
  alloc_all-After (Types.cons type types) [] s h = absurd h

  make_tuple-After :
      (types : Types) (vs : List (Value F)) (s : Machine F)
      → AllTyped types s.heap vs
      → After (Typed (MonoType.tuple types)) s (make_tuple vs s)
  unfolding make_tuple HasType
  make_tuple-After types vs s h =
      After-then (λ heap cells. HaveTypes host field heap types cells)
        (Typed (MonoType.tuple types)) s (alloc_all vs s) _ (alloc_all-After types vs s h)
        (λ cells t g p. (λ i v e. e, p))

  -- The values that a command makes, then a tuple of them.
  pub tuple-After :
      (types : Types) (o : Outcome F (List (Value F))) (s : Machine F)
      → After (AllTyped types) s o
      → After (Typed (MonoType.tuple types)) s (and_then o make_tuple)
  tuple-After types o s h =
      After-then (AllTyped types) (Typed (MonoType.tuple types)) s o make_tuple h
        (λ vs t g p. make_tuple-After types vs t p)

  pub array-After :
      {S : Type 0} (type : MonoType) (n : ℕ) (elements : InputValues S) (o : Outcome F (Values F))
      (s : Machine F)
      → input_count elements ≡ n
      → After
          (λ heap vs. (count_values vs ≡ input_count elements) × ForEach (Typed type heap) vs)
          s
          o
      → After (Typed (MonoType.array n type)) s (and_then o (λ vs. pure (Value.array vs)))
  unfolding HasType
  array-After type n elements o s e h =
      After-then
        (λ heap vs. (count_values vs ≡ input_count elements) × ForEach (Typed type heap) vs)
        (Typed (MonoType.array n type)) s o _ h (λ vs t g (c, p). (λ i v k. k, (c ∙ e, p)))
