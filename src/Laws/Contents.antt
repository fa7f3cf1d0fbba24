-- ===== src/Laws/Contents.antt =====
-- src/input.rs: what the inputs of a `Prover.toml` are read as.
use ast_interpreter.Base.{
  ℕ, zero, suc, ◌≡◌, ◌<◌, ◌∙◌, refl, Bool, true, false, not, ◌&&◌, String, List, [], ◌∷◌, some,
  ◌==◌, ◌⊎◌, inl, inr, arith, get_elem?, get_elem?-append, get_elem?-append_length, lt_of_get_elem?,
}
use ast_interpreter.Base.Int.{pos}
use ast_interpreter.Error.{InterpretError, ok, panic}
use ast_interpreter.Value.Ints.{IntValue, int_value, canonical, wrap, half_range}
use ast_interpreter.Value.Wrap.{Congruent, wrap_lem}
use ast_interpreter.Value.Pattern.{IsCanonical}
use ast_interpreter.Value.Data.{Value, cons, Address}
use ast_interpreter.Ast.{MonoType}
use ast_interpreter.Host.{FieldId}
use ast_interpreter.Machine.{Machine, Outcome, M, alloc, and_then}
use ast_interpreter.Eval.Cells.{alloc_all, make_tuple}
use ast_interpreter.Prover.Abi.{
  AbiType, InputValue, InputValues, no_inputs, with_input, Bridge, Answer, given, refused,
}
use ast_interpreter.Prover.Bind.{
  scalar_abi_matches, element, field_from, scalar_from, each, takes_scalar, given_or_fail,
}
use ast_interpreter.Laws.Typing.{Grown}
use ast_interpreter.Laws.After.{After, After-then, After-map, After-both, After-ok_or_fail}
use ast_interpreter.Laws.Readings.{CellsHold, EachRead, Reads, Reads-Grown}

pub After-given :
    {F A : Type 0} (error : String → InterpretError) (o : Answer A) (s : Machine F)
    → After (λ heap a. o ≡ given a) s (given_or_fail error o s)
After-given error (given a) s = (λ i v e. e, refl)
After-given error (refused text) s = tt

canonical-Congruent :
    (signed : Bool) (bits n : ℕ)
    → (canonical signed bits (pos n) ≡ panic)
      ⊎ ((i : IntValue) × (canonical signed bits (pos n) ≡ ok i)
          × (i.signed ≡ signed)
          × (i.bits ≡ bits)
          × (0 < bits → IsCanonical i × Congruent bits (pos n) i.value))
unfolding canonical wrap half_range
canonical-Congruent false zero n = inr (_, refl, refl, refl, λ h. absurd (omega arith))
canonical-Congruent true zero n = inl refl
canonical-Congruent signed (suc bits) n =
    let (v, e, r, c) = wrap_lem signed (suc bits) (pos n) (omega arith) in
    inr (
      int_value signed (suc bits) v,
      rw e refl,
      refl,
      refl,
      λ h. (record { has_bits = h; in_range = r }, c),
    )

alloc-Holds :
    {F : Type 0} (v : Value F) (s : Machine F)
    → After (λ heap c. get_elem? heap c ≡ some v) s (alloc v s)
unfolding alloc
alloc-Holds v s = (
  λ i w e. get_elem?-append s.heap (v ∷ []) i (lt_of_get_elem? s.heap i e) ∙ e,
  get_elem?-append_length s.heap [] v,
)

alloc_all-Holds :
    {F : Type 0} (vs : List (Value F)) (s : Machine F)
    → After (λ heap cells. CellsHold heap cells vs) s (alloc_all vs s)
unfolding alloc_all
alloc_all-Holds [] s = (λ i v e. e, tt)
alloc_all-Holds (v ∷ vs) s =
    After-both (λ heap c. get_elem? heap c ≡ some v) (λ heap cells. CellsHold heap cells vs)
      (λ heap cells. CellsHold heap cells (v ∷ vs)) s (alloc v s) (λ a. alloc_all vs)
      (λ a cells. a ∷ cells) (λ heap later c g e. g c v e) (λ heap c cells e q. (e, q))
      (alloc-Holds v s) (λ a t g e. alloc_all-Holds vs t)

pub equal_of_not : (a b : ℕ) → not (a == b) ≡ false → a ≡ b
equal_of_not a b h = ground arith

-- The values that a command makes, then a tuple of them.
pub tuple-Reads :
    {F : Type 0} (P : List (Value F) → List (Value F) → Type 0)
    (Q : List (Value F) → Value F → Type 0) (o : Outcome F (List (Value F))) (s : Machine F)
    → ((heap later : List (Value F)) (vs : List (Value F))
        → Grown heap later
        → P heap vs
        → P later vs)
    → ((heap : List (Value F)) (cells : List Address) (vs : List (Value F))
        → CellsHold heap cells vs
        → P heap vs
        → Q heap (Value.tuple cells))
    → After P s o
    → After Q s (and_then o make_tuple)
unfolding make_tuple
tuple-Reads P Q o s keep join h = After-then P Q s o make_tuple h (λ vs t g p.
    After-then (λ heap cells. CellsHold heap cells vs × P heap vs) Q t (alloc_all vs t) _
      (After-map (λ heap cells. CellsHold heap cells vs)
        (λ heap cells. CellsHold heap cells vs × P heap vs) t (alloc_all vs t)
        (λ cells u g' c. (c, keep t.heap u.heap vs g' p)) (alloc_all-Holds vs t))
      (λ cells u g' (c, q). (λ i v e. e, join u.heap cells vs c q)))

module _ {F S : Type 0} (bridge : Bridge F S) (field : FieldId) where
  abbrev Read : MonoType → AbiType → InputValue S → List (Value F) → Value F → Type 0
  Read type abi x heap v = Reads bridge field heap type abi x v

  element-Given :
      (abi : AbiType) (x : S) (s : Machine F)
      → After
          (λ heap e. bridge.encode_scalar x abi field ≡ given e)
          s
          (element bridge field abi x s)
  unfolding element
  element-Given abi x s = After-given _ (bridge.encode_scalar x abi field) s

  field_abi :
      (abi : AbiType) → not (scalar_abi_matches abi MonoType.field) ≡ false → abi ≡ AbiType.field
  unfolding scalar_abi_matches
  field_abi abi h = ground arith

  bool_abi :
      (abi : AbiType) → not (scalar_abi_matches abi MonoType.bool) ≡ false → abi ≡ AbiType.boolean
  unfolding scalar_abi_matches
  bool_abi abi h = ground arith

  integer_abi :
      (abi : AbiType) (signed : Bool) (bits : ℕ)
      → not (scalar_abi_matches abi (MonoType.integer signed bits)) ≡ false
      → abi ≡ AbiType.integer signed bits
  unfolding scalar_abi_matches
  integer_abi abi signed bits h = ground arith

  pub scalar_from-Reads :
      (abi : AbiType) (x : S) (type : MonoType) (s : Machine F)
      → (takes_scalar type && not (scalar_abi_matches abi type)) ≡ false
      → After (Read type abi (InputValue.scalar x)) s (scalar_from bridge field abi x type s)
  unfolding scalar_from field_from Reads
  scalar_from-Reads abi x MonoType.field s h =
      After-then (λ heap e. bridge.encode_scalar x abi field ≡ given e)
        (Read MonoType.field abi (InputValue.scalar x)) s _ _ (element-Given abi x s)
        (λ e t g p.
          After-then (λ heap f. bridge.try_from_biguint e field ≡ some f)
            (Read MonoType.field abi (InputValue.scalar x)) t _ _
            (After-ok_or_fail (bridge.try_from_biguint e field) _ t)
            (λ f u g' q. (λ i v k. k, (field_abi abi h, (e, p, q)))))
  scalar_from-Reads abi x (MonoType.integer signed bits) s h =
      After-then (λ heap e. bridge.encode_scalar x abi field ≡ given e)
        (Read (MonoType.integer signed bits) abi (InputValue.scalar x)) s _ _
        (element-Given abi x s)
        (λ e t g p. elim (canonical-Congruent signed bits e) [
          | inl k ↦ rw k tt
          | inr (i, k, a, b, c) ↦
              rw k (λ j v w. w, (integer_abi abi signed bits h, (e, p, a, b, c)))
        ])
  scalar_from-Reads abi x MonoType.bool s h =
      After-then (λ heap e. bridge.encode_scalar x abi field ≡ given e)
        (Read MonoType.bool abi (InputValue.scalar x)) s _ _ (element-Given abi x s)
        (λ e t g p. (λ i v k. k, (bool_abi abi h, (e, p, refl))))
  scalar_from-Reads abi x _ s h = tt

  pub each-Reads :
      (read : InputValue S → M F (Value F)) (type : MonoType) (abi : AbiType) (xs : InputValues S)
      (s : Machine F)
      → ((x : InputValue S) (t : Machine F) → After (Read type abi x) t (read x t))
      → After
          (λ heap vs. EachRead (Reads bridge field heap type abi) xs vs)
          s
          (each bridge field read xs s)
  each-Reads read type abi no_inputs s h = (λ i v e. e, tt)
  each-Reads read type abi (with_input x xs) s h =
      After-both (Read type abi x) (λ heap vs. EachRead (Reads bridge field heap type abi) xs vs)
        (λ heap vs. EachRead (Reads bridge field heap type abi) (with_input x xs) vs) s (read x s)
        (λ w. each bridge field read xs) cons
        (λ heap later w g p. Reads-Grown bridge field heap later type abi x w g p)
        (λ heap w ws p q. (p, q)) (h x s) (λ w t g p. each-Reads read type abi xs t h)
