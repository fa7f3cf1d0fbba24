-- ===== src/Laws/Comparison.antt =====
-- src/diff.rs: what the comparison of values across fields sees.
use ast_interpreter.Base.{
  ℕ, suc, ◌≡◌, refl, sym, ap, ◌∙◌, ◌↔◌, inl, inr, Bool, true, [], ◌==◌, Bool-cases, ==_iff,
  if◌then◌else◌, arith,
}
use ast_interpreter.Base.Int.{ℤ, eqb_ℤ, eqb_ℤ→eq}
use ast_interpreter.Base.Search.{eqb_text_iff}
use ast_interpreter.Eval.Scalar.{eqb_Bool}
use ast_interpreter.Diff.Values.{DiffValue, DiffValues}
use ast_interpreter.Diff.Compare.{
  Aggregate, Mismatch, Comparison, same, differs, same_if, count, located, values_equivalent,
  elements_equivalent, length_differs,
}

-- The value with every `Field` payload dropped.
mutual
  pub erase : DiffValue → DiffValue
  erase (DiffValue.field _) = DiffValue.field []
  erase (DiffValue.array xs) = DiffValue.array (erase_all xs)
  erase (DiffValue.tuple xs) = DiffValue.tuple (erase_all xs)
  erase v = v

  pub erase_all : DiffValues → DiffValues
  erase_all DiffValues.none = DiffValues.none
  erase_all (DiffValues.more x xs) = DiffValues.more (erase x) (erase_all xs)

pub eqb_Bool_iff : (a b : Bool) → (eqb_Bool a b ≡ true) ↔ (a ≡ b)
eqb_Bool_iff a b = ground arith

pub eqb_ℤ_iff : (a b : ℤ) → (eqb_ℤ a b ≡ true) ↔ (a ≡ b)
eqb_ℤ_iff a b = (eqb_ℤ→eq a b, λ e. rw e (ground arith))

count-erase_all : (xs : DiffValues) → count (erase_all xs) ≡ count xs
unfolding count erase_all
count-erase_all DiffValues.none = refl
count-erase_all (DiffValues.more x xs) = ap suc (count-erase_all xs)

same_iff : (b : Bool) (m : Mismatch) → (same_if b m ≡ same) ↔ (b ≡ true)
same_iff b m = ground arith

located_iff :
    (kind : Aggregate) (i : ℕ) (c d : Comparison)
    → (located kind i c d ≡ same) ↔ ((c ≡ same) × (d ≡ same))
located_iff kind i c d = ground arith

pub more_iff :
    (x y : DiffValue) (xs ys : DiffValues)
    → (DiffValues.more x xs ≡ DiffValues.more y ys) ↔ ((x ≡ y) × (xs ≡ ys))
more_iff x y xs ys = ground arith

pub array_iff : (xs ys : DiffValues) → (DiffValue.array xs ≡ DiffValue.array ys) ↔ (xs ≡ ys)
array_iff xs ys = ground arith

pub tuple_iff : (xs ys : DiffValues) → (DiffValue.tuple xs ≡ DiffValue.tuple ys) ↔ (xs ≡ ys)
tuple_iff xs ys = ground arith

-- The test of the lengths changes nothing of the answer.
guarded_iff :
    (m : Mismatch) (each : Comparison) (xs ys : DiffValues)
    → (count xs ≡ count ys → (each ≡ same) ↔ (erase_all xs ≡ erase_all ys))
    → ((if count xs == count ys then each else differs m) ≡ same) ↔ (erase_all xs ≡ erase_all ys)
guarded_iff m each xs ys h =
    let lengths : erase_all xs ≡ erase_all ys → count xs ≡ count ys =
      λ e. sym (count-erase_all xs) ∙ ap count e ∙ count-erase_all ys in
    elim (Bool-cases (count xs == count ys)) [
      | inl e ↦ let k = h ((==_iff (count xs) (count ys)).0 e) in rw e k
      | inr n ↦ (λ e. ground arith, λ e. let c = lengths e in ground arith)
    ]

mutual
  unfolding values_equivalent erase elements_equivalent erase_all count

  pub values_iff : (x y : DiffValue) → (values_equivalent x y ≡ same) ↔ (erase x ≡ erase y)
  values_iff (DiffValue.field x) (DiffValue.field y) = (λ _. refl, λ _. refl)
  values_iff DiffValue.function DiffValue.function = (λ _. refl, λ _. refl)
  values_iff DiffValue.unit DiffValue.unit = (λ _. refl, λ _. refl)
  values_iff (DiffValue.bool x) (DiffValue.bool y) = ground (arith, eqb_Bool_iff x y)
  values_iff (DiffValue.str x) (DiffValue.str y) = ground (arith, eqb_text_iff x y)
  values_iff (DiffValue.bytes x) (DiffValue.bytes y) = ground (arith, eqb_text_iff x y)
  values_iff (DiffValue.int s b v) (DiffValue.int t c w) =
      ground (arith, eqb_Bool_iff s t, eqb_ℤ_iff v w)
  values_iff (DiffValue.array xs) (DiffValue.array ys) =
      let k =
        guarded_iff (length_differs Aggregate.array (count xs) (count ys))
          (elements_equivalent Aggregate.array 0 xs ys) xs ys
          (elements_iff Aggregate.array 0 xs ys) in
      let i = array_iff (erase_all xs) (erase_all ys) in (λ h. i.1 (k.0 h), λ h. k.1 (i.0 h))
  values_iff (DiffValue.tuple xs) (DiffValue.tuple ys) =
      let k =
        guarded_iff (length_differs Aggregate.tuple (count xs) (count ys))
          (elements_equivalent Aggregate.tuple 0 xs ys) xs ys
          (elements_iff Aggregate.tuple 0 xs ys) in
      let i = tuple_iff (erase_all xs) (erase_all ys) in (λ h. i.1 (k.0 h), λ h. k.1 (i.0 h))
  values_iff _ _ = ground arith

  pub elements_iff :
      (kind : Aggregate) (i : ℕ) (xs ys : DiffValues)
      → count xs ≡ count ys
      → (elements_equivalent kind i xs ys ≡ same) ↔ (erase_all xs ≡ erase_all ys)
  elements_iff kind i DiffValues.none DiffValues.none e = (λ _. refl, λ _. refl)
  elements_iff kind i DiffValues.none (DiffValues.more y ys) e = absurd (omega arith)
  elements_iff kind i (DiffValues.more x xs) DiffValues.none e = absurd (omega arith)
  elements_iff kind i (DiffValues.more x xs) (DiffValues.more y ys) e =
      let first = values_iff x y in
      let rest = elements_iff kind (suc i) xs ys (omega arith) in
      let both =
        located_iff kind i (values_equivalent x y) (elements_equivalent kind (suc i) xs ys) in
      let parts = more_iff (erase x) (erase y) (erase_all xs) (erase_all ys) in
      (
        λ h. let (f, r) = both.0 h in parts.1 (first.0 f, rest.0 r),
        λ h. let (f, r) = parts.0 h in both.1 (first.1 f, rest.1 r),
      )

-- Two values compare as equivalent exactly when they are equal up to the payloads of `Field` values.
pub values_equivalent_iff : (x y : DiffValue) → (values_equivalent x y ≡ same) ↔ (erase x ≡ erase y)
values_equivalent_iff = values_iff
