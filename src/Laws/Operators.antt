-- ===== src/Laws/Operators.antt =====
-- src/eval.rs and src/input.rs: what the operators on machine integers return.
use ast_interpreter.Base.{
  ℕ, zero, suc, ◌^◌, ◌<◌, ◌≡◌, ◌≢◌, refl, ◌⊎◌, inl, inr, Bool, true, false, String, Option, none,
  some, ltb, if◌then◌else◌, arith, Bool-cases,
}
use ast_interpreter.Base.Int.{ℤ, eqb_ℤ, pos, nat_abs, ◌+ℤ◌, ◌-ℤ◌, ◌*ℤ◌}
use ast_interpreter.Error.{InterpretError, Result, ok, err, panic, overflow, invalid_input, ◌>>=◌}
use ast_interpreter.Value.Ints.{
  IntValue, int_value, canonical, checked, range, half_range, unsigned_repr,
}
use ast_interpreter.Value.Wrap.{InRange, wrap_lem, checked_lem, pow2_pos}
use ast_interpreter.Value.Pattern.{IsCanonical}
use ast_interpreter.Value.Data.{Value}
use ast_interpreter.Ast.{BinaryOpKind}
use ast_interpreter.Eval.Scalar.{
  shift_amount, int_comparator, int_remainder, int_quotient, quotient, remainder, int_shift_left,
  int_shift_right, int_operator, eval_int_binary,
}
use ast_interpreter.Input.{check_int}

-- A result that is canonical and of the type of `a`, or an error.
unfoldable pub Typed : IntValue → Result IntValue → Type 0
Typed a (ok i) = IsCanonical i × (i.signed ≡ a.signed) × (i.bits ≡ a.bits)
Typed a (err e) = Unit
Typed a panic = ⊥

error-Typed : (a : IntValue) (e : InterpretError) → Typed a (err e)
unfolding Typed
error-Typed a e = tt

canonical-Typed : (a : IntValue) (raw : ℤ) → 0 < a.bits → Typed a (canonical a.signed a.bits raw)
unfolding canonical Typed
canonical-Typed a raw h =
    let (v, e, r, c) = wrap_lem a.signed a.bits raw h in
    rw e (record { has_bits = h; in_range = r }, refl, refl)

checked-Typed :
    (a : IntValue) (raw : ℤ) (op : String) → 0 < a.bits → Typed a (checked a.signed a.bits raw op)
unfolding Typed
checked-Typed a raw op h = elim (checked_lem a.signed a.bits raw op h) [
  | inl (r, e) ↦ rw e (record { has_bits = h; in_range = r }, refl, refl)
  | inr (r, e) ↦ rw e tt
]

Typed-if :
    (a : IntValue) (b : Bool) (r r' : Result IntValue)
    → Typed a r
    → Typed a r'
    → Typed a (if b then r else r')
Typed-if a true r r' p q = p
Typed-if a false r r' p q = q

range_lem :
    (signed : Bool) (bits : ℕ) → 0 < bits → (lo : ℤ) × (hi : ℤ) × (range signed bits ≡ ok (lo, hi))
unfolding range half_range
range_lem false bits h = (_, _, refl)
range_lem true zero h = absurd (omega arith)
range_lem true (suc bits) h = (_, _, refl)

shift_amount_lem :
    (b : IntValue) → ((n : ℕ) × (shift_amount b ≡ ok n)) ⊎ (shift_amount b ≡ err (overflow "shift"))
unfolding shift_amount
shift_amount_lem b = elim (Bool-cases (ltb (nat_abs (unsigned_repr b)) (2 ^ 64))) [
  | inl e ↦ inl (nat_abs (unsigned_repr b), rw e)
  | inr e ↦ inr (rw e)
]

Result_then :
    {A : Type 0} (a : IntValue) (r : Result A) (k : A → Result IntValue)
    → (r ≢ panic)
    → ((x : A) → Typed a (k x))
    → Typed a (r >>= k)
unfolding Typed
Result_then a (ok x) k h t = t x
Result_then a (err e) k h t = tt
Result_then a panic k h t = h refl

shift_amount-no_panic : (b : IntValue) → shift_amount b ≢ panic
unfolding shift_amount
shift_amount-no_panic b e = ground arith

range-no_panic : (signed : Bool) (bits : ℕ) → 0 < bits → range signed bits ≢ panic
unfolding range half_range
range-no_panic false bits h e = ground arith
range-no_panic true zero h e = absurd (omega arith)
range-no_panic true (suc bits) h e = ground arith

-- `r` is the exact result `raw`, or an overflow because `raw` is not in the range of the type of `a`.
abbrev pub Exact : IntValue → ℤ → Result IntValue → String → Type 0
Exact a raw r op =
    (InRange a.signed a.bits raw × (r ≡ ok (int_value a.signed a.bits raw)))
    ⊎ ((¬ InRange a.signed a.bits raw) × (r ≡ err (overflow op)))

int_operator-Typed :
    (op : BinaryOpKind) (a b : IntValue)
    → 0 < a.bits
    → int_comparator op a.value b.value ≡ none
    → Typed a (int_operator op a b)
unfolding int_operator int_comparator int_quotient int_remainder quotient remainder int_shift_left
    int_shift_right
int_operator-Typed BinaryOpKind.add a b h e = checked-Typed a _ _ h
int_operator-Typed BinaryOpKind.subtract a b h e = checked-Typed a _ _ h
int_operator-Typed BinaryOpKind.multiply a b h e = checked-Typed a _ _ h
int_operator-Typed BinaryOpKind.divide a b h e = elim (Bool-cases (eqb_ℤ b.value (pos 0))) [
  | inl z ↦ rw z (error-Typed a _)
  | inr z ↦ rw z (checked-Typed a _ _ h)
]
int_operator-Typed BinaryOpKind.modulo a b h e = elim (Bool-cases (eqb_ℤ b.value (pos 0))) [
  | inl z ↦ rw z (error-Typed a _)
  | inr z ↦ rw z (
      Result_then a _ _ (range-no_panic a.signed a.bits h)
        (λ (lo, hi). Typed-if a _ _ _ (error-Typed a _) (canonical-Typed a _ h)))
]
int_operator-Typed BinaryOpKind.and a b h e = canonical-Typed a _ h
int_operator-Typed BinaryOpKind.or a b h e = canonical-Typed a _ h
int_operator-Typed BinaryOpKind.xor a b h e = canonical-Typed a _ h
int_operator-Typed BinaryOpKind.shift_left a b h e =
    Result_then a _ _ (shift_amount-no_panic b)
      (λ n. Typed-if a _ _ _ (error-Typed a _) (canonical-Typed a _ h))
int_operator-Typed BinaryOpKind.shift_right a b h e =
    Result_then a _ _ (shift_amount-no_panic b)
      (λ n. Typed-if a _ _ _ (error-Typed a _) (canonical-Typed a _ h))
int_operator-Typed BinaryOpKind.equal a b h e = ground arith
int_operator-Typed BinaryOpKind.not_equal a b h e = ground arith
int_operator-Typed BinaryOpKind.less a b h e = ground arith
int_operator-Typed BinaryOpKind.less_equal a b h e = ground arith
int_operator-Typed BinaryOpKind.greater a b h e = ground arith
int_operator-Typed BinaryOpKind.greater_equal a b h e = ground arith

-- What an operator may answer: a Boolean, a canonical integer of the type of `a`, or an error.
abbrev pub Answer : {F : Type 0} → IntValue → Result (Value F) → Type 0
Answer a (ok (Value.bool c)) = Unit
Answer a (ok (Value.int i)) = IsCanonical i × (i.signed ≡ a.signed) × (i.bits ≡ a.bits)
Answer a (ok _) = ⊥
Answer a (err e) = Unit
Answer a panic = ⊥

Answer-of_Typed :
    (F : Type 0) (a : IntValue) (r : Result IntValue)
    → Typed a r
    → Answer {F = F} a (r >>= (λ i. ok (Value.int i)))
unfolding Typed
Answer-of_Typed F a (ok i) t = t
Answer-of_Typed F a (err e) t = tt
Answer-of_Typed F a panic t = t

Answer-by_kind :
    (F : Type 0) (op : BinaryOpKind) (a b : IntValue) (o : Option Bool)
    → 0 < a.bits
    → int_comparator op a.value b.value ≡ o
    → Answer {F = F} a (elim o [
      | some c ↦ ok (Value.bool c)
      | none ↦ int_operator op a b >>= (λ i. ok (Value.int i))
    ])
Answer-by_kind F op a b (some c) h e = tt
Answer-by_kind F op a b none h e = Answer-of_Typed F a _ (int_operator-Typed op a b h e)

Answer-if :
    {F : Type 0} (a : IntValue) (c : Bool) (e : InterpretError) (r : Result (Value F))
    → Answer a r
    → Answer a (if c then err e else r)
Answer-if a true e r h = tt
Answer-if a false e r h = h

-- On a type of at least one bit, a binary operator never panics: it answers with a Boolean, with an
-- integer in the range of the left operand's type and of that type, or with an error.
pub eval_int_binary-Answer :
    (F : Type 0) (op : BinaryOpKind) (a b : IntValue)
    → 0 < a.bits
    → Answer {F = F} a (eval_int_binary op a b)
unfolding eval_int_binary
eval_int_binary-Answer F op a b h =
    Answer-if a _ _ _ (Answer-by_kind F op a b (int_comparator op a.value b.value) h refl)

-- Sums, differences and products are exact, or errors when the exact result is not in the range of
-- the type.
pub int_operator-Exact :
    (a b : IntValue)
    → 0 < a.bits
    → Exact a (a.value +ℤ b.value) (int_operator BinaryOpKind.add a b) "add"
      × Exact a (a.value -ℤ b.value) (int_operator BinaryOpKind.subtract a b) "subtract"
      × Exact a (a.value *ℤ b.value) (int_operator BinaryOpKind.multiply a b) "multiply"
unfolding int_operator
int_operator-Exact a b h = (
  checked_lem a.signed a.bits _ _ h,
  checked_lem a.signed a.bits _ _ h,
  checked_lem a.signed a.bits _ _ h,
)

check_int-InRange :
    (signed : Bool) (bits : ℕ) (v : ℤ)
    → 0 < bits
    → (InRange signed bits v × (check_int (int_value signed bits v) ≡ ok tt))
      ⊎ ((¬ InRange signed bits v)
          × (check_int (int_value signed bits v)
              ≡ err (invalid_input "integer input is not a value of ")))
unfolding check_int range half_range ◌-ℤ◌
check_int-InRange false bits v h = let k = pow2_pos bits in ground arith
check_int-InRange true zero v h = absurd (omega arith)
check_int-InRange true (suc bits) v h = let k = pow2_pos bits in ground arith

check_int_empty :
    (signed : Bool) (v : ℤ)
    → check_int (int_value signed 0 v)
      ≡ err (invalid_input "integer input declares the empty type ")
unfolding check_int
check_int_empty signed v = refl

check_int_at :
    (signed : Bool) (bits : ℕ) (v : ℤ)
    → (IsCanonical (int_value signed bits v) × (check_int (int_value signed bits v) ≡ ok tt))
      ⊎ ((¬ IsCanonical (int_value signed bits v))
          × (text : String) × (check_int (int_value signed bits v) ≡ err (invalid_input text)))
check_int_at signed zero v =
    inr ((λ c. absurd (omega (arith, c.has_bits))), _, check_int_empty signed v)
check_int_at signed (suc bits) v = elim (check_int-InRange signed (suc bits) v (omega arith)) [
  | inl (r, e) ↦ inl (record { has_bits = omega arith; in_range = r }, e)
  | inr (r, e) ↦ inr ((λ c. r c.in_range), _, e)
]

-- The check of an integer input accepts exactly the canonical integers, refuses every other with an
-- invalid input, and never panics.
pub check_int_lem :
    (int : IntValue)
    → (IsCanonical int × (check_int int ≡ ok tt))
      ⊎ ((¬ IsCanonical int) × (text : String) × (check_int int ≡ err (invalid_input text)))
check_int_lem int = check_int_at int.signed int.bits int.value
