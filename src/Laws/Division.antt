-- ===== src/Laws/Division.antt =====
-- src/eval.rs: the quotient and the remainder of machine integers.
use native.Mathlib.Nat.{mod-lt, div-add-mod, div-le_self, div-lt_self, div-one, mod-le}
use ast_interpreter.Base.{
  ℕ, zero, suc, ◌*◌, ◌/◌, ◌^◌, ◌<◌, ◌≤◌, ◌≡◌, refl, ◌∙◌, ◌⊎◌, inl, inr, Bool, true, false,
  if◌then◌else◌, ◌&&◌, arith, String,
}
use ast_interpreter.Base.Int.{
  ℤ, pos, negsuc, pos_part, neg_part, nat_abs, tdiv, tmod, ◌+ℤ◌, ◌*ℤ◌, eqb_ℤ, negate,
}
use ast_interpreter.Error.{Result, ok, err, overflow}
use ast_interpreter.Value.Ints.{IntValue, int_value, range, half_range, canonical, checked, pow2}
use ast_interpreter.Value.Wrap.{InRange, pow2_pos, pow2_suc, wrap-fixed, checked_lem}
use ast_interpreter.Value.Pattern.{IsCanonical}
use ast_interpreter.Eval.Scalar.{int_quotient, quotient, remainder, int_remainder}

-- `r` is the remainder of a division of `a` by `b` that rounds toward zero, and `q` its quotient.
pub record IsDivision (a b q r : ℤ) : Type 0 where
  pub recomposed : a ≡ q *ℤ b +ℤ r
  pub small : nat_abs r < nat_abs b
  pub above : neg_part a ≡ 0 → neg_part r ≡ 0
  pub below : pos_part a ≡ 0 → pos_part r ≡ 0

recomposed_lem : (a b : ℤ) → 0 < nat_abs b → a ≡ tdiv a b *ℤ b +ℤ tmod a b
unfolding tdiv tmod ◌+ℤ◌ ◌*ℤ◌
recomposed_lem (pos n) (pos m) h = ground (arith, div-add-mod n m)
recomposed_lem (pos n) (negsuc m) h = ground (arith, div-add-mod n (suc m))
recomposed_lem (negsuc n) (pos m) h = ground (arith, div-add-mod (suc n) m)
recomposed_lem (negsuc n) (negsuc m) h = ground (arith, div-add-mod (suc n) (suc m))

small_lem : (a b : ℤ) → 0 < nat_abs b → nat_abs (tmod a b) < nat_abs b
unfolding tmod
small_lem (pos n) b h = ground (arith, mod-lt n h)
small_lem (negsuc n) b h = ground (arith, mod-lt (suc n) h)

tmod_parts : (a b : ℤ) → (pos_part (tmod a b) ≤ pos_part a) × (neg_part (tmod a b) ≤ neg_part a)
unfolding tmod
tmod_parts (pos n) b = ground (arith, mod-le n (nat_abs b))
tmod_parts (negsuc n) b = ground (arith, mod-le (suc n) (nat_abs b))

tdiv-IsDivision : (a b : ℤ) → 0 < nat_abs b → IsDivision a b (tdiv a b) (tmod a b)
tdiv-IsDivision a b h = record {
  recomposed = recomposed_lem a b h;
  small = small_lem a b h;
  above = λ e. omega (arith, tmod_parts a b);
  below = λ e. omega (arith, tmod_parts a b);
}

tmod-InRange :
    (signed : Bool) (bits : ℕ) (a b : ℤ) → InRange signed bits a → InRange signed bits (tmod a b)
tmod-InRange false bits a b h = let p = tmod_parts a b in (omega arith, omega arith)
tmod-InRange true zero a b h = absurd h
tmod-InRange true (suc bits) a b h = let p = tmod_parts a b in (omega arith, omega arith)

-- The one quotient that leaves the range of a signed type.
abbrev IsMinByMinusOne : ℕ → ℤ → ℤ → Type 0
IsMinByMinusOne bits a b = (neg_part a ≡ 2 ^ bits) × (b ≡ negsuc 0)

signed_quotient :
    (bits : ℕ) (a b : ℤ)
    → InRange true (suc bits) a
    → 0 < nat_abs b
    → (IsMinByMinusOne bits a b × ¬ InRange true (suc bits) (tdiv a b))
      ⊎ ((¬ IsMinByMinusOne bits a b) × InRange true (suc bits) (tdiv a b))
unfolding tdiv
signed_quotient bits (pos n) (pos m) r h =
    let p = pow2_pos bits in inr (λ (e, f). absurd (omega arith), ground (arith, div-le_self n m))
signed_quotient bits (pos n) (negsuc m) r h =
    let p = pow2_pos bits in
    inr (λ (e, f). absurd (omega arith), ground (arith, div-le_self n (suc m)))
signed_quotient bits (negsuc n) (pos m) r h =
    inr (λ (e, f). ground arith, ground (arith, div-le_self (suc n) m))
signed_quotient bits (negsuc n) (negsuc zero) r h = ground (arith, div-one (suc n))
signed_quotient bits (negsuc n) (negsuc (suc m)) r h =
    let lt : suc n / suc (suc m) < suc n = div-lt_self (omega arith) (omega arith) in
    inr (λ (e, f). ground arith, ground arith)

nonzero_test : (b : ℤ) → 0 < nat_abs b → eqb_ℤ b (pos 0) ≡ false
nonzero_test b h = ground arith

unsigned_quotient :
    (bits : ℕ) (a b : ℤ) → InRange false bits a → neg_part b ≡ 0 → InRange false bits (tdiv a b)
unfolding tdiv
unsigned_quotient bits (pos n) (pos m) r h = ground (arith, div-le_self n m)
unsigned_quotient bits (pos n) (negsuc m) r h = absurd (omega arith)
unsigned_quotient bits (negsuc n) b r h = absurd (omega arith)

quotient-InRange :
    (signed : Bool) (bits : ℕ) (raw : ℤ) (op : String)
    → 0 < bits
    → InRange signed bits raw
    → checked signed bits raw op ≡ ok (int_value signed bits raw)
quotient-InRange signed bits raw op h r = elim (checked_lem signed bits raw op h) [
  | inl (_, e) ↦ e
  | inr (n, _) ↦ absurd (n r)
]

quotient_out_of_range :
    (signed : Bool) (bits : ℕ) (raw : ℤ) (op : String)
    → 0 < bits
    → ¬ InRange signed bits raw
    → checked signed bits raw op ≡ err (overflow op)
quotient_out_of_range signed bits raw op h n = elim (checked_lem signed bits raw op h) [
  | inl (r, _) ↦ absurd (n r)
  | inr (_, e) ↦ e
]

canonical_remainder :
    (signed : Bool) (bits : ℕ) (a b : ℤ)
    → 0 < bits
    → InRange signed bits a
    → canonical signed bits (tmod a b) ≡ ok (int_value signed bits (tmod a b))
unfolding canonical
canonical_remainder signed bits a b h r =
    rw (wrap-fixed signed bits (tmod a b) h (tmod-InRange signed bits a b r))

-- The quotient and the remainder, or the overflow of the least value divided by -1.
abbrev pub Divided : (signed : Bool) (bits : ℕ) (a b : ℤ) (q r : Result IntValue) → Type 0
Divided signed bits a b q r =
    ((x : ℤ) × (y : ℤ) × (q ≡ ok (int_value signed bits x))
      × (r ≡ ok (int_value signed bits y))
      × InRange signed bits x
      × InRange signed bits y
      × IsDivision a b x y)
    ⊎ ((signed ≡ true)
        × (2 * neg_part a ≡ 2 ^ bits)
        × (b ≡ negsuc 0)
        × (q ≡ err (overflow "divide"))
        × (r ≡ err (overflow "calculate the remainder")))

remainder_unsigned :
    (bits : ℕ) (a b : ℤ) (divisor : IntValue)
    → divisor.value ≡ b
    → 0 < nat_abs b
    → int_remainder (int_value false bits a) divisor ≡ canonical false bits (tmod a b)
unfolding int_remainder remainder range
remainder_unsigned bits a b divisor e h = rw e (rw (nonzero_test b h))

min_test :
    (bits : ℕ) (a b : ℤ)
    → InRange true (suc bits) a
    → IsMinByMinusOne bits a b
    → (eqb_ℤ a (negate (pow2 bits)) && eqb_ℤ b (negsuc 0)) ≡ true
min_test bits a b r h = let p = pow2_pos bits in ground arith

not_min_test :
    (bits : ℕ) (a b : ℤ)
    → ¬ IsMinByMinusOne bits a b
    → (eqb_ℤ a (negate (pow2 bits)) && eqb_ℤ b (negsuc 0)) ≡ false
not_min_test bits a b h = let p = pow2_pos bits in ground arith

remainder_signed :
    (bits : ℕ) (a b : ℤ) (divisor : IntValue)
    → divisor.value ≡ b
    → 0 < nat_abs b
    → int_remainder (int_value true (suc bits) a) divisor ≡ (
        if eqb_ℤ a (negate (pow2 bits)) && eqb_ℤ b (negsuc 0)
        then err (overflow "calculate the remainder")
        else canonical true (suc bits) (tmod a b))
unfolding int_remainder remainder range half_range
remainder_signed bits a b divisor e h = rw e (rw (nonzero_test b h))

quotient_lem :
    (signed : Bool) (bits : ℕ) (a b : ℤ) (divisor : IntValue)
    → divisor.value ≡ b
    → 0 < nat_abs b
    → int_quotient (int_value signed bits a) divisor ≡ checked signed bits (tdiv a b) "divide"
unfolding int_quotient quotient
quotient_lem signed bits a b divisor e h = rw e (rw (nonzero_test b h))

Divided-unsigned :
    (bits : ℕ) (a b : ℤ) (divisor : IntValue)
    → divisor.value ≡ b
    → 0 < bits
    → InRange false bits a
    → neg_part b ≡ 0
    → 0 < nat_abs b
    → Divided false bits a b
        (int_quotient (int_value false bits a) divisor)
        (int_remainder (int_value false bits a) divisor)
Divided-unsigned bits a b divisor e w r n h =
    let x = unsigned_quotient bits a b r n in
    inl (
      tdiv a b,
      tmod a b,
      quotient_lem false bits a b divisor e h ∙ quotient-InRange false bits _ _ w x,
      remainder_unsigned bits a b divisor e h ∙ canonical_remainder false bits a b w r,
      x,
      tmod-InRange false bits a b r,
      tdiv-IsDivision a b h,
    )

Divided-signed :
    (bits : ℕ) (a b : ℤ) (divisor : IntValue)
    → divisor.value ≡ b
    → InRange true (suc bits) a
    → 0 < nat_abs b
    → Divided true
        (suc bits)
        a
        b
        (int_quotient (int_value true (suc bits) a) divisor)
        (int_remainder (int_value true (suc bits) a) divisor)
Divided-signed bits a b divisor e r h = elim (signed_quotient bits a b r h) [
  | inl (m, out) ↦ inr (
    refl,
    omega (arith, pow2_suc bits, m.0),
    m.1,
    quotient_lem true (suc bits) a b divisor e h
        ∙ quotient_out_of_range true (suc bits) _ _ (omega arith) out,
    remainder_signed bits a b divisor e h ∙ rw (min_test bits a b r m),
  )
  | inr (m, x) ↦ inl (
    tdiv a b,
    tmod a b,
    quotient_lem true (suc bits) a b divisor e h
        ∙ quotient-InRange true (suc bits) _ _ (omega arith) x,
    remainder_signed bits a b divisor e h
        ∙ rw (not_min_test bits a b m) (canonical_remainder true (suc bits) a b (omega arith) r),
    x,
    tmod-InRange true (suc bits) a b r,
    tdiv-IsDivision a b h,
  )
]

Divided-at :
    (signed : Bool) (bits : ℕ) (a b : ℤ) (divisor : IntValue)
    → divisor.value ≡ b
    → 0 < bits
    → InRange signed bits a
    → InRange signed bits b
    → 0 < nat_abs b
    → Divided signed bits a b
        (int_quotient (int_value signed bits a) divisor)
        (int_remainder (int_value signed bits a) divisor)
Divided-at false bits a b divisor e w r s h = Divided-unsigned bits a b divisor e w r s.0 h
Divided-at true zero a b divisor e w r s h = absurd r
Divided-at true (suc bits) a b divisor e w r s h = Divided-signed bits a b divisor e r h

-- For canonical integers of one type and a divisor that is not zero, the quotient and the remainder are
-- values of the type that make up the dividend, with a remainder smaller than the divisor and of the
-- dividend's sign; or both are overflows, since the least value of a signed type is divided by -1.
pub int_quotient-int_remainder :
    (a b : IntValue)
    → IsCanonical a
    → InRange a.signed a.bits b.value
    → 0 < nat_abs b.value
    → Divided a.signed a.bits a.value b.value (int_quotient a b) (int_remainder a b)
int_quotient-int_remainder a b c r h =
    Divided-at a.signed a.bits a.value b.value b refl c.has_bits c.in_range r h
