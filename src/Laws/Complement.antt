-- ===== src/Laws/Complement.antt =====
-- src/eval.rs: `!` on machine integers.
use ast_interpreter.Base.{ℕ, ◌-◌, ◌^◌, ◌<◌, ◌≡◌, refl, sym, ap, ◌∙◌, Bool, false, arith}
use ast_interpreter.Base.Int.{ℤ, pos, nat_abs, ◌+ℤ◌, ◌-ℤ◌}
use ast_interpreter.Error.{ok}
use ast_interpreter.Value.Ints.{IntValue, int_value, pow2, wrap, canonical, unsigned_repr}
use ast_interpreter.Value.Wrap.{Congruent, InRange-unique, Congruent-join, wrap_lem, wrap_unique}
use ast_interpreter.Value.Pattern.{IsCanonical, unsigned_repr_lem}
use ast_interpreter.Eval.Operators.{int_not}

Congruent-flip : (bits : ℕ) (a b : ℤ) → Congruent bits a b → Congruent bits b a
Congruent-flip bits a b (p, q, e) = (q, p, omega arith)

-- Two patterns of the same value are equal.
pattern_unique :
    (bits m n : ℕ) (v : ℤ)
    → m < 2 ^ bits
    → n < 2 ^ bits
    → Congruent bits (pos m) v
    → Congruent bits (pos n) v
    → pos m ≡ pos n
pattern_unique bits m n v h k c d =
    InRange-unique false bits (pos m) (pos n) (omega arith, omega arith) (omega arith, omega arith)
      (Congruent-join bits (pos m) v (pos n) (Congruent-flip bits (pos m) v c)
        (Congruent-flip bits (pos n) v d))

complement_value :
    (bits n : ℕ) → n < 2 ^ bits → ((pow2 bits -ℤ pos 1) -ℤ pos n) ≡ pos (2 ^ bits - 1 - n)
unfolding ◌-ℤ◌
complement_value bits n h = ground arith

int_not_at :
    (signed : Bool) (bits n m : ℕ) (v w : ℤ)
    → unsigned_repr (int_value signed bits v) ≡ pos n
    → n < 2 ^ bits
    → m ≡ 2 ^ bits - 1 - n
    → wrap signed bits (pos m) ≡ ok w
    → int_not (int_value signed bits v) ≡ ok (int_value signed bits w)
unfolding int_not canonical
int_not_at signed bits n m v w e h k f =
    rw e (rw (complement_value bits n h ∙ ap pos (sym k)) (rw f))

sum_of_patterns :
    (bits m n : ℕ) (v w : ℤ)
    → n < 2 ^ bits
    → v ≡ pos n
    → w ≡ pos m
    → pos m ≡ pos (2 ^ bits - 1 - n)
    → (v +ℤ w) ≡ pos (2 ^ bits - 1)
unfolding ◌+ℤ◌
sum_of_patterns bits m n v w h e f g = let k = ap nat_abs g in rw (e, f) (ground arith)

-- The complement of a canonical integer is a canonical integer of the same type, the patterns of the two
-- add up to `2^bits - 1`, and the complement of the complement is the integer.
pub int_not_lem :
    (a : IntValue)
    → IsCanonical a
    → (b : IntValue) × (int_not a ≡ ok b)
      × IsCanonical b
      × (b.signed ≡ a.signed)
      × (b.bits ≡ a.bits)
      × ((unsigned_repr a +ℤ unsigned_repr b) ≡ pos (2 ^ a.bits - 1))
      × (int_not b ≡ ok a)
int_not_lem a c =
    let (n, e, below, g) = unsigned_repr_lem a.signed a.bits a.value c.in_range in
    let (w, f, r, d) = wrap_lem a.signed a.bits (pos (2 ^ a.bits - 1 - n)) c.has_bits in
    let (m, e', below', g') = unsigned_repr_lem a.signed a.bits w r in
    let same : pos m ≡ pos (2 ^ a.bits - 1 - n) =
      pattern_unique a.bits m (2 ^ a.bits - 1 - n) w below' (omega arith) g' d in
    (
      int_value a.signed a.bits w,
      int_not_at a.signed a.bits n (2 ^ a.bits - 1 - n) a.value w e below refl f,
      record { has_bits = c.has_bits; in_range = r },
      refl,
      refl,
      sum_of_patterns a.bits m n _ _ below e e' same,
      int_not_at a.signed a.bits m n w a.value e' below' (ground arith)
          (wrap_unique a.signed a.bits (pos n) a.value c.has_bits c.in_range g),
    )
