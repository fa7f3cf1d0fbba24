-- ===== src/Value/Pattern.antt =====
-- src/value.rs: `unsigned_repr`, the two's complement pattern of a machine integer.
use ast_interpreter.Base.{ℕ, zero, suc, ◌-◌, ◌^◌, ◌<◌, ◌≡◌, refl, Bool, true, false, arith}
use ast_interpreter.Base.Int.{ℤ, pos, negsuc, ◌+ℤ◌}
use ast_interpreter.Error.{ok}
use ast_interpreter.Value.Ints.{IntValue, int_value, canonical, unsigned_repr}
use ast_interpreter.Value.Wrap.{InRange, Congruent, pow2_pos, pow2_suc, wrap_unique}

-- The invariant that the source states of `IntValue`.
pub record IsCanonical (int : IntValue) : Type 0 where
  pub has_bits : 0 < int.bits
  pub in_range : InRange int.signed int.bits int.value

-- The pattern is a number below `2^bits` that stands for the value.
pub unsigned_repr_lem :
    (signed : Bool) (bits : ℕ) (v : ℤ)
    → InRange signed bits v
    → (n : ℕ) × (unsigned_repr (int_value signed bits v) ≡ pos n)
      × (n < 2 ^ bits)
      × Congruent bits (pos n) v
unfolding unsigned_repr ◌+ℤ◌
unsigned_repr_lem false bits (pos n) h = (n, refl, omega arith, (0, 0, omega arith))
unsigned_repr_lem false bits (negsuc n) h = absurd (omega arith)
unsigned_repr_lem true zero v h = absurd h
unsigned_repr_lem true (suc bits) (pos n) h =
    let d = pow2_suc bits in (n, refl, omega arith, (0, 0, omega arith))
unsigned_repr_lem true (suc bits) (negsuc n) h =
    let d = pow2_suc bits in
    let p = pow2_pos bits in (2 ^ suc bits - suc n, ground arith, omega arith, (0, 1, omega arith))

-- The pattern of a canonical integer is a number below `2^bits` that differs from the value by a multiple
-- of `2^bits`, and the integer is read back from it.
pub canonical-unsigned_repr :
    (int : IntValue)
    → IsCanonical int
    → (n : ℕ) × (unsigned_repr int ≡ pos n)
      × (n < 2 ^ int.bits)
      × Congruent int.bits (pos n) int.value
      × (canonical int.signed int.bits (unsigned_repr int) ≡ ok int)
unfolding canonical
canonical-unsigned_repr int c =
    let (n, e, lt, g) = unsigned_repr_lem int.signed int.bits int.value c.in_range in
    let w =
      wrap_unique int.signed int.bits (unsigned_repr int) int.value c.has_bits c.in_range
        (rw e g) in
    (n, e, lt, g, rw w)
