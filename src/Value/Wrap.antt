-- ===== src/Value/Wrap.antt =====
-- src/value.rs: the laws of `wrap`, `canonical`, `range` and `checked`.
use native.Mathlib.Nat.{pow-suc, mod-lt, div-add-mod}
use native.Mathlib.Decide.{dec_lt}
use ast_interpreter.Base.{
  ℕ, zero, suc, ◌+◌, ◌-◌, ◌*◌, ◌%◌, ◌/◌, ◌^◌, ◌<◌, ◌≤◌, ◌≡◌, sym, ap, ◌∙◌, Bool, true, false,
  String, ◌⊎◌, inl, inr, arith, Bool-cases, leb, ◌==◌, if◌then◌else◌,
}
use ast_interpreter.Base.Int.{eq_of_parts, ℤ, pos, negsuc, pos_part, neg_part, ◌+ℤ◌, ◌-ℤ◌, tmod}
use ast_interpreter.Error.{ok, err, overflow}
use ast_interpreter.Value.Ints.{int_value, pow2, half_range, residue, wrap, range, checked}

pub pow2_pos : (b : ℕ) → 0 < 2 ^ b
pow2_pos zero = omega arith
pow2_pos (suc b) = omega (arith, pow-suc 2 b, pow2_pos b)

pub pow2_suc : (b : ℕ) → 2 ^ suc b ≡ 2 ^ b + 2 ^ b
pow2_suc b = omega (arith, pow-suc 2 b)

-- The values of the type `(signed, bits)`: from 0 up to `2^bits - 1`, or from `-2^(bits - 1)` up to
-- `2^(bits - 1) - 1`. A signed type of no bits has none.
abbrev pub InRange : Bool → ℕ → ℤ → Type 0
InRange false bits v = (neg_part v ≡ 0) × (pos_part v < 2 ^ bits)
InRange true zero v = ⊥
InRange true (suc bits) v = (neg_part v ≤ 2 ^ bits) × (pos_part v < 2 ^ bits)

-- The two integers differ by a multiple of `2^bits`.
abbrev pub Congruent : ℕ → ℤ → ℤ → Type 0
Congruent bits a b =
    (p : ℕ) × (q : ℕ) × (pos_part a + neg_part b + p * 2 ^ bits
      ≡ pos_part b + neg_part a + q * 2 ^ bits)

neg_residue : ℕ → ℕ → ℕ
neg_residue m n = if n % m == 0 then 0 else m - n % m

residue-neg_residue : (bits n : ℕ) → residue bits (negsuc n) ≡ pos (neg_residue (2 ^ bits) (suc n))
unfolding residue tmod ◌+ℤ◌ neg_residue
residue-neg_residue bits n = ground (arith, pow2_pos bits, mod-lt (suc n) (pow2_pos bits))

-- `residue` is the representative in `[0, 2^bits)`.
pub residue_lem :
    (bits : ℕ) (raw : ℤ)
    → (r : ℕ) × (residue bits raw ≡ pos r) × (r < 2 ^ bits) × Congruent bits raw (pos r)
unfolding residue tmod neg_residue
residue_lem bits (pos n) =
    let h = pow2_pos bits in
    (
      n % 2 ^ bits,
      ground arith,
      omega arith,
      (0, n / 2 ^ bits, omega (arith, div-add-mod n (2 ^ bits))),
    )
residue_lem bits (negsuc n) =
    let h = pow2_pos bits in
    (
      neg_residue (2 ^ bits) (suc n),
      residue-neg_residue bits n,
      ground arith,
      elim (Bool-cases (suc n % 2 ^ bits == 0)) [
        | inl z ↦ (suc n / 2 ^ bits, 0, ground (arith, div-add-mod (suc n) (2 ^ bits)))
        | inr z ↦ (suc n / 2 ^ bits + 1, 0, ground (arith, div-add-mod (suc n) (2 ^ bits)))
      ],
    )

multiple_step : (m p q : ℕ) → p < q → p * m + m ≤ q * m
multiple_step m p q h = grind arith

multiple_zero : (m p q a b : ℕ) → a + p * m ≡ b + q * m → a < b + m → b < a + m → a ≡ b
multiple_zero m p q a b e h k = elim (dec_lt p q) [
  | yes lt ↦ absurd (omega (arith, multiple_step m p q lt))
  | no ge ↦ elim (dec_lt q p) [
    | yes lt ↦ absurd (omega (arith, multiple_step m q p lt))
    | no ge' ↦ let same : p ≡ q = omega arith in omega (arith, ap (λ (t : ℕ). t * m) same)
  ]
]

-- Two values of a type that differ by a multiple of `2^bits` are equal.
pub InRange-unique :
    (signed : Bool) (bits : ℕ) (v w : ℤ)
    → InRange signed bits v
    → InRange signed bits w
    → Congruent bits v w
    → v ≡ w
InRange-unique false bits v w hv hw (p, q, e) =
    eq_of_parts v w (multiple_zero (2 ^ bits) p q _ _ e (omega arith) (omega arith))
InRange-unique true zero v w hv hw c = absurd hv
InRange-unique true (suc bits) v w hv hw (p, q, e) =
    let d = pow2_suc bits in
    eq_of_parts v w (multiple_zero (2 ^ suc bits) p q _ _ e (omega arith) (omega arith))

pub Congruent-join :
    (bits : ℕ) (a b c : ℤ) → Congruent bits b a → Congruent bits b c → Congruent bits a c
Congruent-join bits a b c (p, q, e) (p', q', e') = (q + p', p + q', grind arith)

wrap-signed :
    (bits : ℕ) (raw : ℤ) (r : ℕ)
    → residue (suc bits) raw ≡ pos r
    → r < 2 ^ suc bits
    → Congruent (suc bits) raw (pos r)
    → (v : ℤ) × (wrap true (suc bits) raw ≡ ok v)
      × InRange true (suc bits) v
      × Congruent (suc bits) raw v
unfolding wrap half_range ◌-ℤ◌
wrap-signed bits raw r e lt (p, q, c) =
    let d = pow2_suc bits in
    elim (Bool-cases (leb (2 ^ bits) r)) [
      | inl big ↦
          (pos r -ℤ pow2 (suc bits), rw e (ground arith), ground arith, (p, q + 1, ground arith))
      | inr small ↦ (pos r, rw e (ground arith), ground arith, (p, q, c))
    ]

-- The reduction yields the value of the type that is congruent to `raw`.
pub wrap_lem :
    (signed : Bool) (bits : ℕ) (raw : ℤ)
    → 0 < bits
    → (v : ℤ) × (wrap signed bits raw ≡ ok v) × InRange signed bits v × Congruent bits raw v
unfolding wrap
wrap_lem false bits raw h =
    let (r, e, lt, c) = residue_lem bits raw in (pos r, rw e, omega arith, c)
wrap_lem true zero raw h = absurd (omega arith)
wrap_lem true (suc bits) raw h =
    let (r, e, lt, c) = residue_lem (suc bits) raw in wrap-signed bits raw r e lt c

-- A value of the type is left as it is.
pub wrap-fixed :
    (signed : Bool) (bits : ℕ) (v : ℤ)
    → 0 < bits
    → InRange signed bits v
    → wrap signed bits v ≡ ok v
wrap-fixed signed bits v h hv =
    let (w, e, hw, c) = wrap_lem signed bits v h in
    e ∙ ap ok (sym (InRange-unique signed bits v w hv hw c))

-- What the reduction returns is the only value of the type congruent to `raw`.
pub wrap_unique :
    (signed : Bool) (bits : ℕ) (raw v : ℤ)
    → 0 < bits
    → InRange signed bits v
    → Congruent bits raw v
    → wrap signed bits raw ≡ ok v
wrap_unique signed bits raw v h hv c =
    let (w, e, hw, d) = wrap_lem signed bits raw h in
    e ∙ ap ok (InRange-unique signed bits w v hw hv (Congruent-join bits w raw v d c))

-- A checked result is the exact value if it lies in the type's range, and an overflow if not.
pub checked_lem :
    (signed : Bool) (bits : ℕ) (raw : ℤ) (op : String)
    → 0 < bits
    → ((InRange signed bits raw) × (checked signed bits raw op ≡ ok (int_value signed bits raw)))
      ⊎ ((¬ InRange signed bits raw) × (checked signed bits raw op ≡ err (overflow op)))
unfolding checked range half_range ◌-ℤ◌
checked_lem false bits raw op h = let k = pow2_pos bits in ground arith
checked_lem true zero raw op h = absurd (omega arith)
checked_lem true (suc bits) raw op h = let k = pow2_pos bits in ground arith
