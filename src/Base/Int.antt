-- ===== src/Base/Int.antt =====
-- Arbitrary-precision integers, as num_bigint's BigInt offers them: signed integers over the native
-- numbers with exact sums and products, division and remainder that truncate toward zero, shifts
-- that round down, and bit operations on the two's complement with infinitely many sign bits.
use Prim.Native.Nat.{ℕ, suc, ◌+◌, ◌-◌, ◌*◌, ◌/◌, ◌%◌, ◌^◌, ◌≤◌, ◌<◌, bit_and, bit_or, bit_xor}
use mathlib.Core.Path.{◌≡◌, refl}
use mathlib.Core.Bool.{Bool, true, false, not}
use native.Mathlib.Omega.{arith}
use ast_interpreter.Base.Tests.{ltb, leb, ◌==◌, if◌then◌else◌}

-- `negsuc n` is -(n + 1).
pub data ℤ : Type 0 where
  pos : ℕ → ℤ
  negsuc : ℕ → ℤ

abbrev pub pos_part : ℤ → ℕ
pos_part (pos n) = n
pos_part (negsuc n) = 0

abbrev pub neg_part : ℤ → ℕ
neg_part (pos n) = 0
neg_part (negsuc n) = suc n

-- a - b, as an integer.
abbrev pub sub_ℕ : ℕ → ℕ → ℤ
sub_ℕ a b = if leb b a then pos (a - b) else negsuc (b - a - 1)

-- The magnitude.
abbrev pub nat_abs : ℤ → ℕ
nat_abs a = pos_part a + neg_part a

abbrev pub is_neg : ℤ → Bool
is_neg (pos _) = false
is_neg (negsuc _) = true

abbrev pub negate : ℤ → ℤ
negate a = sub_ℕ (neg_part a) (pos_part a)

infixl 65 ◌+ℤ◌ ◌-ℤ◌
infixl 70 ◌*ℤ◌
infix 50 ◌≤ℤ◌ ◌<ℤ◌
unfoldable pub ◌+ℤ◌ : ℤ → ℤ → ℤ
a +ℤ b = sub_ℕ (pos_part a + pos_part b) (neg_part a + neg_part b)

unfoldable pub ◌-ℤ◌ : ℤ → ℤ → ℤ
a -ℤ b = sub_ℕ (pos_part a + neg_part b) (neg_part a + pos_part b)

unfoldable pub ◌*ℤ◌ : ℤ → ℤ → ℤ
a *ℤ b =
    sub_ℕ (pos_part a * pos_part b + neg_part a * neg_part b)
      (pos_part a * neg_part b + neg_part a * pos_part b)

-- The number with the sign of `a` and the magnitude `n`.
abbrev pub with_sign : Bool → ℕ → ℤ
with_sign negative n = if negative then sub_ℕ 0 n else pos n

abbrev pub xor_sign : ℤ → ℤ → Bool
xor_sign a b = if is_neg a then not (is_neg b) else is_neg b

-- `a / b` and `a % b`, truncated toward zero; BigInt panics at a zero divisor.
unfoldable pub tdiv : ℤ → ℤ → ℤ
tdiv a b = with_sign (xor_sign a b) (nat_abs a / nat_abs b)

unfoldable pub tmod : ℤ → ℤ → ℤ
tmod a b = with_sign (is_neg a) (nat_abs a % nat_abs b)

-- `a << k` and `a >> k`.
unfoldable pub shl : ℤ → ℕ → ℤ
shl a k = with_sign (is_neg a) (nat_abs a * 2 ^ k)

unfoldable pub shr : ℤ → ℕ → ℤ
shr (pos n) k = pos (n / 2 ^ k)
shr (negsuc n) k = negsuc (n / 2 ^ k)

-- `a & b`, `a | b` and `a ^ b`; `negsuc n` is the complement of `n`.
unfoldable pub band : ℤ → ℤ → ℤ
band (pos a) (pos b) = pos (bit_and a b)
band (pos a) (negsuc b) = pos (a - bit_and a b)
band (negsuc a) (pos b) = pos (b - bit_and a b)
band (negsuc a) (negsuc b) = negsuc (bit_or a b)

unfoldable pub bor : ℤ → ℤ → ℤ
bor (pos a) (pos b) = pos (bit_or a b)
bor (pos a) (negsuc b) = negsuc (b - bit_and a b)
bor (negsuc a) (pos b) = negsuc (a - bit_and a b)
bor (negsuc a) (negsuc b) = negsuc (bit_and a b)

unfoldable pub bxor : ℤ → ℤ → ℤ
bxor (pos a) (pos b) = pos (bit_xor a b)
bxor (pos a) (negsuc b) = negsuc (bit_xor a b)
bxor (negsuc a) (pos b) = negsuc (bit_xor a b)
bxor (negsuc a) (negsuc b) = pos (bit_xor a b)

abbrev pub ◌≤ℤ◌ : ℤ → ℤ → Type 0
a ≤ℤ b = pos_part a + neg_part b ≤ pos_part b + neg_part a

abbrev pub ◌<ℤ◌ : ℤ → ℤ → Type 0
a <ℤ b = pos_part a + neg_part b < pos_part b + neg_part a

abbrev pub ltb_ℤ : ℤ → ℤ → Bool
ltb_ℤ a b = ltb (pos_part a + neg_part b) (pos_part b + neg_part a)

abbrev pub leb_ℤ : ℤ → ℤ → Bool
leb_ℤ a b = leb (pos_part a + neg_part b) (pos_part b + neg_part a)

abbrev pub eqb_ℤ : ℤ → ℤ → Bool
eqb_ℤ a b = (pos_part a + neg_part b) == (pos_part b + neg_part a)

-- One lemma for each operation lets `omega` work with the operations shut, at any depth.
pub +ℤ_parts :
    (a b : ℤ)
    → pos_part (a +ℤ b) + neg_part a + neg_part b ≡ neg_part (a +ℤ b) + pos_part a + pos_part b
unfolding ◌+ℤ◌
+ℤ_parts a b = ground arith

pub -ℤ_parts :
    (a b : ℤ)
    → pos_part (a -ℤ b) + neg_part a + pos_part b ≡ neg_part (a -ℤ b) + pos_part a + neg_part b
unfolding ◌-ℤ◌
-ℤ_parts a b = ground arith

pub eq_of_parts : (a b : ℤ) → pos_part a + neg_part b ≡ pos_part b + neg_part a → a ≡ b
eq_of_parts a b h = ground arith

pub eqb_ℤ→eq : (a b : ℤ) → eqb_ℤ a b ≡ true → a ≡ b
eqb_ℤ→eq a b h = ground arith

pub ruleset int_laws = (arith, +ℤ_parts, -ℤ_parts, eq_of_parts)

negative_seven_halved : tdiv (negsuc 6) (pos 2) ≡ negsuc 2
unfolding tdiv
negative_seven_halved = refl

negative_seven_mod_two : tmod (negsuc 6) (pos 2) ≡ negsuc 0
unfolding tmod
negative_seven_mod_two = refl

band_signs : band (negsuc 5) (pos 13) ≡ pos 8
unfolding band
band_signs = refl
