-- ===== src/Value/Ints.antt =====
-- src/value.rs: `IntValue`, with the two's complement reduction and the range of a type.
use ast_interpreter.Base.{ℕ, zero, suc, ◌^◌, Bool, true, false, String, ◌||◌, if◌then◌else◌}
use ast_interpreter.Base.Int.{ℤ, pos, ◌+ℤ◌, ◌-ℤ◌, tmod, negate, is_neg, ltb_ℤ, leb_ℤ}
use ast_interpreter.Error.{Result, ok, err, panic, overflow, ◌>>=◌}

pub record IntValue : Type 0 where
  pub signed : Bool
  pub bits : ℕ
  pub value : ℤ

abbrev pub int_value : Bool → ℕ → ℤ → IntValue
int_value s b v = record { signed = s; bits = b; value = v }

abbrev pub pow2 : ℕ → ℤ
pow2 bits = pos (2 ^ bits)

-- `pow2(bits - 1)`: the subtraction on `u32` panics at 0.
unfoldable pub half_range : ℕ → Result ℤ
half_range zero = panic
half_range (suc bits) = ok (pow2 bits)

-- `raw % modulus`, moved to `[0, 2^bits)`.
unfoldable pub residue : ℕ → ℤ → ℤ
residue bits raw = let u = tmod raw (pow2 bits) in if is_neg u then u +ℤ pow2 bits else u

unfoldable pub wrap : Bool → ℕ → ℤ → Result ℤ
unfolding half_range residue
wrap false bits raw = ok (residue bits raw)
wrap true bits raw = do
  half ← half_range bits
  ok (if leb_ℤ half (residue bits raw) then residue bits raw -ℤ pow2 bits else residue bits raw)

unfoldable pub canonical : Bool → ℕ → ℤ → Result IntValue
canonical signed bits raw = do value ← wrap signed bits raw; ok (int_value signed bits value)

-- Inclusive bounds of the type.
unfoldable pub range : Bool → ℕ → Result (ℤ × ℤ)
unfolding half_range
range false bits = ok (pos 0, pow2 bits -ℤ pos 1)
range true bits = do half ← half_range bits; ok (negate half, half -ℤ pos 1)

unfoldable pub checked : Bool → ℕ → ℤ → String → Result IntValue
unfolding range
checked signed bits raw op = do
  (lo, hi) ← range signed bits
  if ltb_ℤ raw lo || ltb_ℤ hi raw then err (overflow op) else ok (int_value signed bits raw)

-- The two's complement pattern.
unfoldable pub unsigned_repr : IntValue → ℤ
unsigned_repr int = if is_neg int.value then int.value +ℤ pow2 int.bits else int.value
