-- ===== src/Laws/Digits.antt =====
-- src/intrinsics.rs: the digits of `to_radix`, and strings as arrays of bytes.
use native.Mathlib.Nat.{
  mod-lt, div-add-mod, div-lt_self, pow-suc, pow-zero, div-lt_iff_lt-mul, le-div_iff_mul-le,
}
use ast_interpreter.Base.{
  ℕ, zero, suc, ◌+◌, ◌*◌, ◌/◌, ◌%◌, ◌^◌, ◌<◌, ◌≤◌, ◌≡◌, refl, ap, ◌∙◌, ◌⊎◌, inl, inr, Bool, true,
  false, List, [], ◌∷◌, ◌++◌, length, ◌==◌, if◌then◌else◌, arith,
}
use mathlib.Core.List.{reverse}
use ast_interpreter.Base.{not, some, map, codes}
use ast_interpreter.Base.Int.{pos}
use ast_interpreter.Base.Text.{decimal}
use ast_interpreter.Error.{Location, Result, ok, err, ◌>>=◌, assertion_failed}
use ast_interpreter.Value.Ints.{int_value, canonical, unsigned_repr}
use ast_interpreter.Value.Wrap.{wrap-fixed}
use ast_interpreter.Value.Data.{Value, array_of, to_list-of_list, as_index, as_int, index_of_repr}
use ast_interpreter.Intrinsics.Arguments.{unsigned_values, take1, into_array}
use ast_interpreter.Intrinsics.Conversions.{
  str_as_bytes, array_as_str_unchecked, bytes_of_str, bytes_of, byte_of,
}
use ast_interpreter.Intrinsics.Radix.{
  radix_digits_fuel, radix_digits, padded, limb_values, decompose,
}

-- The number with the digits, the lowest first.
abbrev pub from_digits : ℕ → List ℕ → ℕ
from_digits radix [] = 0
from_digits radix (d ∷ digits) = d + radix * from_digits radix digits

abbrev pub AllBelow : ℕ → List ℕ → Type 0
AllBelow b [] = Unit
AllBelow b (d ∷ digits) = (d < b) × AllBelow b digits

radix_digits_step :
    (fuel radix n : ℕ)
    → radix_digits_fuel (suc fuel) radix (suc n)
      ≡ suc n % radix ∷ radix_digits_fuel fuel radix (suc n / radix)
unfolding radix_digits_fuel
radix_digits_step fuel radix n = ground arith

radix_digits_zero : (fuel radix : ℕ) → radix_digits_fuel fuel radix 0 ≡ []
unfolding radix_digits_fuel
radix_digits_zero zero radix = refl
radix_digits_zero (suc fuel) radix = refl

-- The digits of `n`: below the radix, and of the value `n`.
abbrev pub DigitsOf : ℕ → ℕ → List ℕ → Type 0
DigitsOf radix n digits = (from_digits radix digits ≡ n) × AllBelow radix digits

radix_digits_fuel_lem :
    (fuel radix n : ℕ) → 2 ≤ radix → n ≤ fuel → DigitsOf radix n (radix_digits_fuel fuel radix n)
unfolding radix_digits_fuel
radix_digits_fuel_lem zero radix n h le = (omega arith, tt)
radix_digits_fuel_lem (suc fuel) radix zero h le = (refl, tt)
radix_digits_fuel_lem (suc fuel) radix (suc n) h le =
    let below : suc n / radix < suc n = div-lt_self (omega arith) (omega arith) in
    let (e, all) = radix_digits_fuel_lem fuel radix (suc n / radix) h (omega arith) in
    rw (radix_digits_step fuel radix n)
      (rw e (omega (arith, div-add-mod (suc n) radix)), (mod-lt (suc n) (omega arith), all))

-- The highest digit is not zero, so as many digits are needed.
power_pos : (radix count : ℕ) → 0 < radix → 0 < radix ^ count
power_pos radix zero h = omega (arith, pow-zero radix)
power_pos radix (suc count) h = grind (arith, pow-suc radix count, power_pos radix count h)

digits_fit :
    (fuel radix n count : ℕ)
    → 2 ≤ radix
    → n ≤ fuel
    → ((length (radix_digits_fuel fuel radix n) ≤ count) × (n < radix ^ count))
      ⊎ ((count < length (radix_digits_fuel fuel radix n)) × (radix ^ count ≤ n))
unfolding radix_digits_fuel
digits_fit fuel radix zero count h le =
    rw (radix_digits_zero fuel radix) (inl (omega arith, power_pos radix count (omega arith)))
digits_fit zero radix (suc n) count h le = absurd (omega arith)
digits_fit (suc fuel) radix (suc n) zero h le =
    rw (radix_digits_step fuel radix n) (inr (omega arith, omega (arith, pow-zero radix)))
digits_fit (suc fuel) radix (suc n) (suc count) h le =
    let below : suc n / radix < suc n = div-lt_self (omega arith) (omega arith) in
    rw (radix_digits_step fuel radix n)
      (elim (digits_fit fuel radix (suc n / radix) count h (omega arith)) [
        | inl (l, b) ↦ inl (
          omega arith,
          omega (
            arith,
            pow-suc radix count,
            (div-lt_iff_lt-mul {k = radix} {x = suc n} {y = radix ^ count} (omega arith)).0 b,
          ),
        )
        | inr (l, b) ↦ inr (
          omega arith,
          omega (
            arith,
            pow-suc radix count,
            (le-div_iff_mul-le {k = radix} {x = radix ^ count} {y = suc n} (omega arith)).0 b,
          ),
        )
      ])

padded_lem :
    (radix count n : ℕ) (digits : List ℕ)
    → 0 < radix
    → length digits ≤ count
    → DigitsOf radix n digits
    → DigitsOf radix n (padded count digits) × (length (padded count digits) ≡ count)
unfolding padded
padded_lem radix zero n [] p le d = (d, refl)
padded_lem radix zero n (x ∷ digits) p le d = absurd (omega arith)
padded_lem radix (suc count) n [] p le (e, a) =
    let ((e', a'), l) = padded_lem radix count 0 [] p (omega arith) (refl, tt) in
    ((rw e' (omega arith), (p, a')), omega arith)
padded_lem radix (suc count) n (x ∷ digits) p le (e, (b, a)) =
    let ((e', a'), l) =
      padded_lem radix count (from_digits radix digits) digits p (omega arith) (refl, a) in
    ((rw e' e, (b, a')), omega arith)

-- The value that stands for a digit: a Boolean in base two, a byte else.
abbrev pub limb_of : {F : Type 0} → Bool → ℕ → Value F
limb_of true d = Value.bool (not (d == 0))
limb_of false d = Value.int (int_value false 8 (pos d))

ok_then : {A B : Type 0} {r : Result A} {a : A} (k : A → Result B) → r ≡ ok a → (r >>= k) ≡ k a
ok_then k e = ap (λ r. r >>= k) e

canonical_byte : (d : ℕ) → d < 256 → canonical false 8 (pos d) ≡ ok (int_value false 8 (pos d))
unfolding canonical
canonical_byte d h = rw (wrap-fixed false 8 (pos d) (omega arith) (omega arith))

unsigned_values_bytes :
    {F : Type 0} (digits : List ℕ)
    → AllBelow 256 digits
    → unsigned_values {F = F} 8 digits ≡ ok (map (limb_of false) digits)
unfolding unsigned_values
unsigned_values_bytes [] h = refl
unsigned_values_bytes (d ∷ digits) (h, hs) =
    ok_then _ (canonical_byte d h) ∙ ok_then _ (unsigned_values_bytes digits hs)

AllBelow-mono : (a b : ℕ) (digits : List ℕ) → a ≤ b → AllBelow a digits → AllBelow b digits
AllBelow-mono a b [] h all = tt
AllBelow-mono a b (d ∷ digits) h (p, all) = (omega arith, AllBelow-mono a b digits h all)

limb_values_lem :
    {F : Type 0} (is_bits : Bool) (digits : List ℕ)
    → AllBelow 256 digits
    → limb_values {F = F} is_bits digits ≡ ok (map (limb_of is_bits) digits)
unfolding limb_values
limb_values_lem true digits h = refl
limb_values_lem false digits h = unsigned_values_bytes digits h

decompose_fits :
    {F : Type 0} (count : ℕ) (big_endian is_bits : Bool) (radix n : ℕ) (location : Location)
    (limbs : List (Value F))
    → length (radix_digits radix n) ≤ count
    → limb_values is_bits (padded count (radix_digits radix n)) ≡ ok limbs
    → decompose count big_endian is_bits radix n location
      ≡ ok (array_of (if big_endian then reverse limbs else limbs))
unfolding decompose
decompose_fits count big_endian is_bits radix n location limbs h e = rw e (ground arith)

decompose_refused :
    (F : Type 0) (count : ℕ) (big_endian is_bits : Bool) (radix n : ℕ) (location : Location)
    → count < length (radix_digits radix n)
    → decompose {F = F} count big_endian is_bits radix n location
      ≡ err (
          assertion_failed location (
            some (
              codes "Field failed to decompose into specified "
              ++ decimal count
              ++ codes " limbs")))
unfolding decompose
decompose_refused F count big_endian is_bits radix n location h = ground arith

-- A number below `radix ^ count` decomposes into `count` digits below the radix that make up the
-- number, the lowest first or, for big-endian, last; any other number is a failed assertion. This holds
-- for the radices from 2 up to 256.
pub decompose_lem :
    (F : Type 0) (count : ℕ) (big_endian is_bits : Bool) (radix n : ℕ) (location : Location)
    → 2 ≤ radix
    → radix ≤ 256
    → ((n < radix ^ count)
        × (digits : List ℕ) × DigitsOf radix n digits
        × (length digits ≡ count)
        × (decompose {F = F} count big_endian is_bits radix n location
            ≡ ok (
                array_of (
                  if big_endian
                  then reverse (map (limb_of is_bits) digits)
                  else map (limb_of is_bits) digits))))
      ⊎ ((radix ^ count ≤ n)
          × (decompose {F = F} count big_endian is_bits radix n location
              ≡ err (
                  assertion_failed location (
                    some (
                      codes "Field failed to decompose into specified "
                      ++ decimal count
                      ++ codes " limbs")))))
unfolding radix_digits
decompose_lem F count big_endian is_bits radix n location low high =
    elim (digits_fit n radix n count low (omega arith)) [
      | inl (l, b) ↦
          let ((e, all), len) =
            padded_lem radix count n (radix_digits radix n) (omega arith) l
              (radix_digits_fuel_lem n radix n low (omega arith)) in
          inl (
            b,
            padded count (radix_digits radix n),
            (e, all),
            len,
            decompose_fits count big_endian is_bits radix n location _ l
                (limb_values_lem is_bits _ (AllBelow-mono radix 256 _ high all)),
          )
      | inr (l, b) ↦ inr (b, decompose_refused F count big_endian is_bits radix n location l)
    ]

byte_of_limb : (F : Type 0) (d : ℕ) → d < 256 → byte_of {F = F} (limb_of false d) ≡ ok d
unfolding byte_of as_index index_of_repr unsigned_repr as_int
byte_of_limb F d h = ground arith

bytes_of_limbs :
    (F : Type 0) (digits : List ℕ)
    → AllBelow 256 digits
    → bytes_of {F = F} (map (limb_of false) digits) ≡ ok digits
unfolding bytes_of
bytes_of_limbs F [] h = refl
bytes_of_limbs F (d ∷ digits) (h, hs) =
    ok_then _ (byte_of_limb F d h) ∙ ok_then _ (bytes_of_limbs F digits hs)

str_as_bytes_value :
    (F : Type 0) (bytes : List ℕ)
    → AllBelow 256 bytes
    → str_as_bytes {F = F} (Value.str bytes ∷ []) ≡ ok (array_of (map (limb_of false) bytes))
unfolding str_as_bytes bytes_of_str take1
str_as_bytes_value F bytes h = rw (unsigned_values_bytes bytes h)

array_as_str_value :
    {F : Type 0} (vs : List (Value F)) (bytes : List ℕ)
    → bytes_of vs ≡ ok bytes
    → array_as_str_unchecked (array_of vs ∷ []) ≡ ok (Value.str bytes)
unfolding array_as_str_unchecked take1 into_array
array_as_str_value vs bytes e = rw (to_list-of_list vs) (rw e refl)

-- A string of bytes is what its array of bytes is read back as.
pub array_as_str_unchecked-str_as_bytes :
    (F : Type 0) (bytes : List ℕ)
    → AllBelow 256 bytes
    → (w : Value F) × (str_as_bytes (Value.str bytes ∷ []) ≡ ok w)
      × (array_as_str_unchecked (w ∷ []) ≡ ok (Value.str bytes))
array_as_str_unchecked-str_as_bytes F bytes h = (
  array_of (map (limb_of false) bytes),
  str_as_bytes_value F bytes h,
  array_as_str_value (map (limb_of false) bytes) bytes (bytes_of_limbs F bytes h),
)
