-- ===== src/Base/Text.antt =====
-- Text as code points: decimal numbers and separators.
use Prim.Native.Nat.{ℕ, zero, suc, ◌+◌, ◌/◌, ◌%◌}
use mathlib.Core.Path.{◌≡◌, refl}
use mathlib.Core.List.{List, [], ◌∷◌, ◌++◌}
use ast_interpreter.Base.Tests.{ltb, if◌then◌else◌}
use ast_interpreter.Base.Lists.{codes}
use ast_interpreter.Base.Int.{ℤ, pos, negsuc}

decimal_digits : ℕ → ℕ → List ℕ → List ℕ
decimal_digits zero n out = out
decimal_digits (suc fuel) n out =
    let more = decimal_digits fuel (n / 10) ((b'0' + n % 10) ∷ out) in
    if ltb n 10 then (b'0' + n) ∷ out else more

-- The decimal form; a number has at most as many digits as its value, and one.
unfoldable pub decimal : ℕ → List ℕ
unfolding decimal_digits
decimal n = decimal_digits (suc n) n []

unfoldable pub decimal_ℤ : ℤ → List ℕ
unfolding decimal
decimal_ℤ (pos n) = decimal n
decimal_ℤ (negsuc n) = b'-' ∷ decimal (suc n)

unfoldable pub join : List ℕ → List (List ℕ) → List ℕ
join separator [] = []
join separator (t ∷ []) = t
join separator (t ∷ u ∷ ts) = t ++ separator ++ join separator (u ∷ ts)

decimal_example : decimal_ℤ (negsuc 1233) ≡ codes "-1234"
unfolding decimal_ℤ
decimal_example = refl

join_example : join (codes ", ") (codes "1" ∷ codes "2" ∷ []) ≡ codes "1, 2"
unfolding join
join_example = refl
