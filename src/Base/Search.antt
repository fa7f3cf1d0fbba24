-- ===== src/Base/Search.antt =====
-- What the source uses of Rust's text: comparison, search, splitting and white space, on code points.
use Prim.Native.Nat.{ℕ, zero, suc, ◌-◌}
use mathlib.Core.Path.{◌≡◌, refl}
use mathlib.Core.Logic.{◌↔◌}
use mathlib.Core.Bool.{Bool, true, false, ◌&&◌, ◌||◌}
use mathlib.Core.List.{List, [], ◌∷◌, ◌++◌}
use native.Mathlib.Omega.{arith}
use ast_interpreter.Base.Tests.{leb, ◌==◌, if◌then◌else◌}
use ast_interpreter.Base.Lists.{length, codes}
use ast_interpreter.Base.Text.{join}

abbrev pub eqb_text : List ℕ → List ℕ → Bool
eqb_text [] [] = true
eqb_text (x ∷ xs) (y ∷ ys) = x == y && eqb_text xs ys
eqb_text _ _ = false

pub eqb_text_iff : (xs ys : List ℕ) → (eqb_text xs ys ≡ true) ↔ (xs ≡ ys)
eqb_text_iff [] [] = (λ _. refl, λ _. refl)
eqb_text_iff [] (y ∷ ys) = ground arith
eqb_text_iff (x ∷ xs) [] = ground arith
eqb_text_iff (x ∷ xs) (y ∷ ys) = ground (arith, eqb_text_iff xs ys)

-- `starts_with`, `ends_with` and `contains`.
abbrev pub starts_with : List ℕ → List ℕ → Bool
starts_with s [] = true
starts_with [] (p ∷ ps) = false
starts_with (c ∷ s) (p ∷ ps) = c == p && starts_with s ps

abbrev pub ends_with : List ℕ → List ℕ → Bool
ends_with [] p = eqb_text [] p
ends_with (c ∷ s) p = eqb_text (c ∷ s) p || ends_with s p

abbrev pub contains : List ℕ → List ℕ → Bool
contains [] p = starts_with [] p
contains (c ∷ s) p = starts_with (c ∷ s) p || contains s p

-- `matches(p).count()` for a pattern that is not empty: matches do not overlap. The first argument
-- is what is left of the last one.
unfoldable pub match_count : ℕ → List ℕ → List ℕ → ℕ
match_count skip p [] = 0
match_count (suc skip) p (c ∷ s) = match_count skip p s
match_count zero p (c ∷ s) =
    let here = match_count (length p - 1) p s in
    let later = match_count zero p s in if starts_with (c ∷ s) p then suc here else later

-- `split(p)` for a pattern that is not empty, with the piece so far.
unfoldable pub split : ℕ → List ℕ → List ℕ → List ℕ → List (List ℕ)
split skip p piece [] = piece ∷ []
split (suc skip) p piece (c ∷ s) = split skip p piece s
split zero p piece (c ∷ s) =
    let here = split (length p - 1) p [] s in
    let later = split zero p (piece ++ c ∷ []) s in
    if starts_with (c ∷ s) p then piece ∷ here else later

-- `char::is_whitespace`.
unfoldable pub is_space : ℕ → Bool
is_space c =
    (leb 9 c && leb c 13)
    || c == 32
    || c == 133
    || c == 160
    || c == 5760
    || (leb 8192 c && leb c 8202)
    || c == 8232
    || c == 8233
    || c == 8239
    || c == 8287
    || c == 12288

abbrev pub flush : List ℕ → List (List ℕ) → List (List ℕ)
flush [] ws = ws
flush (c ∷ w) ws = (c ∷ w) ∷ ws

-- `split_whitespace`, with the word so far.
unfoldable pub words_from : List ℕ → List ℕ → List (List ℕ)
words_from word [] = flush word []
words_from word (c ∷ s) =
    let next = words_from [] s in
    let more = words_from (word ++ c ∷ []) s in if is_space c then flush word next else more

abbrev pub trim_start : List ℕ → List ℕ
trim_start [] = []
trim_start (c ∷ s) = let rest = trim_start s in if is_space c then rest else c ∷ s

-- The text up to the last character that is no white space.
abbrev pub trim_end : List ℕ → List ℕ
trim_end [] = []
trim_end (c ∷ s) = keep (trim_end s)
  where
    keep : List ℕ → List ℕ
    keep [] = if is_space c then [] else c ∷ []
    keep (d ∷ t) = c ∷ d ∷ t

abbrev pub trim : List ℕ → List ℕ
trim s = trim_end (trim_start s)

split_example :
    split zero (codes " | ") [] (codes "a | b | c") ≡ codes "a" ∷ codes "b" ∷ codes "c" ∷ []
unfolding split
split_example = refl

words_example : join (codes " ") (words_from [] (codes "  a   ==\n b ")) ≡ codes "a == b"
unfolding words_from is_space join
words_example = refl

count_example : match_count zero (codes "aa") (codes "aaaaa") ≡ 2
unfolding match_count
count_example = refl

trim_example : trim (codes "  a b ") ≡ codes "a b"
unfolding is_space
trim_example = refl
