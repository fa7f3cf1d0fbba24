-- ===== src/Laws/Payloads.antt =====
-- src/diff.rs: payloads as one stable line.
use mathlib.Core.Path.{subst}
use mathlib.Core.List.{append_assoc, append-nil}
use ast_interpreter.Base.{
  ℕ, ◌≡◌, refl, sym, ap, ◌∙◌, true, false, List, [], ◌∷◌, ◌++◌, Bool-cases, inl, inr, codes,
}
use ast_interpreter.Base.Text.{join}
use ast_interpreter.Base.Search.{is_space, words_from, flush}
use ast_interpreter.Error.{Text}
use ast_interpreter.Diff.Errors.{normalize_text}

-- A text without white space, and one that has a character too.
abbrev pub Solid : Text → Type 0
Solid [] = Unit
Solid (c ∷ w) = (is_space c ≡ false) × Solid w

abbrev pub IsWord : Text → Type 0
IsWord [] = ⊥
IsWord (c ∷ w) = Solid (c ∷ w)

abbrev pub AllWords : List Text → Type 0
AllWords [] = Unit
AllWords (w ∷ ws) = IsWord w × AllWords ws

Solid-append : (w : Text) (c : ℕ) → Solid w → is_space c ≡ false → Solid (w ++ c ∷ [])
Solid-append [] c h e = (e, tt)
Solid-append (d ∷ w) c (f, h) e = (f, Solid-append w c h e)

AllWords-flush : (w : Text) (ws : List Text) → Solid w → AllWords ws → AllWords (flush w ws)
AllWords-flush [] ws h all = all
AllWords-flush (c ∷ w) ws h all = (h, all)

words_from_solid :
    (word s : Text) (c : ℕ)
    → is_space c ≡ false
    → words_from word (c ∷ s) ≡ words_from (word ++ c ∷ []) s
unfolding words_from
words_from_solid word s c e = rw e refl

words_from_space :
    (word s : Text) (c : ℕ)
    → is_space c ≡ true
    → words_from word (c ∷ s) ≡ flush word (words_from [] s)
unfolding words_from
words_from_space word s c e = rw e refl

AllWords-words_from : (word s : Text) → Solid word → AllWords (words_from word s)
unfolding words_from
AllWords-words_from word [] h = AllWords-flush word [] h tt
AllWords-words_from word (c ∷ s) h = elim (Bool-cases (is_space c)) [
  | inl e ↦ rw (words_from_space word s c e) (AllWords-flush word _ h (AllWords-words_from [] s tt))
  | inr e ↦
      rw (words_from_solid word s c e)
        (AllWords-words_from (word ++ c ∷ []) s (Solid-append word c h e))
]

words_from-append :
    (word w s : Text) → Solid w → words_from word (w ++ s) ≡ words_from (word ++ w) s
words_from-append word [] s h = ap (λ (v : Text). words_from v s) (sym (append-nil word))
words_from-append word (c ∷ w) s (e, h) =
    words_from_solid word (w ++ s) c e
    ∙ words_from-append (word ++ c ∷ []) w s h
    ∙ ap (λ (v : Text). words_from v s) (append_assoc word (c ∷ []) w)

flush_word : (w : Text) (ws : List Text) → IsWord w → flush w ws ≡ w ∷ ws
flush_word [] ws h = absurd h
flush_word (c ∷ w) ws h = refl

IsWord-Solid : (w : Text) → IsWord w → Solid w
IsWord-Solid [] h = tt
IsWord-Solid (c ∷ w) h = h

space_is_space : is_space 32 ≡ true
unfolding is_space
space_is_space = refl

join_more :
    (w u : Text) (ws : List Text)
    → join (codes " ") (w ∷ u ∷ ws) ≡ w ++ 32 ∷ join (codes " ") (u ∷ ws)
unfolding join
join_more w u ws = append_assoc w (32 ∷ []) (join (codes " ") (u ∷ ws))

words_from_end : (w : Text) → words_from w [] ≡ flush w []
unfolding words_from
words_from_end w = refl

words_from-join : (ws : List Text) → AllWords ws → words_from [] (join (codes " ") ws) ≡ ws
unfolding join
words_from-join [] h = words_from_end []
words_from-join (w ∷ []) (h, _) =
    ap (λ (v : Text). words_from [] v) (sym (append-nil w))
    ∙ words_from-append [] w [] (IsWord-Solid w h)
    ∙ words_from_end w
    ∙ flush_word w [] h
words_from-join (w ∷ u ∷ ws) (h, hs) =
    ap (words_from []) (join_more w u ws)
    ∙ words_from-append [] w (32 ∷ join (codes " ") (u ∷ ws)) (IsWord-Solid w h)
    ∙ words_from_space w (join (codes " ") (u ∷ ws)) 32 space_is_space
    ∙ flush_word w _ h
    ∙ ap (λ (v : List Text). w ∷ v) (words_from-join (u ∷ ws) hs)

abbrev AllSpace : Text → Type 0
AllSpace [] = Unit
AllSpace (c ∷ s) = (is_space c ≡ true) × AllSpace s

-- Nothing, or white space at first.
abbrev Ends : Text → Type 0
Ends [] = Unit
Ends (c ∷ s) = is_space c ≡ true

-- The text is the words in order, with white space before each and after the last, and between any two.
abbrev pub Spaced : Text → List Text → Type 0
Spaced t [] = AllSpace t
Spaced t (w ∷ ws) =
    (before : Text) × (rest : Text) × (t ≡ before ++ w ++ rest)
    × AllSpace before
    × Ends rest
    × Spaced rest ws

Spaced-space :
    (c : ℕ) (t : Text) (ws : List Text) → is_space c ≡ true → Spaced t ws → Spaced (c ∷ t) ws
Spaced-space c t [] e h = (e, h)
Spaced-space c t (w ∷ ws) e (before, rest, split, space, ends, h) =
    (c ∷ before, rest, ap (λ (u : Text). c ∷ u) split, (e, space), ends, h)

Spaced-flush :
    (word rest : Text) (ws : List Text)
    → Ends rest
    → Spaced rest ws
    → Spaced (word ++ rest) (flush word ws)
Spaced-flush [] rest ws e h = h
Spaced-flush (c ∷ word) rest ws e h = ([], rest, refl, tt, e, h)

Spaced-words_from : (word s : Text) → Spaced (word ++ s) (words_from word s)
unfolding words_from
Spaced-words_from word [] = Spaced-flush word [] [] tt tt
Spaced-words_from word (c ∷ s) = elim (Bool-cases (is_space c)) [
  | inl e ↦ rw (words_from_space word s c e) (
      Spaced-flush word (c ∷ s) (words_from [] s) e
        (Spaced-space c s (words_from [] s) e (Spaced-words_from [] s)))
  | inr e ↦ rw (words_from_solid word s c e) (
      subst (λ (t : Text). Spaced t (words_from (word ++ c ∷ []) s)) (append_assoc word (c ∷ []) s)
        (Spaced-words_from (word ++ c ∷ []) s))
]

-- A text is words that have characters and no white space, apart by white space; its normalized text is
-- those words with one space between any two, and is normalized already.
pub normalize_text_lem :
    (t : Text)
    → ((ws : List Text) × Spaced t ws × AllWords ws × (normalize_text t ≡ join (codes " ") ws))
      × (normalize_text (normalize_text t) ≡ normalize_text t)
unfolding normalize_text
normalize_text_lem t =
    let words = AllWords-words_from [] t tt in
    (
      (words_from [] t, Spaced-words_from [] t, words, refl),
      ap (join (codes " ")) (words_from-join (words_from [] t) words),
    )
