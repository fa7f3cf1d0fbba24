-- ===== src/Laws/Counts.antt =====
-- src/status.rs: the counts of the rows by their glyphs.
use ast_interpreter.Base.{
  ℕ, zero, suc, ◌+◌, ◌≡◌, refl, ◌⊎◌, inl, inr, ◌↔◌, Bool, true, List, [], ◌∷◌, ◌++◌, length, codes,
  if◌then◌else◌, Bool-cases, arith,
}
use ast_interpreter.Base.Text.{decimal}
use ast_interpreter.Base.Search.{eqb_text, eqb_text_iff}
use ast_interpreter.Error.{Text}
use ast_interpreter.Status.Rows.{check, cross, dash, Row}
use ast_interpreter.Status.Report.{count_rows, count_glyph, total_row, total_rows}

-- As many rows as the number have the property.
abbrev pub CountOf : (Row → Type 0) → List Row → ℕ → Type 0
CountOf P [] n = n ≡ zero
CountOf P (r ∷ rows) n =
    (P r × ((m : ℕ) × (n ≡ suc m) × CountOf P rows m)) ⊎ ((¬ P r) × CountOf P rows n)

-- A line for each column, with the rows that passed, that failed and that were not run, which are all.
abbrev pub GlyphTotals : List Row → List (Text × (Row → Text)) → Text → Type 0
GlyphTotals rows [] text = text ≡ []
GlyphTotals rows ((label, column) ∷ cs) text =
    (p : ℕ) × (f : ℕ) × (d : ℕ) × (rest : Text) × (text
      ≡ (codes "| "
          ++ (label ++ codes " | ")
          ++ (decimal p ++ codes " | ")
          ++ (decimal f ++ codes " | ")
          ++ decimal d
          ++ codes " |\n")
        ++ rest)
    × CountOf (λ r. column r ≡ check) rows p
    × CountOf (λ r. column r ≡ cross) rows f
    × CountOf (λ r. column r ≡ dash) rows d
    × (p + f + d ≡ length rows)
    × GlyphTotals rows cs rest

unfoldable pub bit : Bool → ℕ
bit b = if b then 1 else 0

pub count_rows_more :
    (p : Row → Bool) (r : Row) (rows : List Row)
    → count_rows p (r ∷ rows) ≡ bit (p r) + count_rows p rows
unfolding bit
count_rows_more p r rows = ground arith

pub count_rows-CountOf :
    (p : Row → Bool) (P : Row → Type 0) (rows : List Row)
    → ((r : Row) → (p r ≡ true) ↔ P r)
    → CountOf P rows (count_rows p rows)
count_rows-CountOf p P [] h = refl
count_rows-CountOf p P (r ∷ rows) h = elim (Bool-cases (p r)) [
  | inl e ↦ inl ((h r).0 e, (count_rows p rows, rw e refl, count_rows-CountOf p P rows h))
  | inr e ↦
      let no : ¬ P r = λ x. let yes = (h r).1 x in ground arith in
      rw e (inr (no, count_rows-CountOf p P rows h))
]

abbrev pub IsGlyph : Text → Type 0
IsGlyph g = (g ≡ check) ⊎ ((g ≡ cross) ⊎ (g ≡ dash))

one_glyph :
    (g : Text)
    → IsGlyph g
    → bit (eqb_text g check) + bit (eqb_text g cross) + bit (eqb_text g dash) ≡ 1
unfolding bit
one_glyph g (inl e) = rw e refl
one_glyph g (inr (inl e)) = rw e refl
one_glyph g (inr (inr e)) = rw e refl

-- Every row has a glyph in the column.
abbrev pub AllGlyphs : (Row → Text) → List Row → Type 0
AllGlyphs column [] = Unit
AllGlyphs column (r ∷ rows) = IsGlyph (column r) × AllGlyphs column rows

glyphs_lem :
    (column : Row → Text) (rows : List Row)
    → AllGlyphs column rows
    → count_glyph column check rows + count_glyph column cross rows + count_glyph column dash rows
      ≡ length rows
unfolding count_glyph
glyphs_lem column [] h = refl
glyphs_lem column (r ∷ rows) (g, h) = omega (
  arith,
  glyphs_lem column rows h,
  one_glyph (column r) g,
  count_rows_more (λ (q : Row). eqb_text (column q) check) r rows,
  count_rows_more (λ (q : Row). eqb_text (column q) cross) r rows,
  count_rows_more (λ (q : Row). eqb_text (column q) dash) r rows,
)

count_glyph-CountOf :
    (column : Row → Text) (g : Text) (rows : List Row)
    → CountOf (λ r. column r ≡ g) rows (count_glyph column g rows)
unfolding count_glyph
count_glyph-CountOf column g rows =
    count_rows-CountOf (λ (r : Row). eqb_text (column r) g) (λ r. column r ≡ g) rows
      (λ r. eqb_text_iff (column r) g)

abbrev pub EachColumn : List Row → List (Text × (Row → Text)) → Type 0
EachColumn rows [] = Unit
EachColumn rows ((_, column) ∷ cs) = AllGlyphs column rows × EachColumn rows cs

pub total_rows-GlyphTotals :
    (rows : List Row) (cs : List (Text × (Row → Text)))
    → EachColumn rows cs
    → GlyphTotals rows cs (total_rows rows cs)
unfolding total_rows total_row
total_rows-GlyphTotals rows [] h = refl
total_rows-GlyphTotals rows ((label, column) ∷ cs) (g, h) = (
  count_glyph column check rows,
  count_glyph column cross rows,
  count_glyph column dash rows,
  total_rows rows cs,
  refl,
  count_glyph-CountOf column check rows,
  count_glyph-CountOf column cross rows,
  count_glyph-CountOf column dash rows,
  glyphs_lem column rows g,
  total_rows-GlyphTotals rows cs h,
)
