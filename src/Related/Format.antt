-- ===== src/Related/Format.antt =====
-- Printing, and the builtins that reach the state.
use ast_interpreter.Base.{ℕ, zero, suc, ◌≤◌, List, [], ◌∷◌, arith, length, get_elem?, codes, ◌==◌}
use ast_interpreter.Error.{Text}
use ast_interpreter.Value.Data.{Value, Address, Fragment, to_list}
use ast_interpreter.Ast.{PrintableType}
use ast_interpreter.Host.{Host}
use ast_interpreter.Eval.Format.{
  Formatter, no_format, format_fragments, format_fmt_str, format_values, format_sequence,
  format_cells, format_tuple, format_fields, format_struct, format_variant, enum_tag, format_enum,
  format_by_type, format_value,
}
use ast_interpreter.Related.Closed.{Closed, options, branches}

module _ {F : Type 0} (c : Closed F) {f g : Formatter F}
    (r : (v : Value F) (t : PrintableType) → c.Rel (f v t) (g v t)) where
  format_fragments-Rel :
      (fs : List Fragment) (vs : List (Value F)) (ts : List PrintableType)
      → c.Rel (format_fragments f fs vs ts) (format_fragments g fs vs ts)
  unfolding format_fragments
  format_fragments-Rel [] [] ts = c.returns _
  format_fragments-Rel [] (_ ∷ _) ts = c.fails _
  format_fragments-Rel (Fragment.string s ∷ fs) vs ts =
      c.bind (format_fragments-Rel fs vs ts) (λ rest. c.returns _)
  format_fragments-Rel (Fragment.interpolation ∷ fs) (v ∷ vs) (t ∷ ts) =
      c.bind (r v t) (λ text. c.bind (format_fragments-Rel fs vs ts) (λ rest. c.returns _))
  format_fragments-Rel (Fragment.interpolation ∷ fs) (v ∷ vs) [] = c.fails _
  format_fragments-Rel (Fragment.interpolation ∷ fs) [] ts = c.fails _

  pub format_fmt_str-Rel :
      (fs : List Fragment) (vs : List (Value F)) (ts : List PrintableType)
      → c.Rel (format_fmt_str f fs vs ts) (format_fmt_str g fs vs ts)
  unfolding format_fmt_str
  format_fmt_str-Rel fs vs ts =
      branches c (length vs == length ts) (format_fragments-Rel fs vs ts) (c.fails _)

  format_values-Rel :
      (vs : List (Value F)) (t : PrintableType)
      → c.Rel (format_values f vs t) (format_values g vs t)
  unfolding format_values
  format_values-Rel [] t = c.returns _
  format_values-Rel (v ∷ vs) t =
      c.bind (r v t) (λ text. c.bind (format_values-Rel vs t) (λ rest. c.returns _))

  format_sequence-Rel :
      (vs : List (Value F)) (t : PrintableType) (opening : Text)
      → c.Rel (format_sequence f vs t opening) (format_sequence g vs t opening)
  unfolding format_sequence
  format_sequence-Rel vs t opening = c.bind (format_values-Rel vs t) (λ ts. c.returns _)

  format_cells-Rel :
      (cs : List Address) (ts : List PrintableType)
      → c.Rel (format_cells f cs ts) (format_cells g cs ts)
  unfolding format_cells
  format_cells-Rel [] ts = c.returns _
  format_cells-Rel (a ∷ cs) [] = c.returns _
  format_cells-Rel (a ∷ cs) (t ∷ ts) =
      c.bind (c.reads a)
        (λ v. c.bind (r v t) (λ text. c.bind (format_cells-Rel cs ts) (λ rest. c.returns _)))

  format_tuple-Rel :
      (cs : List Address) (ts : List PrintableType)
      → c.Rel (format_tuple f cs ts) (format_tuple g cs ts)
  unfolding format_tuple
  format_tuple-Rel cs ts =
      branches c (length cs == length ts) (c.bind (format_cells-Rel cs ts) (λ texts. c.returns _))
        (c.fails _)

  format_fields-Rel :
      (cs : List Address) (fs : List (Text × PrintableType))
      → c.Rel (format_fields f cs fs) (format_fields g cs fs)
  unfolding format_fields
  format_fields-Rel [] fs = c.returns _
  format_fields-Rel (a ∷ cs) [] = c.returns _
  format_fields-Rel (a ∷ cs) ((name, t) ∷ fs) =
      c.bind (c.reads a)
        (λ v. c.bind (r v t) (λ text. c.bind (format_fields-Rel cs fs) (λ rest. c.returns _)))

  format_struct-Rel :
      (cs : List Address) (name : Text) (fs : List (Text × PrintableType))
      → c.Rel (format_struct f cs name fs) (format_struct g cs name fs)
  unfolding format_struct
  format_struct-Rel cs name fs =
      branches c (length cs == length fs) (c.bind (format_fields-Rel cs fs) (λ texts. c.returns _))
        (c.fails _)

  format_variant-Rel :
      (v : Value F) (name variant : Text) (ts : List PrintableType)
      → c.Rel (format_variant f v name variant ts) (format_variant g v name variant ts)
  unfolding format_variant
  format_variant-Rel (Value.tuple cs) name variant ts =
      branches c (length cs == length ts) (c.bind (format_cells-Rel cs ts) (λ texts. c.returns _))
        (c.fails _)
  format_variant-Rel _ name variant ts = c.fails _

  enum_tag-Rel : (host : Host F) (v : Value F) → c.Rel (enum_tag host v) (enum_tag host v)
  unfolding enum_tag
  enum_tag-Rel host (Value.field tag) = options c _ _
  enum_tag-Rel host _ = c.fails _

  format_enum-Rel :
      (host : Host F) (cs : List Address) (name : Text) (vs : List (Text × List PrintableType))
      → c.Rel (format_enum host f cs name vs) (format_enum host g cs name vs)
  unfolding format_enum
  format_enum-Rel host [] name vs = c.fails _
  format_enum-Rel host (a ∷ cs) name vs = c.bind (c.reads a) (λ v.
      c.bind (enum_tag-Rel host v) (λ tag.
        c.bind (options c (get_elem? vs tag) no_format) (λ variant.
          c.bind (options c (get_elem? cs tag) no_format) (λ cell.
            c.bind (c.reads cell)
              (λ payload. format_variant-Rel payload name variant.0 variant.1)))))

  format_by_type-Rel :
      (host : Host F) (v : Value F) (t : PrintableType)
      → c.Rel (format_by_type host f v t) (format_by_type host g v t)
  unfolding format_by_type
  format_by_type-Rel host (Value.field x) PrintableType.field = c.returns _
  format_by_type-Rel host (Value.int i) (PrintableType.signed_integer _) = c.returns _
  format_by_type-Rel host (Value.int i) (PrintableType.unsigned_integer _) = c.returns _
  format_by_type-Rel host (Value.bool b) PrintableType.boolean = c.returns _
  format_by_type-Rel host (Value.str bytes) (PrintableType.string _) = c.returns _
  format_by_type-Rel host (Value.fmt_str fs vs) (PrintableType.fmt_string type) =
      c.bind (options c _ _) (λ ts. format_fmt_str-Rel fs (to_list vs) ts)
  format_by_type-Rel host Value.unit PrintableType.unit = c.returns _
  format_by_type-Rel host (Value.array vs) (PrintableType.array type) =
      format_sequence-Rel _ _ (codes "[")
  format_by_type-Rel host (Value.array vs) (PrintableType.vector type) =
      format_sequence-Rel _ _ (codes "@[")
  format_by_type-Rel host (Value.tuple cs) (PrintableType.tuple ts) = format_tuple-Rel _ _
  format_by_type-Rel host (Value.tuple cs) (PrintableType.struct name fs) = format_struct-Rel _ _ _
  format_by_type-Rel host (Value.tuple cs) (PrintableType.enum name vs) = format_enum-Rel host _ _ _
  format_by_type-Rel host (Value.function _) (PrintableType.function display) = c.returns _
  format_by_type-Rel host (Value.ref _ _) (PrintableType.reference mutable) = c.returns _
  format_by_type-Rel host (Value.ref a _) t = c.bind (c.reads a) (λ v. r v t)
  format_by_type-Rel host _ _ = c.fails _

module _ {F : Type 0} (c : Closed F) (host : Host F) where
  pub format_value-Rel :
      (n m : ℕ)
      → n ≤ m
      → (v : Value F) (t : PrintableType)
      → c.Rel (format_value host n v t) (format_value host m v t)
  unfolding format_value
  format_value-Rel zero m h v t = c.starved _
  format_value-Rel (suc n) zero h v t = absurd (omega arith)
  format_value-Rel (suc n) (suc m) h v t =
      format_by_type-Rel c (format_value-Rel n m (omega arith)) host v t
