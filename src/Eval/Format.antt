-- ===== src/Eval/Format.antt =====
-- src/eval.rs: the text of a format string and of a printed value. A value is printed by following
-- its printable type and the cells of its tuples, on fuel.
use ast_interpreter.Base.{
  ℕ, zero, suc, List, [], ◌∷◌, ◌++◌, Option, none, some, length, get_elem?, ◌==◌, if◌then◌else◌,
  codes,
}
use ast_interpreter.Base.Text.{decimal_ℤ, join}
use ast_interpreter.Base.Int.{ℤ, pos, negsuc}
use ast_interpreter.Error.{Text, InterpretError, type_error, internal}
use ast_interpreter.Value.Data.{Value, Fragment, Address, to_list}
use ast_interpreter.Ast.{PrintableType, PrintableTypes, PrintableFields, PrintableVariants}
use ast_interpreter.Host.{Host}
use ast_interpreter.Machine.{M, pure, fail, no_fuel, ok_or_fail, read, ◌>>=◌}

abbrev pub types_list : PrintableTypes → List PrintableType
types_list PrintableTypes.nil = []
types_list (PrintableTypes.cons t ts) = t ∷ types_list ts

abbrev pub fields_list : PrintableFields → List (Text × PrintableType)
fields_list PrintableFields.no_fields = []
fields_list (PrintableFields.with_field n t fs) = (n, t) ∷ fields_list fs

abbrev pub variants_list : PrintableVariants → List (Text × List PrintableType)
variants_list PrintableVariants.no_variants = []
variants_list (PrintableVariants.with_variant n ts vs) = (n, types_list ts) ∷ variants_list vs

unfoldable pub printable_capture_types : PrintableType → Option (List PrintableType)
printable_capture_types (PrintableType.tuple types) = some (types_list types)
printable_capture_types PrintableType.unit = some []
printable_capture_types _ = none

-- The mismatch error of `format_value`.
abbrev pub no_format : InterpretError
no_format = type_error "cannot format value as printable type "

-- An enum's tag as an index; a negative number has none.
abbrev pub tag_index : ℤ → Option ℕ
tag_index (pos n) = some n
tag_index (negsuc _) = none

abbrev pub Formatter : Type 0 → Type 0
Formatter F = Value F → PrintableType → M F Text

abbrev pub one_comma : List Text → List Text
one_comma (t ∷ []) = (t ++ codes ",") ∷ []
one_comma ts = ts

abbrev pub variant_text : Text → Text → List Text → Text
variant_text name variant [] = name ++ codes "::" ++ variant
variant_text name variant (t ∷ ts) =
    name ++ codes "::" ++ variant ++ codes "(" ++ join (codes ", ") (t ∷ ts) ++ codes ")"

module _ {F : Type 0} where
  -- The loop over the fragments, with the captures that are left.
  unfoldable pub format_fragments :
      Formatter F → List Fragment → List (Value F) → List PrintableType → M F Text
  format_fragments format [] [] types = pure []
  format_fragments format [] (_ ∷ _) types =
      fail (internal "fmt-string has fewer interpolations than captures")
  format_fragments format (Fragment.string s ∷ fragments) values types = do
    rest ← format_fragments format fragments values types
    pure (s ++ rest)
  format_fragments format (Fragment.interpolation ∷ fragments) (v ∷ values) (t ∷ types) = do
    text ← format v t
    rest ← format_fragments format fragments values types
    pure (text ++ rest)
  format_fragments format (Fragment.interpolation ∷ fragments) _ _ =
      fail (internal "fmt-string has more interpolations than captures")

  unfoldable pub format_fmt_str :
      Formatter F → List Fragment → List (Value F) → List PrintableType → M F Text
  unfolding format_fragments
  format_fmt_str format fragments values types =
      if length values == length types
      then format_fragments format fragments values types
      else fail (internal "fmt-string has capture types")

  unfoldable pub format_values : Formatter F → List (Value F) → PrintableType → M F (List Text)
  format_values format [] type = pure []
  format_values format (v ∷ vs) type = do
    t ← format v type
    ts ← format_values format vs type
    pure (t ∷ ts)

  unfoldable pub format_sequence :
      Formatter F → List (Value F) → PrintableType → (opening : Text) → M F Text
  unfolding format_values
  format_sequence format values type opening = do
    ts ← format_values format values type
    pure (opening ++ join (codes ", ") ts ++ codes "]")

  unfoldable pub format_cells : Formatter F → List Address → List PrintableType → M F (List Text)
  format_cells format (c ∷ cs) (t ∷ ts) = do
    v ← read c
    text ← format v t
    rest ← format_cells format cs ts
    pure (text ∷ rest)
  format_cells format _ _ = pure []

  unfoldable pub format_tuple : Formatter F → List Address → List PrintableType → M F Text
  unfolding format_cells
  format_tuple format cells types =
      if length cells == length types
      then (do
        ts ← format_cells format cells types
        pure (codes "(" ++ join (codes ", ") (one_comma ts) ++ codes ")"))
      else fail no_format

  unfoldable pub format_fields :
      Formatter F → List Address → List (Text × PrintableType) → M F (List Text)
  format_fields format (c ∷ cs) ((name, t) ∷ fs) = do
    v ← read c
    text ← format v t
    rest ← format_fields format cs fs
    pure ((name ++ codes ": " ++ text) ∷ rest)
  format_fields format _ _ = pure []

  unfoldable pub format_struct :
      Formatter F → List Address → Text → List (Text × PrintableType) → M F Text
  unfolding format_fields
  format_struct format cells name fields =
      if length cells == length fields
      then (do
        ts ← format_fields format cells fields
        pure (name ++ codes " { " ++ join (codes ", ") ts ++ codes " }"))
      else fail no_format

  unfoldable pub format_variant :
      Formatter F → Value F → Text → Text → List PrintableType → M F Text
  unfolding format_cells
  format_variant format (Value.tuple values) name variant types =
      if length values == length types
      then (do ts ← format_cells format values types; pure (variant_text name variant ts))
      else fail no_format
  format_variant format _ name variant types = fail no_format

module _ {F : Type 0} (host : Host F) where
  unfoldable pub enum_tag : Value F → M F ℕ
  enum_tag (Value.field tag) = ok_or_fail (tag_index (host.to_bigint tag)) no_format
  enum_tag _ = fail no_format

  unfoldable pub format_enum :
      Formatter F → List Address → Text → List (Text × List PrintableType) → M F Text
  unfolding enum_tag format_variant
  format_enum format [] name variants = fail no_format
  format_enum format (first ∷ cells) name variants = do
    tag_value ← read first
    tag ← enum_tag tag_value
    (variant, types) ← ok_or_fail (get_elem? variants tag) no_format
    cell ← ok_or_fail (get_elem? cells tag) no_format
    payload ← read cell
    format_variant format payload name variant types

  -- The arms for a type, and the one for a reference under a type of another kind.
  unfoldable pub format_by_type : Formatter F → Formatter F
  unfolding printable_capture_types format_fmt_str format_sequence format_tuple format_struct
      format_enum
  format_by_type format (Value.field f) PrintableType.field = pure (host.to_short_hex f)
  format_by_type format (Value.int i) (PrintableType.signed_integer _) = pure (decimal_ℤ i.value)
  format_by_type format (Value.int i) (PrintableType.unsigned_integer _) = pure (decimal_ℤ i.value)
  format_by_type format (Value.bool b) PrintableType.boolean =
      pure (if b then codes "true" else codes "false")
  format_by_type format (Value.str bytes) (PrintableType.string _) =
      pure (host.from_utf8_lossy bytes)
  format_by_type format (Value.fmt_str fragments captures) (PrintableType.fmt_string type) = do
    types ← ok_or_fail (printable_capture_types type) no_format
    format_fmt_str format fragments (to_list captures) types
  format_by_type format Value.unit PrintableType.unit = pure (codes "()")
  format_by_type format (Value.array values) (PrintableType.array type) =
      format_sequence format (to_list values) type (codes "[")
  format_by_type format (Value.array values) (PrintableType.vector type) =
      format_sequence format (to_list values) type (codes "@[")
  format_by_type format (Value.tuple cells) (PrintableType.tuple types) =
      format_tuple format cells (types_list types)
  format_by_type format (Value.tuple cells) (PrintableType.struct name fields) =
      format_struct format cells name (fields_list fields)
  format_by_type format (Value.tuple cells) (PrintableType.enum name variants) =
      format_enum format cells name (variants_list variants)
  format_by_type format (Value.function _) (PrintableType.function display) =
      pure (codes "<<" ++ display ++ codes ">>")
  format_by_type format (Value.ref _ _) (PrintableType.reference mutable) =
      pure (if mutable then codes "<<mutable ref>>" else codes "<<ref>>")
  format_by_type format (Value.ref cell _) type = do v ← read cell; format v type
  format_by_type format _ _ = fail no_format

  unfoldable pub format_value : ℕ → Formatter F
  unfolding format_by_type
  format_value zero v type = no_fuel
  format_value (suc n) v type = format_by_type (format_value n) v type
