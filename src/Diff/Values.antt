-- ===== src/Diff/Values.antt =====
-- src/diff.rs: `DiffValue`, the encoding of a returned value that does not depend on the field.
use ast_interpreter.Base.{
  ℕ, zero, suc, Bool, true, false, List, [], ◌∷◌, leb, ◌==◌, ◌&&◌, if◌then◌else◌,
}
use ast_interpreter.Base.Int.{ℤ, eqb_ℤ}
use ast_interpreter.Base.Text.{decimal_ℤ}
use ast_interpreter.Base.Search.{eqb_text}
use ast_interpreter.Error.{Text, internal}
use ast_interpreter.Value.Data.{Value, Values, nil, cons, Address}
use ast_interpreter.Host.{Host}
use ast_interpreter.Machine.{M, ◌>>=◌, pure, fail, no_fuel, read}
use ast_interpreter.Eval.Scalar.{eqb_Bool}

-- A Rust `String` is its UTF-8 bytes, so `str` and `bytes` hold bytes alike.
mutual
  pub data DiffValue : Type 0 where
    field : Text → DiffValue
    int : (signed : Bool) → (bits : ℕ) → (value : ℤ) → DiffValue
    bool : Bool → DiffValue
    unit : DiffValue
    str bytes : List ℕ → DiffValue
    array tuple : DiffValues → DiffValue
    function : DiffValue

  pub data DiffValues : Type 0 where
    none : DiffValues
    more : DiffValue → DiffValues → DiffValues

abbrev pub in_bytes : ℕ → ℕ → ℕ → Bool
in_bytes low high b = leb low b && leb b high

-- The number of continuation bytes after a first byte, with the bounds on the first of them.
abbrev pub utf8_lead : ℕ → ℕ × ℕ × ℕ
utf8_lead b =
    if in_bytes 194 223 b
    then (1, 128, 191)
    else if b == 224
    then (2, 160, 191)
    else if b == 237
    then (2, 128, 159)
    else if in_bytes 225 239 b
    then (2, 128, 191)
    else if b == 240
    then (3, 144, 191)
    else if in_bytes 241 243 b
    then (3, 128, 191)
    else if b == 244
    then (3, 128, 143)
    else (0, 0, 0)

-- `String::from_utf8` accepts the bytes. `left` continuation bytes are due, the next within bounds.
unfoldable pub is_utf8_from : (left low high : ℕ) → List ℕ → Bool
is_utf8_from zero low high [] = true
is_utf8_from (suc left) low high [] = false
is_utf8_from (suc left) low high (b ∷ bs) = in_bytes low high b && is_utf8_from left 128 191 bs
is_utf8_from zero low high (b ∷ bs) =
    let single = is_utf8_from zero 0 0 bs in
    let (n, lo, hi) = utf8_lead b in
    let many = is_utf8_from n lo hi bs in
    if leb b 127 then single else if n == 0 then false else many

unfoldable pub is_utf8 : List ℕ → Bool
unfolding is_utf8_from
is_utf8 bs = is_utf8_from zero 0 0 bs

-- The derived `PartialEq`.
unfoldable mutual
  pub eqb_DiffValue : DiffValue → DiffValue → Bool
  eqb_DiffValue (DiffValue.field x) (DiffValue.field y) = eqb_text x y
  eqb_DiffValue (DiffValue.int s b v) (DiffValue.int t c w) = eqb_Bool s t && (b == c && eqb_ℤ v w)
  eqb_DiffValue (DiffValue.bool x) (DiffValue.bool y) = eqb_Bool x y
  eqb_DiffValue DiffValue.unit DiffValue.unit = true
  eqb_DiffValue (DiffValue.str x) (DiffValue.str y) = eqb_text x y
  eqb_DiffValue (DiffValue.bytes x) (DiffValue.bytes y) = eqb_text x y
  eqb_DiffValue (DiffValue.array xs) (DiffValue.array ys) = eqb_DiffValues xs ys
  eqb_DiffValue (DiffValue.tuple xs) (DiffValue.tuple ys) = eqb_DiffValues xs ys
  eqb_DiffValue DiffValue.function DiffValue.function = true
  eqb_DiffValue _ _ = false

  pub eqb_DiffValues : DiffValues → DiffValues → Bool
  eqb_DiffValues DiffValues.none DiffValues.none = true
  eqb_DiffValues (DiffValues.more x xs) (DiffValues.more y ys) =
      eqb_DiffValue x y && eqb_DiffValues xs ys
  eqb_DiffValues _ _ = false

unfoldable pub from_bytes : List ℕ → DiffValue
unfolding is_utf8
from_bytes bs = if is_utf8 bs then DiffValue.str bs else DiffValue.bytes bs

module _ {F : Type 0} where
  -- The encodings of the elements, up to the first error.
  unfoldable pub from_values : (Value F → M F DiffValue) → Values F → M F DiffValues
  from_values encode nil = pure DiffValues.none
  from_values encode (cons v vs) = do
    d ← encode v
    ds ← from_values encode vs
    pure (DiffValues.more d ds)

  unfoldable pub from_cells : (Value F → M F DiffValue) → List Address → M F DiffValues
  from_cells encode [] = pure DiffValues.none
  from_cells encode (c ∷ cells) = do
    v ← read c
    d ← encode v
    ds ← from_cells encode cells
    pure (DiffValues.more d ds)

  unfoldable pub from_shape : Host F → (Value F → M F DiffValue) → Value F → M F DiffValue
  unfolding from_values from_cells from_bytes
  from_shape host encode (Value.field f) = pure (DiffValue.field (decimal_ℤ (host.to_bigint f)))
  from_shape host encode (Value.int i) = pure (DiffValue.int i.signed i.bits i.value)
  from_shape host encode (Value.bool b) = pure (DiffValue.bool b)
  from_shape host encode Value.unit = pure DiffValue.unit
  from_shape host encode (Value.str bs) = pure (from_bytes bs)
  from_shape host encode (Value.fmt_str _ _) =
      fail (internal "a format string was returned from the entry point")
  from_shape host encode (Value.array elements) = do
    ds ← from_values encode elements
    pure (DiffValue.array ds)
  from_shape host encode (Value.tuple cells) = do
    ds ← from_cells encode cells
    pure (DiffValue.tuple ds)
  from_shape host encode (Value.function _) = pure DiffValue.function
  from_shape host encode (Value.ref cell _) = do v ← read cell; encode v

  -- References may go round a cycle of cells.
  unfoldable pub from_value : Host F → ℕ → Value F → M F DiffValue
  unfolding from_shape
  from_value host zero v = no_fuel
  from_value host (suc n) v = from_shape host (from_value host n) v
