-- ===== src/Input.antt =====
-- src/input.rs: the check of caller-built inputs, which `interpret_with_inputs` calls.
use ast_interpreter.Base.{ℕ, zero, suc, not, ◌||◌, List, [], ◌∷◌, ◌==◌, if◌then◌else◌}
use ast_interpreter.Base.Int.{ltb_ℤ}
use ast_interpreter.Error.{Result, ok, err, invalid_input, ◌>>=◌ as bind}
use ast_interpreter.Value.Ints.{IntValue, range}
use ast_interpreter.Value.Data.{Value, Values, nil, cons, Address}
use ast_interpreter.Host.{Host, FieldId}
use ast_interpreter.Machine.{M, pure, fail, lift, no_fuel, read, ◌>>=◌, ◌>>◌}
use ast_interpreter.Eval.Cells.{holds}

-- A type of no bits is refused before `range` can panic.
unfoldable pub check_int : IntValue → Result (Unit {0})
check_int int =
    if int.bits == 0
    then err (invalid_input "integer input declares the empty type ")
    else bind (range int.signed int.bits) (λ (lo, hi).
      if ltb_ℤ int.value lo || ltb_ℤ hi int.value
      then err (invalid_input "integer input is not a value of ")
      else ok tt)

-- The cells seen are passed along.
abbrev pub Checker : Type 0 → Type 0
Checker F = List Address → Value F → M F (List Address)

module _ {F : Type 0} where
  unfoldable pub check_cells : Checker F → List Address → List Address → M F (List Address)
  check_cells check seen [] = pure seen
  check_cells check seen (c ∷ cs) = do
    seen' ← if holds c seen then pure seen else (do v ← read c; check (c ∷ seen) v)
    check_cells check seen' cs

  unfoldable pub check_values : Checker F → List Address → Values F → M F (List Address)
  check_values check seen nil = pure seen
  check_values check seen (cons v vs) = do seen' ← check seen v; check_values check seen' vs

  unfoldable pub check_all : Checker F → List Address → List (Value F) → M F (Unit {0})
  check_all check seen [] = pure tt
  check_all check seen (v ∷ vs) = do seen' ← check seen v; check_all check seen' vs

module _ {F : Type 0} (host : Host F) (field : FieldId) where
  unfoldable pub check_by_shape : Checker F → Checker F
  unfolding check_int check_cells check_values
  check_by_shape check seen (Value.field f) =
      if not (host.field_of f == field)
      then fail (invalid_input "Field input belongs to , but the program uses ")
      else pure seen
  check_by_shape check seen (Value.int i) = do lift (check_int i); pure seen
  check_by_shape check seen (Value.array values) = check_values check seen values
  check_by_shape check seen (Value.fmt_str _ captures) = check_values check seen captures
  check_by_shape check seen (Value.tuple cells) = check_cells check seen cells
  check_by_shape check seen (Value.ref cell _) = check_cells check seen (cell ∷ [])
  check_by_shape check seen _ = pure seen

  unfoldable pub check_value : ℕ → Checker F
  unfolding check_by_shape
  check_value zero seen v = no_fuel
  check_value (suc n) seen v = check_by_shape (check_value n) seen v

  unfoldable pub validate_inputs : ℕ → List (Value F) → M F (Unit {0})
  unfolding check_value check_all
  validate_inputs n inputs = check_all (check_value n) [] inputs
