-- ===== src/Laws/Acceptance.antt =====
-- src/input.rs: the check of the inputs lets every value of a declared type through.
use mathlib.Core.Path.{subst}
use ast_interpreter.Base.{
  ℕ, zero, suc, ◌≤◌, ◌<◌, ◌≡◌, refl, Bool, true, false, not, List, [], ◌∷◌, some, ◌==◌, arith,
  get_elem?, if◌then◌else◌, inl, inr, Bool-cases,
}
use ast_interpreter.Error.{Text, InterpretError, ok}
use ast_interpreter.Value.Ints.{IntValue}
use ast_interpreter.Value.Pattern.{IsCanonical}
use ast_interpreter.Value.Data.{Value, Values, nil, cons, Address}
use ast_interpreter.Ast.{MonoType, Types}
use ast_interpreter.Host.{Host, FieldId}
use ast_interpreter.Machine.{Machine, Outcome, returned, fail, pure}
use ast_interpreter.Eval.Cells.{holds}
use ast_interpreter.Input.{
  Checker, check_int, check_cells, check_values, check_all, check_by_shape, check_value,
  validate_inputs,
}
use ast_interpreter.Laws.Operators.{check_int_lem}
use ast_interpreter.Laws.Typing.{HasType, HaveTypes, ForEach, AllBound}
use ast_interpreter.Ast.{Program}
use ast_interpreter.Prover.Abi.{Bridge, Abi, Signature}
use ast_interpreter.Prover.Bind.{inputs_from_prover_toml}
use ast_interpreter.Laws.After.{After}
use ast_interpreter.Laws.Parameters.{inputs_from_prover_toml-After}
use ast_interpreter.Laws.Encoding.{levels, levels_all, levels_pos, read_lem}

-- Every integer type, at any depth, has at least one bit.
unfoldable mutual
  pub HasBits : MonoType → Type 0
  HasBits (MonoType.integer _ bits) = 0 < bits
  HasBits (MonoType.array _ type) = HasBits type
  HasBits (MonoType.tuple types) = HaveBits types
  HasBits _ = Unit

  pub HaveBits : Types → Type 0
  HaveBits Types.nil = Unit
  HaveBits (Types.cons type types) = HasBits type × HaveBits types

-- The levels of each parameter's type are at most `n`, and its integers have bits.
abbrev pub AllFit : ℕ → List (Text × MonoType) → Type 0
AllFit n [] = Unit
AllFit n ((_, type) ∷ parameters) = (levels type ≤ n) × HasBits type × AllFit n parameters

check_int-ok : (i : IntValue) → IsCanonical i → check_int i ≡ ok tt
check_int-ok i c = elim (check_int_lem i) [ inl (_, e) ↦ e | inr (n, _, _) ↦ absurd (n c) ]

module _ {F : Type 0} where
  -- The command returns in the state it was given.
  abbrev pub Passes : {A : Type 0} → Machine F → Outcome F A → Type 0
  Passes {A} s o = (a : A) × (o ≡ returned a s)

  Passes-if :
      (b : Bool) (e : InterpretError) (seen : List Address) (s : Machine F)
      → b ≡ true
      → Passes s ((if not b then fail e else pure seen) s)
  Passes-if true e seen s h = (seen, refl)
  Passes-if false e seen s h = ground arith

  Passes-check_values :
      (check : Checker F) (P : Value F → Type 0) (vs : Values F) (seen : List Address)
      (s : Machine F)
      → ((v : Value F) (seen : List Address) → P v → Passes s (check seen v s))
      → ForEach P vs
      → Passes s (check_values check seen vs s)
  unfolding check_values
  Passes-check_values check P nil seen s h p = (seen, refl)
  Passes-check_values check P (cons v vs) seen s h (p, ps) =
      let (seen', e) = h v seen p in
      let (seen'', e') = Passes-check_values check P vs seen' s h ps in (seen'', rw (e, e') refl)

  -- A cell that was seen is passed over.
  Passes-cell :
      (check : Checker F) (c : Address) (v : Value F) (cs seen : List Address) (s : Machine F)
      → get_elem? s.heap c ≡ some v
      → ((seen : List Address) → Passes s (check seen v s))
      → ((seen : List Address) → Passes s (check_cells check seen cs s))
      → Passes s (check_cells check seen (c ∷ cs) s)
  unfolding check_cells
  Passes-cell check c v cs seen s e h k = elim (Bool-cases (holds c seen)) [
    | inl b ↦ let (seen', e') = k seen in (seen', rw (b, e') refl)
    | inr b ↦
        let (seen', e') = h (c ∷ seen) in
        let (seen'', e'') = k seen' in (seen'', rw (b, read_lem s c v e, e', e'') refl)
  ]

module _ {F : Type 0} (host : Host F) (field : FieldId) where
  mutual
    unfolding HasType HaveTypes HasBits HaveBits levels levels_all check_value check_by_shape
        check_cells

    check_value_typed :
        (n : ℕ) (type : MonoType) (v : Value F) (seen : List Address) (s : Machine F)
        → levels type ≤ n
        → HasBits type
        → HasType host field s.heap type v
        → Passes s (check_value host field n seen v s)
    check_value_typed zero type v seen s l b h = absurd (levels_pos type l)
    check_value_typed (suc n) MonoType.field (Value.field f) seen s l b h =
        Passes-if (host.field_of f == field) _ seen s h
    check_value_typed (suc n) MonoType.bool (Value.bool _) seen s l b h = (seen, refl)
    check_value_typed (suc n) MonoType.unit Value.unit seen s l b h = (seen, refl)
    check_value_typed (suc n) (MonoType.integer signed bits) (Value.int i) seen s l b (_, _, c) =
        (seen, rw (check_int-ok i (c b)) refl)
    check_value_typed (suc n) (MonoType.string _) (Value.str _) seen s l b h = (seen, refl)
    check_value_typed (suc n) (MonoType.array _ type) (Value.array vs) seen s l b (_, h) =
        Passes-check_values (check_value host field n) (HasType host field s.heap type) vs seen s
          (λ v seen' p. check_value_typed n type v seen' s (omega arith) b p) h
    check_value_typed (suc n) (MonoType.tuple types) (Value.tuple cells) seen s l b h =
        check_cells_typed n types cells seen s (omega arith) b h
    check_value_typed (suc n) _ _ seen s l b h = absurd h

    check_cells_typed :
        (n : ℕ) (types : Types) (cells seen : List Address) (s : Machine F)
        → levels_all types ≤ n
        → HaveBits types
        → HaveTypes host field s.heap types cells
        → Passes s (check_cells (check_value host field n) seen cells s)
    check_cells_typed n Types.nil [] seen s l b h = (seen, refl)
    check_cells_typed n (Types.cons type types) (c ∷ cells) seen s l (b, bs) ((v, e, p), h) =
        Passes-cell (check_value host field n) c v cells seen s e
          (λ seen'. check_value_typed n type v seen' s (omega arith) b p)
          (λ seen'. check_cells_typed n types cells seen' s (omega arith) bs h)
    check_cells_typed n _ _ seen s l b h = absurd h

  check_all_typed :
      (n : ℕ) (parameters : List (Text × MonoType)) (vs : List (Value F)) (seen : List Address)
      (s : Machine F)
      → AllFit n parameters
      → AllBound host field parameters s.heap vs
      → Passes s (check_all (check_value host field n) seen vs s)
  unfolding check_all
  check_all_typed n [] [] seen s f h = (tt, refl)
  check_all_typed n ((_, type) ∷ parameters) (v ∷ vs) seen s (l, b, f) (p, h) =
      let (seen', e) = check_value_typed n type v seen s l b p in
      let (u, e') = check_all_typed n parameters vs seen' s f h in (u, rw (e, e') refl)
  check_all_typed n [] (v ∷ vs) seen s f h = absurd h
  check_all_typed n (_ ∷ parameters) [] seen s f h = absurd h

  -- With fuel for the levels of the types, inputs of declared types, whose integer types have at least
  -- one bit, pass the check, which changes nothing.
  pub validate_inputs-Passes :
      (n : ℕ) (parameters : List (Text × MonoType)) (inputs : List (Value F)) (s : Machine F)
      → AllFit n parameters
      → AllBound host field parameters s.heap inputs
      → Passes s (validate_inputs host field n inputs s)
  unfolding validate_inputs
  validate_inputs-Passes n parameters inputs s f h = check_all_typed n parameters inputs [] s f h

module _ {F S : Type 0} (host : Host F) (bridge : Bridge F S) (field : FieldId)
    (of_field : (n : ℕ) (f : F)
      → bridge.try_from_biguint n field ≡ some f
      → (host.field_of f == field) ≡ true) where
  after_returned :
      {A : Type 0} (P : List (Value F) → A → Type 0) (s t : Machine F) (o : Outcome F A) (a : A)
      → o ≡ returned a t
      → After P s o
      → P t.heap a
  after_returned P s t o a e h =
      let moved : After P s (returned a t) = subst (After P s) e h in moved.1

  -- Where `try_from_biguint` makes values of the program's field: the inputs that are read from a
  -- `Prover.toml` pass the interpreter's check, with fuel for the levels of the parameters' types, whose
  -- integer types have at least one bit.
  pub inputs_from_prover_toml-Passes :
      (n : ℕ) (program : Program) (main : Signature) (abi : Abi) (toml_src : Text) (s t : Machine F)
      (inputs : List (Value F))
      → AllFit n main.parameters
      → inputs_from_prover_toml bridge field program main abi toml_src s ≡ returned inputs t
      → Passes t (validate_inputs host field n inputs t)
  inputs_from_prover_toml-Passes n program main abi toml_src s t inputs f e =
      validate_inputs-Passes host field n main.parameters inputs t f (
        after_returned (AllBound host field main.parameters) s t _ inputs e
          (inputs_from_prover_toml-After host bridge field of_field program main abi toml_src s))
