-- ===== src/Laws/Inputs.antt =====
-- src/input.rs: the values that the check of the inputs lets through.
use ast_interpreter.Base.{
  ℕ, zero, suc, ◌≡◌, refl, inl, inr, Bool, true, false, not, List, [], ◌∷◌, ◌==◌, if◌then◌else◌,
}
use ast_interpreter.Error.{InterpretError}
use ast_interpreter.Value.Ints.{IntValue}
use ast_interpreter.Value.Pattern.{IsCanonical}
use ast_interpreter.Value.Data.{Value, Values, nil, cons, Address}
use ast_interpreter.Host.{Host, FieldId}
use ast_interpreter.Machine.{
  Machine, Outcome, returned, failed, panicked, out_of_fuel, M, and_then, lift, pure, fail,
}
use ast_interpreter.Input.{
  Checker, check_int, check_values, check_all, check_by_shape, check_value, validate_inputs,
}
use ast_interpreter.Laws.Operators.{check_int_lem}

module _ {F : Type 0} (host : Host F) (field : FieldId) where
  -- The integers and the fields of a value, in arrays of any depth, are canonical and of the field of
  -- the program; what stands in cells is not looked at.
  mutual
    pub Valid : Value F → Type 0
    Valid (Value.field f) = (host.field_of f == field) ≡ true
    Valid (Value.int i) = IsCanonical i
    Valid (Value.array elements) = AllValid elements
    Valid (Value.fmt_str fragments captures) = AllValid captures
    Valid _ = Unit

    pub AllValid : Values F → Type 0
    AllValid nil = Unit
    AllValid (cons v vs) = Valid v × AllValid vs

  abbrev pub AllInputs : List (Value F) → Type 0
  AllInputs [] = Unit
  AllInputs (v ∷ vs) = Valid v × AllInputs vs

module _ {F : Type 0} where
  -- If the command returns, the property holds.
  abbrev pub Ensures : {A : Type 0} → Type 0 → Outcome F A → Type 0
  Ensures P (returned a t) = P
  Ensures P (failed e t) = Unit
  Ensures P panicked = Unit
  Ensures P out_of_fuel = Unit

  Ensures-then :
      {A B : Type 0} (P Q : Type 0) (o : Outcome F A) (k : A → M F B)
      → Ensures P o
      → (P → (a : A) (t : Machine F) → Ensures Q (k a t))
      → Ensures Q (and_then o k)
  Ensures-then P Q (returned a t) k p h = h p a t
  Ensures-then P Q (failed e t) k p h = tt
  Ensures-then P Q panicked k p h = tt
  Ensures-then P Q out_of_fuel k p h = tt

  Ensures-map : {A : Type 0} (P Q : Type 0) (o : Outcome F A) → (P → Q) → Ensures P o → Ensures Q o
  Ensures-map P Q (returned a t) f p = f p
  Ensures-map P Q (failed e t) f p = tt
  Ensures-map P Q panicked f p = tt
  Ensures-map P Q out_of_fuel f p = tt

  Ensures-trivial : {A : Type 0} (o : Outcome F A) → Ensures Unit o
  Ensures-trivial (returned a t) = tt
  Ensures-trivial (failed e t) = tt
  Ensures-trivial panicked = tt
  Ensures-trivial out_of_fuel = tt

  Ensures-check_int :
      (i : IntValue) (s : Machine F) → Ensures (IsCanonical i) (lift (check_int i) s)
  Ensures-check_int i s = elim (check_int_lem i) [
    | inl (c, e) ↦ rw e c
    | inr (_, text, e) ↦ rw e tt
  ]

module _ {F : Type 0} (host : Host F) (field : FieldId) where
  abbrev Sound : Checker F → Type 0
  Sound check =
      (seen : List Address) (v : Value F) (s : Machine F)
      → Ensures (Valid host field v) (check seen v s)

  Ensures-check_values :
      (check : Checker F) (seen : List Address) (vs : Values F) (s : Machine F)
      → Sound check
      → Ensures (AllValid host field vs) (check_values check seen vs s)
  unfolding check_values AllValid
  Ensures-check_values check seen nil s h = tt
  Ensures-check_values check seen (cons v vs) s h =
      Ensures-then (Valid host field v) _ (check seen v s) _ (h seen v s) (λ p seen' t.
        Ensures-map (AllValid host field vs) _ (check_values check seen' vs t) (λ q. (p, q))
          (Ensures-check_values check seen' vs t h))

  Ensures-if :
      (b : Bool) (e : InterpretError) (seen : List Address) (s : Machine F)
      → Ensures (b ≡ true) ((if not b then fail e else pure seen) s)
  Ensures-if true e seen s = refl
  Ensures-if false e seen s = tt

  check_by_shape-Sound : (check : Checker F) → Sound check → Sound (check_by_shape host field check)
  unfolding check_by_shape Valid
  check_by_shape-Sound check h seen (Value.field f) s =
      Ensures-if (host.field_of f == field) _ seen s
  check_by_shape-Sound check h seen (Value.int i) s =
      Ensures-then (IsCanonical i) _ (lift (check_int i) s) _ (Ensures-check_int i s) (λ p a t. p)
  check_by_shape-Sound check h seen (Value.array vs) s = Ensures-check_values check seen vs s h
  check_by_shape-Sound check h seen (Value.fmt_str _ vs) s = Ensures-check_values check seen vs s h
  check_by_shape-Sound check h seen (Value.bool b) s = tt
  check_by_shape-Sound check h seen Value.unit s = tt
  check_by_shape-Sound check h seen (Value.str b) s = tt
  check_by_shape-Sound check h seen (Value.function b) s = tt
  check_by_shape-Sound check h seen (Value.tuple cells) s = Ensures-trivial _
  check_by_shape-Sound check h seen (Value.ref a b) s = Ensures-trivial _

  check_value-Sound : (n : ℕ) → Sound (check_value host field n)
  unfolding check_value
  check_value-Sound zero seen v s = tt
  check_value-Sound (suc n) seen v s = check_by_shape-Sound _ (check_value-Sound n) seen v s

  Ensures-check_all :
      (n : ℕ) (seen : List Address) (vs : List (Value F)) (s : Machine F)
      → Ensures (AllInputs host field vs) (check_all (check_value host field n) seen vs s)
  unfolding check_all
  Ensures-check_all n seen [] s = tt
  Ensures-check_all n seen (v ∷ vs) s =
      Ensures-then (Valid host field v) _ _ _ (check_value-Sound n seen v s) (λ p seen' t.
        Ensures-map (AllInputs host field vs) _ _ (λ q. (p, q)) (Ensures-check_all n seen' vs t))

-- Inputs that the check lets through have, in arrays of any depth, only integers in the range of their
-- types, which have at least one bit, and only fields of the program; what stands in cells is not part
-- of the statement.
pub validate_inputs-Ensures :
    {F : Type 0} (host : Host F) (field : FieldId) (n : ℕ) (inputs : List (Value F)) (s : Machine F)
    → Ensures (AllInputs host field inputs) (validate_inputs host field n inputs s)
unfolding validate_inputs
validate_inputs-Ensures host field n inputs s = Ensures-check_all host field n [] inputs s
