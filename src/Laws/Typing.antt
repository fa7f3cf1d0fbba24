-- ===== src/Laws/Typing.antt =====
-- src/input.rs: the types of the values that a parsed `Prover.toml` becomes. A value's tuples are read in
-- the heap that holds their cells.
use ast_interpreter.Base.{ℕ, zero, suc, ◌≡◌, ◌<◌, true, List, [], ◌∷◌, some, ◌==◌, get_elem?}
use ast_interpreter.Error.{Text}
use ast_interpreter.Value.Pattern.{IsCanonical}
use ast_interpreter.Value.Data.{Value, Values, nil, cons, Address}
use ast_interpreter.Ast.{MonoType, Types}
use ast_interpreter.Host.{Host, FieldId}

-- Every element of an array, or every value of a list.
abbrev pub ForEach : {F : Type 0} → (Value F → Type 0) → Values F → Type 0
ForEach P nil = Unit
ForEach P (cons v vs) = P v × ForEach P vs

abbrev pub count_values : {F : Type 0} → Values F → ℕ
count_values nil = zero
count_values (cons _ vs) = suc (count_values vs)

ForEach-map :
    {F : Type 0} (P Q : Value F → Type 0)
    → ((v : Value F) → P v → Q v)
    → (vs : Values F) → ForEach P vs
    → ForEach Q vs
ForEach-map P Q f nil h = tt
ForEach-map P Q f (cons v vs) (p, h) = (f v p, ForEach-map P Q f vs h)

-- Every cell of the first heap stands in the second.
abbrev pub Grown : {F : Type 0} → List (Value F) → List (Value F) → Type 0
Grown {F} heap later =
    (i : Address) (v : Value F) → get_elem? heap i ≡ some v → get_elem? later i ≡ some v

module _ {F : Type 0} (host : Host F) (field : FieldId) where
  -- The value is of the type, as far as the code looks: a string of any length passes for a `str<N>`,
  -- since none is checked where one is read; an array has the type's length, a tuple as many cells as the type has
  -- components, a field is one of the program's, and an integer has the type's sign and width and is in
  -- its range.
  unfoldable mutual
    pub HasType : List (Value F) → MonoType → Value F → Type 0
    HasType heap MonoType.field (Value.field f) = (host.field_of f == field) ≡ true
    HasType heap MonoType.bool (Value.bool _) = Unit
    HasType heap MonoType.unit Value.unit = Unit
    HasType heap (MonoType.integer signed bits) (Value.int i) =
        (i.signed ≡ signed) × (i.bits ≡ bits) × (0 < bits → IsCanonical i)
    HasType heap (MonoType.string _) (Value.str _) = Unit
    HasType heap (MonoType.array n type) (Value.array values) =
        (count_values values ≡ n) × ForEach (HasType heap type) values
    HasType heap (MonoType.tuple types) (Value.tuple cells) = HaveTypes heap types cells
    HasType heap _ _ = ⊥

    pub HaveTypes : List (Value F) → Types → List Address → Type 0
    HaveTypes heap Types.nil [] = Unit
    HaveTypes heap (Types.cons type types) (c ∷ cs) =
        ((v : Value F) × (get_elem? heap c ≡ some v) × HasType heap type v)
        × HaveTypes heap types cs
    HaveTypes heap _ _ = ⊥

  mutual
    unfolding HasType HaveTypes

    pub HasType-Grown :
        (heap later : List (Value F)) (type : MonoType) (v : Value F)
        → Grown heap later
        → HasType heap type v
        → HasType later type v
    HasType-Grown heap later MonoType.field (Value.field f) g h = h
    HasType-Grown heap later MonoType.bool (Value.bool _) g h = h
    HasType-Grown heap later MonoType.unit Value.unit g h = h
    HasType-Grown heap later (MonoType.integer signed bits) (Value.int i) g h = h
    HasType-Grown heap later (MonoType.string _) (Value.str _) g h = h
    HasType-Grown heap later (MonoType.array n type) (Value.array values) g (e, h) = (
      e,
      ForEach-map (HasType heap type) (HasType later type) (λ v. HasType-Grown heap later type v g)
          values h,
    )
    HasType-Grown heap later (MonoType.tuple types) (Value.tuple cells) g h =
        HaveTypes-Grown heap later types cells g h
    HasType-Grown heap later _ _ g h = absurd h

    pub HaveTypes-Grown :
        (heap later : List (Value F)) (types : Types) (cells : List Address)
        → Grown heap later
        → HaveTypes heap types cells
        → HaveTypes later types cells
    HaveTypes-Grown heap later Types.nil [] g h = tt
    HaveTypes-Grown heap later (Types.cons type types) (c ∷ cs) g ((v, e, p), h) =
        ((v, g c v e, HasType-Grown heap later type v g p), HaveTypes-Grown heap later types cs g h)
    HaveTypes-Grown heap later _ _ g h = absurd h

  -- One value for each parameter, of its type.
  abbrev pub AllBound : List (Text × MonoType) → List (Value F) → List (Value F) → Type 0
  AllBound [] heap [] = Unit
  AllBound ((_, type) ∷ parameters) heap (v ∷ vs) =
      HasType heap type v × AllBound parameters heap vs
  AllBound _ heap _ = ⊥
