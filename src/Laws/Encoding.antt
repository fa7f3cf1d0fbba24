-- ===== src/Laws/Encoding.antt =====
-- src/diff.rs: what the values of a declared type are encoded as.
use ast_interpreter.Base.{
  ℕ, zero, suc, ◌+◌, ◌≤◌, ◌≡◌, refl, ap, ◌∙◌, List, [], ◌∷◌, some, arith, get_elem?, inl, inr, ◌⊎◌,
  true, false, Bool-cases,
}
use ast_interpreter.Value.Data.{Value, Values, nil, cons, Address}
use ast_interpreter.Ast.{MonoType, Types}
use ast_interpreter.Host.{Host, FieldId}
use ast_interpreter.Machine.{Machine, Outcome, returned, M, read}
use ast_interpreter.Diff.Values.{
  DiffValue, DiffValues, from_value, from_shape, from_values, from_cells, from_bytes, is_utf8,
}
use ast_interpreter.Diff.Compare.{count}
use ast_interpreter.Base.Text.{decimal_ℤ}
use ast_interpreter.Laws.Typing.{HasType, HaveTypes, ForEach, count_values}

-- The levels of a type, at most.
unfoldable mutual
  pub levels : MonoType → ℕ
  levels (MonoType.array _ type) = suc (levels type)
  levels (MonoType.tuple types) = suc (levels_all types)
  levels _ = 1

  pub levels_all : Types → ℕ
  levels_all Types.nil = 0
  levels_all (Types.cons type types) = levels type + levels_all types

pub levels_pos : (type : MonoType) → ¬ (levels type ≤ 0)
unfolding levels
levels_pos MonoType.field h = omega arith
levels_pos MonoType.bool h = omega arith
levels_pos MonoType.unit h = omega arith
levels_pos MonoType.other h = omega arith
levels_pos (MonoType.integer _ _) h = omega arith
levels_pos (MonoType.string _) h = omega arith
levels_pos (MonoType.array _ type) h = omega arith
levels_pos (MonoType.tuple types) h = omega arith

-- The relation holds of the values and the encodings, one by one.
abbrev pub ForBoth : {F : Type 0} → (Value F → DiffValue → Type 0) → Values F → DiffValues → Type 0
ForBoth R nil DiffValues.none = Unit
ForBoth R (cons v vs) (DiffValues.more d ds) = R v d × ForBoth R vs ds
ForBoth R _ _ = ⊥

-- A string is recorded as text where its bytes are UTF-8, else as bytes.
abbrev pub TextOf : List ℕ → DiffValue → Type 0
TextOf bytes d =
    ((is_utf8 bytes ≡ true) × (d ≡ DiffValue.str bytes))
    ⊎ ((is_utf8 bytes ≡ false) × (d ≡ DiffValue.bytes bytes))

module _ {F : Type 0} (host : Host F) where
  -- The encoding has the contents of a value of the type, whose tuples are read in the heap.
  mutual
    pub Encodes : List (Value F) → MonoType → Value F → DiffValue → Type 0
    Encodes heap MonoType.field (Value.field f) (DiffValue.field t) =
        t ≡ decimal_ℤ (host.to_bigint f)
    Encodes heap MonoType.bool (Value.bool b) (DiffValue.bool c) = c ≡ b
    Encodes heap MonoType.unit Value.unit DiffValue.unit = Unit
    Encodes heap (MonoType.integer signed bits) (Value.int i) (DiffValue.int s b n) =
        (s ≡ signed) × (b ≡ bits) × (n ≡ i.value)
    Encodes heap (MonoType.string _) (Value.str bytes) d = TextOf bytes d
    Encodes heap (MonoType.array n type) (Value.array vs) (DiffValue.array ds) =
        (count ds ≡ n) × ForBoth (Encodes heap type) vs ds
    Encodes heap (MonoType.tuple types) (Value.tuple cells) (DiffValue.tuple ds) =
        EncodesCells heap types cells ds
    Encodes heap _ _ _ = ⊥

    pub EncodesCells : List (Value F) → Types → List Address → DiffValues → Type 0
    EncodesCells heap Types.nil [] DiffValues.none = Unit
    EncodesCells heap (Types.cons type types) (c ∷ cells) (DiffValues.more d ds) =
        ((v : Value F) × (get_elem? heap c ≡ some v) × Encodes heap type v d)
        × EncodesCells heap types cells ds
    EncodesCells heap _ _ _ = ⊥

pub read_lem :
    {F : Type 0} (s : Machine F) (c : Address) (v : Value F)
    → get_elem? s.heap c ≡ some v
    → read c s ≡ returned v s
unfolding read
read_lem s c v e = ground arith

module _ {F : Type 0} (host : Host F) (field : FieldId) where
  -- The command returns a result with the property, and leaves the state as it was.
  abbrev pub Gives : {A : Type 0} → (A → Type 0) → Machine F → Outcome F A → Type 0
  Gives {A} P s o = (a : A) × (o ≡ returned a s) × P a

  from_values-Gives :
      (encode : Value F → M F DiffValue) (P : Value F → Type 0) (R : Value F → DiffValue → Type 0)
      (vs : Values F) (s : Machine F)
      → ((v : Value F) → P v → Gives (R v) s (encode v s))
      → ForEach P vs
      → Gives (λ ds. (count ds ≡ count_values vs) × ForBoth R vs ds) s (from_values encode vs s)
  unfolding from_values count
  from_values-Gives encode P R nil s h p = (DiffValues.none, refl, (refl, tt))
  from_values-Gives encode P R (cons v vs) s h (p, ps) =
      let (d, e, q) = h v p in
      let (ds, es, (c, qs)) = from_values-Gives encode P R vs s h ps in
      (DiffValues.more d ds, rw (e, es) refl, (ap suc c, (q, qs)))

  from_bytes-TextOf : (bytes : List ℕ) → TextOf bytes (from_bytes bytes)
  unfolding from_bytes
  from_bytes-TextOf bytes = elim (Bool-cases (is_utf8 bytes)) [
    | inl e ↦ inl (e, rw e refl)
    | inr e ↦ inr (e, rw e refl)
  ]

  mutual
    unfolding HasType HaveTypes Encodes EncodesCells levels levels_all from_value from_shape
        from_cells

    pub from_value_typed :
        (n : ℕ) (type : MonoType) (v : Value F) (s : Machine F)
        → levels type ≤ n
        → HasType host field s.heap type v
        → Gives (Encodes host s.heap type v) s (from_value host n v s)
    from_value_typed zero type v s l h = absurd (levels_pos type l)
    from_value_typed (suc n) MonoType.field (Value.field f) s l h = (_, refl, refl)
    from_value_typed (suc n) MonoType.bool (Value.bool b) s l h = (_, refl, refl)
    from_value_typed (suc n) MonoType.unit Value.unit s l h = (_, refl, tt)
    from_value_typed (suc n) (MonoType.integer signed bits) (Value.int i) s l (e, e', _) =
        (_, refl, (e, e', refl))
    from_value_typed (suc n) (MonoType.string k) (Value.str bytes) s l h =
        (_, refl, from_bytes-TextOf bytes)
    from_value_typed (suc n) (MonoType.array k type) (Value.array vs) s l (c, h) =
        let (ds, e, (c', q)) =
          from_values-Gives (from_value host n) (HasType host field s.heap type)
            (Encodes host s.heap type) vs s (λ v p. from_value_typed n type v s (omega arith) p)
            h in
        (DiffValue.array ds, rw e refl, (c' ∙ c, q))
    from_value_typed (suc n) (MonoType.tuple types) (Value.tuple cells) s l h =
        let (ds, e, q) = from_cells-Gives n types cells s (omega arith) h in
        (DiffValue.tuple ds, rw e refl, q)
    from_value_typed (suc n) _ _ s l h = absurd h

    pub from_cells-Gives :
        (n : ℕ) (types : Types) (cells : List Address) (s : Machine F)
        → levels_all types ≤ n
        → HaveTypes host field s.heap types cells
        → Gives (EncodesCells host s.heap types cells) s (from_cells (from_value host n) cells s)
    from_cells-Gives n Types.nil [] s l h = (DiffValues.none, refl, tt)
    from_cells-Gives n (Types.cons type types) (c ∷ cells) s l ((v, e, p), h) =
        let (d, e', q) = from_value_typed n type v s (omega arith) p in
        let (ds, es, qs) = from_cells-Gives n types cells s (omega arith) h in
        (DiffValues.more d ds, rw (read_lem s c v e, e', es) refl, ((v, e, q), qs))
    from_cells-Gives n _ _ s l h = absurd h

  -- With fuel for the levels of a type, the encoding of a value of that type returns, leaves the state as
  -- it was, and has the value's contents: the decimal digits of a field, the sign, width and value of an
  -- integer, the bytes of a string, and what the elements and the components in the heap are encoded as.
  -- A string of any length is a value of a string type.
  pub from_value-Gives :
      (n : ℕ) (type : MonoType) (v : Value F) (s : Machine F)
      → levels type ≤ n
      → HasType host field s.heap type v
      → Gives (Encodes host s.heap type v) s (from_value host n v s)
  from_value-Gives = from_value_typed
