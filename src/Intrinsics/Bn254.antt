-- ===== src/Intrinsics/Bn254.antt =====
-- src/bn254_crypto.rs: the black boxes that the feature `bn254-crypto` adds for programs over bn254. The
-- solver is another crate's; `E` stands for its elements.
use text.Mathlib.Text.{◌==◌}
use ast_interpreter.Base.{ℕ, ◌^◌, String, List, [], ◌∷◌, Option, ltb, if◌then◌else◌}
use ast_interpreter.Error.{Result, ok, err, internal, type_error, ok_or, ◌>>=◌ as bind}
use ast_interpreter.Value.Data.{Value, array_of, as_bool, as_index}
use ast_interpreter.Ast.{MonoType}
use ast_interpreter.Machine.{M, pure, fail, lift, ◌>>=◌}
use ast_interpreter.Eval.Cells.{make_tuple, tuple_field}
use ast_interpreter.Intrinsics.Arguments.{take1, take2, take3, into_array, words}
use ast_interpreter.Intrinsics.BlackBoxes.{black_box}

pub record Solver (F E : Type 0) : Type 0 where
  pub to_bn254_element : F → Option E
  pub from_bn254_element : E → F
  pub zero : E
  pub multi_scalar_mul : (points lo hi : List E) → Option (E × E)
  pub embedded_curve_add : E × E → E × E → Option (E × E)
  pub poseidon2_permutation : List E → Option (List E)
  pub derive_generators : (domain_separator : List ℕ) → (count starting_index : ℕ) → List (E × E)

-- `flat_map(|(x, y)| [x, y])` and `unzip`.
abbrev pub flattened {ℓ} : {E : Type ℓ} → List (E × E) → List E
flattened [] = []
flattened ((x, y) ∷ ps) = x ∷ y ∷ flattened ps

abbrev pub firsts {ℓ} : {E : Type ℓ} → List (E × E) → List E
firsts [] = []
firsts ((x, _) ∷ ps) = x ∷ firsts ps

abbrev pub seconds {ℓ} : {E : Type ℓ} → List (E × E) → List E
seconds [] = []
seconds ((_, y) ∷ ps) = y ∷ seconds ps

module _ {F E : Type 0} (solver : Solver F E) (n : ℕ) where
  unfoldable pub bn254_element : Value F → Result E
  bn254_element (Value.field f) =
      ok_or (solver.to_bn254_element f) (type_error " is not a bn254 element")
  bn254_element _ = err (type_error "expected a Field, got ")

  abbrev pub bn254_field : E → Value F
  bn254_field e = Value.field (solver.from_bn254_element e)

  -- A struct of two fields.
  unfoldable pub pair_of : Value F → M F (E × E)
  unfolding bn254_element tuple_field
  pair_of v = do
    x ← tuple_field n v 0
    e ← lift (bn254_element x)
    y ← tuple_field n v 1
    f ← lift (bn254_element y)
    pure (e, f)

  unfoldable pub pairs_of : List (Value F) → M F (List (E × E))
  unfolding pair_of
  pairs_of [] = pure []
  pairs_of (v ∷ vs) = do p ← pair_of v; ps ← pairs_of vs; pure (p ∷ ps)

  unfoldable pub pairs : Value F → M F (List (E × E))
  unfolding pairs_of
  pairs value = do vs ← lift (into_array value); pairs_of vs

  unfoldable pub point : E × E → M F (Value F)
  point (x, y) = make_tuple (bn254_field x ∷ bn254_field y ∷ [])

  unfoldable pub one_point : E × E → M F (Value F)
  unfolding point
  one_point p = do v ← point p; pure (array_of (v ∷ []))

  unfoldable pub multiplied : Value F → Value F → M F (E × E)
  unfolding pairs
  multiplied points scalars = do
    ps ← pairs points
    ks ← pairs scalars
    lift (black_box (solver.multi_scalar_mul (flattened ps) (firsts ks) (seconds ks)))

  -- A false predicate gives the zero point.
  unfoldable pub multi_scalar_mul : List (Value F) → M F (Value F)
  unfolding multiplied one_point
  multi_scalar_mul args = do
    (points, scalars, predicate) ← lift (take3 args)
    active ← lift (as_bool predicate)
    result ← (if active then multiplied points scalars else pure (solver.zero, solver.zero))
    one_point result

  unfoldable pub added : Value F → Value F → M F (E × E)
  unfolding pair_of
  added point1 point2 = do
    p ← pair_of point1
    q ← pair_of point2
    lift (black_box (solver.embedded_curve_add p q))

  unfoldable pub embedded_curve_add : List (Value F) → M F (Value F)
  unfolding added one_point
  embedded_curve_add args = do
    (point1, point2, predicate) ← lift (take3 args)
    active ← lift (as_bool predicate)
    result ← (if active then added point1 point2 else pure (solver.zero, solver.zero))
    one_point result

  unfoldable pub elements_of : List (Value F) → Result (List E)
  unfolding bn254_element
  elements_of [] = ok []
  elements_of (v ∷ vs) = bind (bn254_element v) (λ e. bind (elements_of vs) (λ es. ok (e ∷ es)))

  abbrev pub fields_of : List E → List (Value F)
  fields_of [] = []
  fields_of (e ∷ es) = bn254_field e ∷ fields_of es

  unfoldable pub poseidon2_permutation : List (Value F) → M F (Value F)
  unfolding elements_of
  poseidon2_permutation args = do
    input ← lift (take1 args)
    vs ← lift (into_array input)
    inputs ← lift (elements_of vs)
    state ← lift (black_box (solver.poseidon2_permutation inputs))
    pure (array_of (fields_of state))

  unfoldable pub points : List (E × E) → M F (List (Value F))
  unfolding point
  points [] = pure []
  points (p ∷ ps) = do v ← point p; vs ← points ps; pure (v ∷ vs)

  unfoldable pub generator_count : MonoType → Result ℕ
  generator_count (MonoType.array length _) = ok length
  generator_count _ = err (type_error "generators return type is not an array: ")

  -- `u32::try_from`.
  unfoldable pub generator_index : ℕ → Result ℕ
  generator_index i =
      if ltb i (2 ^ 32) then ok i else err (type_error "generator index out of range")

  unfoldable pub derive_pedersen_generators : List (Value F) → MonoType → M F (Value F)
  unfolding generator_count generator_index points
  derive_pedersen_generators args return_type = do
    (domain_separator, starting_index) ← lift (take2 args)
    count ← lift (generator_count return_type)
    index ← lift (as_index starting_index)
    start ← lift (generator_index index)
    bytes ← lift (words 8 domain_separator)
    vs ← points (solver.derive_generators bytes count start)
    pure (array_of vs)

  unfoldable pub call_bn254 : String → List (Value F) → MonoType → M F (Value F)
  unfolding multi_scalar_mul embedded_curve_add poseidon2_permutation derive_pedersen_generators
  call_bn254 name args return_type =
      if name == "multi_scalar_mul"
      then multi_scalar_mul args
      else if name == "embedded_curve_add"
      then embedded_curve_add args
      else if name == "poseidon2_permutation"
      then poseidon2_permutation args
      else if name == "derive_pedersen_generators"
      then derive_pedersen_generators args return_type
      else fail (internal " is not a bn254 black box")
