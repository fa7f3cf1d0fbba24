-- ===== src/Value/Data.antt =====
-- src/value.rs: `Value`. A shared cell (`Rc<RefCell<Value>>`) is an address of the heap that
-- `Machine` keeps. `F` is acvm's `FieldValue`, which the development takes as a parameter.
use ast_interpreter.Base.{ℕ, ◌^◌, not, ◌||◌, Bool, List, [], ◌∷◌, ◌≡◌, refl, ap, ltb, if◌then◌else◌}
use ast_interpreter.Base.Int.{nat_abs, is_neg, ℤ}
use ast_interpreter.Error.{Text, Result, ok, err, type_error, value_out_of_range, ◌>>=◌}
use ast_interpreter.Value.Ints.{IntValue, unsigned_repr}

-- `FmtStrFragment` of noirc_frontend.
pub data Fragment : Type 0 where
  string : Text → Fragment
  interpolation : Fragment

abbrev pub Address : Type 0
Address = ℕ

mutual
  pub data Value (F : Type 0) : Type 0 where
    field : F → Value F
    int : IntValue → Value F
    bool : Bool → Value F
    unit : Value F
    array : Values F → Value F
    tuple : List Address → Value F
    str : List ℕ → Value F
    fmt_str : List Fragment → Values F → Value F
    function : ℕ → Value F
    ref : Address → Bool → Value F

  -- `Vec<Value>`.
  pub data Values (F : Type 0) : Type 0 where
    nil : Values F
    cons : Value F → Values F → Values F

-- An index that is not negative and that one 64-bit digit holds.
unfoldable pub index_of_repr : ℤ → Result ℕ
index_of_repr repr =
    if is_neg repr || not (ltb (nat_abs repr) (2 ^ 64))
    then err (value_out_of_range "index out of usize range: ")
    else ok (nat_abs repr)

module _ {F : Type 0} where
  abbrev pub to_list : Values F → List (Value F)
  to_list nil = []
  to_list (cons v vs) = v ∷ to_list vs

  abbrev pub of_list : List (Value F) → Values F
  of_list [] = nil
  of_list (v ∷ vs) = cons v (of_list vs)

  pub to_list-of_list : (vs : List (Value F)) → to_list (of_list vs) ≡ vs
  to_list-of_list [] = refl
  to_list-of_list (v ∷ vs) = ap (λ (w : List (Value F)). v ∷ w) (to_list-of_list vs)

  abbrev pub array_of : List (Value F) → Value F
  array_of vs = array (of_list vs)

  unfoldable pub as_bool : Value F → Result Bool
  as_bool (bool b) = ok b
  as_bool _ = err (type_error "expected bool, got ")

  unfoldable pub as_int : Value F → Result IntValue
  as_int (int i) = ok i
  as_int _ = err (type_error "expected integer, got ")

  unfoldable pub as_index : Value F → Result ℕ
  unfolding as_int index_of_repr
  as_index v = do i ← as_int v; index_of_repr (unsigned_repr i)
