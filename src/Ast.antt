-- ===== src/Ast.antt =====
-- The monomorphized AST of noirc_frontend, and the printable types of noirc_printable_type: the
-- constructors that src/ matches on, with the fields that it reads. An identifier's name and type, a
-- mutability that only the compiler reads, and debug data are left out; a boxed or optional child is
-- a type of the mutual block.
use ast_interpreter.Base.{ℕ, Bool, String, List}
use ast_interpreter.Base.Int.{ℤ}
use ast_interpreter.Error.{Text, Location}
use ast_interpreter.Value.Data.{Fragment}

mutual
  pub data MonoType : Type 0 where
    field bool unit other : MonoType
    integer : Bool → ℕ → MonoType
    string : ℕ → MonoType
    array : ℕ → MonoType → MonoType
    tuple : Types → MonoType

  pub data Types : Type 0 where
    nil : Types
    cons : MonoType → Types → Types

mutual
  pub data PrintableType : Type 0 where
    field boolean unit : PrintableType
    function : (display : Text) → PrintableType
    signed_integer unsigned_integer string : ℕ → PrintableType
    fmt_string : PrintableType → PrintableType
    array vector : PrintableType → PrintableType
    tuple : PrintableTypes → PrintableType
    struct : Text → PrintableFields → PrintableType
    enum : Text → PrintableVariants → PrintableType
    reference : Bool → PrintableType

  pub data PrintableTypes : Type 0 where
    nil : PrintableTypes
    cons : PrintableType → PrintableTypes → PrintableTypes

  pub data PrintableFields : Type 0 where
    no_fields : PrintableFields
    with_field : Text → PrintableType → PrintableFields → PrintableFields

  pub data PrintableVariants : Type 0 where
    no_variants : PrintableVariants
    with_variant : Text → PrintableTypes → PrintableVariants → PrintableVariants

pub data Definition : Type 0 where
  local global function : ℕ → Definition
  builtin low_level oracle : String → Definition

pub data UnaryOp : Type 0 where
  minus not reference dereference : UnaryOp

pub data BinaryOpKind : Type 0 where
  add subtract multiply divide equal not_equal less less_equal greater greater_equal : BinaryOpKind
  and or xor shift_left shift_right modulo : BinaryOpKind

-- A `Variant` has what `is_enum()` and `variant_index()` answer of it.
pub data Constructor : Type 0 where
  true false unit tuple range : Constructor
  int : ℤ → Constructor
  variant : Bool → ℕ → Constructor

mutual
  pub data Expression : Type 0 where
    ident : Definition → Expression
    literal : Literal → Expression
    block : Expressions → Expression
    unary : UnaryOp → (skip : Bool) → (rhs : Expression) → Expression
    binary : BinaryOpKind → (lhs rhs : Expression) → Expression
    index : (collection index : Expression) → Location → Expression
    cast : (lhs : Expression) → MonoType → Expression
    for :
        (index_variable : ℕ)
        → (index_type : MonoType) → (start_range end_range : Expression) → (inclusive : Bool)
        → (block : Expression) → Expression
    loop : Expression → Expression
    while : (condition body : Expression) → Expression
    if_then : (condition consequence : Expression) → (alternative : Optional) → Expression
    tuple : Expressions → Expression
    extract_tuple_field : Expression → ℕ → Expression
    call :
        (func : Expression)
        → (arguments : Expressions) → (return_type : MonoType) → Location
        → Expression
    let_in : (id : ℕ) → (mutable : Bool) → Expression → Expression
    constrain : Expression → Location → (message : Message) → Expression
    assign : LValue → Expression → Expression
    semi clone drop : Expression → Expression
    break continue : Expression
    match : (variable : ℕ) → MatchCases → (default_case : Optional) → Expression

  pub data Expressions : Type 0 where
    nil : Expressions
    cons : Expression → Expressions → Expressions

  pub data Optional : Type 0 where
    absent : Optional
    present : Expression → Optional

  -- An assertion's message, with `PrintableType::from` of its type.
  pub data Message : Type 0 where
    silent : Message
    message : Expression → PrintableType → Message

  pub data Literal : Type 0 where
    integer : ℤ → MonoType → Literal
    bool : Bool → Literal
    unit : Literal
    str : List ℕ → Literal
    array vector : Expressions → Literal
    repeated : (element : Expression) → (length : ℕ) → Literal
    fmt_str : List Fragment → (captures : Expression) → Literal

  pub data LValue : Type 0 where
    place_ident : Definition → LValue
    place_index : LValue → Expression → Location → LValue
    member_access : LValue → ℕ → LValue
    place_dereference place_clone : LValue → LValue

  pub data MatchCases : Type 0 where
    no_cases : MatchCases
    match_case :
        Constructor → (arguments : List ℕ) → (branch : Expression) → MatchCases → MatchCases

pub record Parameter : Type 0 where
  pub id : ℕ
  pub mutable : Bool

pub record Function : Type 0 where
  pub id : ℕ
  pub parameters : List Parameter
  pub body : Expression
  pub unconstrained : Bool

pub record Program : Type 0 where
  pub functions : List Function
  pub globals : List (ℕ × Expression)
  -- `Program::main_id()`
  pub main_id : ℕ
