-- ===== src/Host.antt =====
-- What the interpreter calls of other crates and of the Rust library. `F` is acvm's `FieldValue`,
-- and a number stands for a `FieldId` (and for the `FieldConfig` that it determines).
use ast_interpreter.Base.{ℕ, Bool, List, Option}
use ast_interpreter.Base.Int.{ℤ}
use ast_interpreter.Error.{Text}
use ast_interpreter.Ast.{PrintableType, Program}

abbrev pub FieldId : Type 0
FieldId = ℕ

pub record Host (F : Type 0) : Type 0 where
  -- acvm's field values
  pub add : F → F → F
  pub subtract : F → F → F
  pub multiply : F → F → F
  pub negative : F → F
  pub checked_div : F → F → Option F
  pub equal : F → F → Bool
  pub field_of : F → FieldId
  pub zero_of : FieldId → F
  pub one_of : FieldId → F
  pub to_bigint : F → ℤ
  pub as_biguint : F → ℕ
  pub try_from_bigint : ℤ → FieldId → Option F
  pub fits_unsigned : FieldId → (bits : ℕ) → Bool
  pub to_short_hex : F → Text
  -- text of the Rust library, and of serde_json
  pub from_utf8_lossy : List ℕ → Text
  pub parse_type : List ℕ → Option PrintableType
  -- acvm's black boxes over machine words; `none` is a `BlackBoxResolutionError`
  pub sha256_compression : (state input : List ℕ) → List ℕ
  pub keccakf1600 : List ℕ → Option (List ℕ)
  pub blake2s : List ℕ → Option (List ℕ)
  pub blake3 : List ℕ → Option (List ℕ)
  pub aes128_encrypt : (input iv key : List ℕ) → Option (List ℕ)
  pub ecdsa_secp256k1_verify : (message x y signature : List ℕ) → Option Bool
  pub ecdsa_secp256r1_verify : (message x y signature : List ℕ) → Option Bool

-- The fields of `Interpreter` that never change.
pub record Context (F : Type 0) : Type 0 where
  pub host : Host F
  pub program : Program
  pub field : FieldId

-- What the reports ask of acvm's `FieldConfig`.
pub record Fields : Type 0 where
  pub fits_unsigned : FieldId → (bits : ℕ) → Bool
  pub num_bits : FieldId → ℕ
  -- the name that messages print
  pub shown : FieldId → Text
