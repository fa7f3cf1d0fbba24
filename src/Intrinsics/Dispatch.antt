-- ===== src/Intrinsics/Dispatch.antt =====
-- src/intrinsics.rs: `call_intrinsic`, built without the feature `bn254-crypto`. The match on the
-- name is written as one chain of tests for each family, in the source's order.
use text.Mathlib.Text.{◌==◌}
use ast_interpreter.Base.{ℕ, true, false, String, List, if◌then◌else◌}
use ast_interpreter.Error.{Location, Result, unsupported}
use ast_interpreter.Value.Data.{Value}
use ast_interpreter.Ast.{MonoType}
use ast_interpreter.Host.{Context}
use ast_interpreter.Machine.{M, pure, fail, lift, get_unconstrained, ◌>>=◌}
use ast_interpreter.Eval.Cells.{make_tuple}
use ast_interpreter.Intrinsics.Arguments.{take1}
use ast_interpreter.Intrinsics.Vectors.{
  array_len, vector_push, vector_pop_back, vector_pop_front, vector_insert, vector_remove,
}
use ast_interpreter.Intrinsics.Conversions.{str_as_bytes, array_as_str_unchecked}
use ast_interpreter.Intrinsics.Radix.{to_radix, apply_range_constraint, field_less_than}
use ast_interpreter.Intrinsics.Hints.{static_assert}
use ast_interpreter.Intrinsics.BlackBoxes.{
  sha256_compression, keccakf1600, hash_bytes, aes128_encrypt, ecdsa_verify,
}

module _ {F : Type 0} where
  unfoldable pub tuple_result : Result (List (Value F)) → M F (Value F)
  tuple_result parts = do vs ← lift parts; make_tuple vs

  unfoldable pub constrainedness : M F (Value F)
  constrainedness = do b ← get_unconstrained; pure (Value.bool b)

module _ {F : Type 0} (ctx : Context F) (n : ℕ) where
  unfoldable pub other_intrinsic : String → List (Value F) → MonoType → Location → M F (Value F)
  other_intrinsic name args return_type location =
      if name == "print" then pure Value.unit else fail (unsupported "intrinsic ")

  unfoldable pub black_box_intrinsic : String → List (Value F) → MonoType → Location → M F (Value F)
  unfolding other_intrinsic
  black_box_intrinsic name args return_type location =
      if name == "sha256_compression"
      then lift (sha256_compression ctx.host args)
      else if name == "keccakf1600"
      then lift (keccakf1600 ctx.host args)
      else if name == "blake2s"
      then lift (hash_bytes ctx.host args ctx.host.blake2s)
      else if name == "blake3"
      then lift (hash_bytes ctx.host args ctx.host.blake3)
      else if name == "aes128_encrypt"
      then lift (aes128_encrypt ctx.host args)
      else if name == "ecdsa_secp256k1"
      then lift (ecdsa_verify ctx.host args ctx.host.ecdsa_secp256k1_verify)
      else if name == "ecdsa_secp256r1"
      then lift (ecdsa_verify ctx.host args ctx.host.ecdsa_secp256r1_verify)
      else other_intrinsic name args return_type location

  unfoldable pub hint_intrinsic : String → List (Value F) → MonoType → Location → M F (Value F)
  unfolding black_box_intrinsic
  hint_intrinsic name args return_type location =
      if name == "is_unconstrained"
      then constrainedness
      else if name == "static_assert"
      then static_assert ctx.host n args location
      else if name == "black_box"
      then lift (take1 args)
      else if name == "as_witness"
      then pure Value.unit
      else if name == "assert_constant"
      then pure Value.unit
      else if name == "apply_range_constraint"
      then lift (apply_range_constraint ctx.host args location)
      else if name == "field_less_than"
      then lift (field_less_than ctx.host args)
      else black_box_intrinsic name args return_type location

  unfoldable pub conversion_intrinsic :
      String → List (Value F) → MonoType → Location → M F (Value F)
  unfolding hint_intrinsic
  conversion_intrinsic name args return_type location =
      if name == "str_as_bytes"
      then lift (str_as_bytes args)
      else if name == "array_as_str_unchecked"
      then lift (array_as_str_unchecked args)
      else if name == "to_le_radix"
      then lift (to_radix ctx.host args false false return_type location)
      else if name == "to_be_radix"
      then lift (to_radix ctx.host args true false return_type location)
      else if name == "to_le_bits"
      then lift (to_radix ctx.host args false true return_type location)
      else if name == "to_be_bits"
      then lift (to_radix ctx.host args true true return_type location)
      else hint_intrinsic name args return_type location

  unfoldable pub vector_intrinsic : String → List (Value F) → MonoType → Location → M F (Value F)
  unfolding conversion_intrinsic
  vector_intrinsic name args return_type location =
      if name == "array_len"
      then lift (array_len args)
      else if name == "as_vector"
      then lift (take1 args)
      else if name == "vector_push_back"
      then lift (vector_push args true)
      else if name == "vector_push_front"
      then lift (vector_push args false)
      else if name == "vector_pop_back"
      then tuple_result (vector_pop_back args location)
      else if name == "vector_pop_front"
      then tuple_result (vector_pop_front args location)
      else if name == "vector_insert"
      then lift (vector_insert args location)
      else if name == "vector_remove"
      then tuple_result (vector_remove args location)
      else conversion_intrinsic name args return_type location

  unfoldable pub call_intrinsic : String → List (Value F) → MonoType → Location → M F (Value F)
  unfolding vector_intrinsic
  call_intrinsic name args return_type location = vector_intrinsic name args return_type location
