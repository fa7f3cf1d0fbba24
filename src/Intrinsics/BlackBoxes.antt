-- ===== src/Intrinsics/BlackBoxes.antt =====
-- src/intrinsics.rs: the black boxes over machine words. The functions themselves are acvm's.
use ast_interpreter.Base.{ℕ, Bool, true, List, Option, if◌then◌else◌}
use ast_interpreter.Error.{Result, ok, value_out_of_range, ok_or, ◌>>=◌}
use ast_interpreter.Value.Data.{Value, as_bool, array_of}
use ast_interpreter.Host.{Host}
use ast_interpreter.Intrinsics.Arguments.{
  take1, take2, take3, take5, words, fixed_words, unsigned_values,
}

module _ {F : Type 0} where
  unfoldable pub word_array : ℕ → List ℕ → Result (Value F)
  word_array bits ws = do vs ← unsigned_values bits ws; ok (array_of vs)

-- `black_box_failure`.
unfoldable pub black_box : {A : Type 0} → Option A → Result A
black_box o = ok_or o (value_out_of_range "black box: ")

module _ {F : Type 0} (host : Host F) where
  unfoldable pub sha256_compression : List (Value F) → Result (Value F)
  sha256_compression args = do
    (input, state) ← take2 args
    input_words ← fixed_words 16 32 input
    state_words ← fixed_words 8 32 state
    word_array 32 (host.sha256_compression state_words input_words)

  unfoldable pub keccakf1600 : List (Value F) → Result (Value F)
  keccakf1600 args = do
    state ← take1 args
    state_words ← fixed_words 25 64 state
    output ← black_box (host.keccakf1600 state_words)
    word_array 64 output

  unfoldable pub hash_bytes : List (Value F) → (List ℕ → Option (List ℕ)) → Result (Value F)
  hash_bytes args hash = do
    input ← take1 args
    bytes ← words 8 input
    digest ← black_box (hash bytes)
    word_array 8 digest

  unfoldable pub aes128_encrypt : List (Value F) → Result (Value F)
  aes128_encrypt args = do
    (input, iv, key) ← take3 args
    input_bytes ← words 8 input
    iv_bytes ← fixed_words 16 8 iv
    key_bytes ← fixed_words 16 8 key
    output ← black_box (host.aes128_encrypt input_bytes iv_bytes key_bytes)
    word_array 8 output

  -- A false predicate skips the check.
  unfoldable pub ecdsa_verify :
      List (Value F) → (List ℕ → List ℕ → List ℕ → List ℕ → Option Bool) → Result (Value F)
  ecdsa_verify args verify = do
    (public_key_x, public_key_y, signature, hashed_message, predicate) ← take5 args
    active ← as_bool predicate
    if active
        then (do
          message ← fixed_words 32 8 hashed_message
          x ← fixed_words 32 8 public_key_x
          y ← fixed_words 32 8 public_key_y
          sig ← fixed_words 64 8 signature
          valid ← black_box (verify message x y sig)
          ok (Value.bool valid))
        else ok (Value.bool true)
