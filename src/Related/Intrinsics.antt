-- ===== src/Related/Intrinsics.antt =====
-- The builtins: most do not reach the state, so that their results are lifted.
use text.Mathlib.Text.{◌==◌}
use ast_interpreter.Base.{ℕ, ◌≤◌, true, List, [], ◌∷◌, Option, some, String}
use ast_interpreter.Error.{Location, Result}
use ast_interpreter.Value.Data.{Value, to_list}
use ast_interpreter.Ast.{MonoType}
use ast_interpreter.Host.{Host, Context}
use ast_interpreter.Intrinsics.Hints.{
  capture_type, capture_types, marked_types, metadata_types, static_message, static_assert,
  split_last,
}
use ast_interpreter.Intrinsics.Dispatch.{
  tuple_result, constrainedness, other_intrinsic, black_box_intrinsic, hint_intrinsic,
  conversion_intrinsic, call_intrinsic,
}
use ast_interpreter.Related.Closed.{Closed, lifts, options, branches}
use ast_interpreter.Related.Cells.{make_tuple-Rel}
use ast_interpreter.Related.Format.{format_fmt_str-Rel, format_value-Rel}

module _ {F : Type 0} (c : Closed F) (host : Host F) where
  capture_type-Rel : (v : Value F) → c.Rel (capture_type host v) (capture_type host v)
  unfolding capture_type
  capture_type-Rel (Value.str bytes) = options c _ _
  capture_type-Rel _ = c.fails _

  capture_types-Rel : (vs : List (Value F)) → c.Rel (capture_types host vs) (capture_types host vs)
  unfolding capture_types
  capture_types-Rel [] = c.returns _
  capture_types-Rel (v ∷ vs) =
      c.bind (capture_type-Rel v) (λ t. c.bind (capture_types-Rel vs) (λ ts. c.returns _))

  marked_types-Rel :
      (o : Option (Value F × List (Value F))) → c.Rel (marked_types host o) (marked_types host o)
  unfolding marked_types
  marked_types-Rel (some (Value.bool true, metadata)) = capture_types-Rel metadata
  marked_types-Rel _ = c.fails _

  static_message-Rel :
      (n m : ℕ)
      → n ≤ m
      → (vs : List (Value F)) → c.Rel (static_message host n vs) (static_message host m vs)
  unfolding static_message metadata_types
  static_message-Rel n m h (_ ∷ Value.str bytes ∷ _) = c.returns _
  static_message-Rel n m h (_ ∷ Value.fmt_str fs captures ∷ rest) =
      c.bind (marked_types-Rel (split_last rest)) (λ ts.
        c.bind (format_fmt_str-Rel c (format_value-Rel c host n m h) fs (to_list captures) ts)
          (λ text. c.returns _))
  static_message-Rel n m h _ = c.returns _

  static_assert-Rel :
      (n m : ℕ)
      → n ≤ m
      → (vs : List (Value F)) (l : Location)
      → c.Rel (static_assert host n vs l) (static_assert host m vs l)
  unfolding static_assert
  static_assert-Rel n m h [] l = c.fails _
  static_assert-Rel n m h (v ∷ vs) l = c.bind (lifts c _) (λ holds.
      branches c holds (c.returns _)
        (c.bind (static_message-Rel n m h (v ∷ vs)) (λ text. c.fails _)))

module _ {F : Type 0} (c : Closed F) where
  tuple_result-Rel : (r : Result (List (Value F))) → c.Rel (tuple_result r) (tuple_result r)
  unfolding tuple_result
  tuple_result-Rel r = c.bind (lifts c r) (λ vs. make_tuple-Rel c vs)

  constrainedness-Rel : c.Rel constrainedness constrainedness
  unfolding constrainedness
  constrainedness-Rel = c.bind c.marks (λ b. c.returns _)

module _ {F : Type 0} (c : Closed F) (ctx : Context F) (n m : ℕ) (h : n ≤ m) (name : String)
    (args : List (Value F)) (type : MonoType) (l : Location) where
  other_intrinsic-Rel :
      c.Rel (other_intrinsic ctx n name args type l) (other_intrinsic ctx m name args type l)
  unfolding other_intrinsic
  other_intrinsic-Rel = branches c _ (c.returns _) (c.fails _)

  black_box_intrinsic-Rel :
      c.Rel
        (black_box_intrinsic ctx n name args type l)
        (black_box_intrinsic ctx m name args type l)
  unfolding black_box_intrinsic
  black_box_intrinsic-Rel = branches c (name == "sha256_compression") (lifts c _) (
      branches c (name == "keccakf1600") (lifts c _) (
        branches c (name == "blake2s") (lifts c _) (
          branches c (name == "blake3") (lifts c _) (
            branches c (name == "aes128_encrypt") (lifts c _) (
              branches c (name == "ecdsa_secp256k1") (lifts c _)
                (branches c (name == "ecdsa_secp256r1") (lifts c _) other_intrinsic-Rel))))))

  hint_intrinsic-Rel :
      c.Rel (hint_intrinsic ctx n name args type l) (hint_intrinsic ctx m name args type l)
  unfolding hint_intrinsic
  hint_intrinsic-Rel = branches c (name == "is_unconstrained") (constrainedness-Rel c) (
      branches c (name == "static_assert") (static_assert-Rel c ctx.host n m h args l) (
        branches c (name == "black_box") (lifts c _) (
          branches c (name == "as_witness") (c.returns _) (
            branches c (name == "assert_constant") (c.returns _) (
              branches c (name == "apply_range_constraint") (lifts c _)
                (branches c (name == "field_less_than") (lifts c _) black_box_intrinsic-Rel))))))

  conversion_intrinsic-Rel :
      c.Rel
        (conversion_intrinsic ctx n name args type l)
        (conversion_intrinsic ctx m name args type l)
  unfolding conversion_intrinsic
  conversion_intrinsic-Rel = branches c (name == "str_as_bytes") (lifts c _) (
      branches c (name == "array_as_str_unchecked") (lifts c _) (
        branches c (name == "to_le_radix") (lifts c _) (
          branches c (name == "to_be_radix") (lifts c _) (
            branches c (name == "to_le_bits") (lifts c _)
              (branches c (name == "to_be_bits") (lifts c _) hint_intrinsic-Rel)))))

  pub call_intrinsic-Rel :
      c.Rel (call_intrinsic ctx n name args type l) (call_intrinsic ctx m name args type l)
  unfolding call_intrinsic
  call_intrinsic-Rel = branches c (name == "array_len") (lifts c _) (
      branches c (name == "as_vector") (lifts c _) (
        branches c (name == "vector_push_back") (lifts c _) (
          branches c (name == "vector_push_front") (lifts c _) (
            branches c (name == "vector_pop_back") (tuple_result-Rel c _) (
              branches c (name == "vector_pop_front") (tuple_result-Rel c _) (
                branches c (name == "vector_insert") (lifts c _) (
                  branches c (name == "vector_remove") (tuple_result-Rel c _)
                    conversion_intrinsic-Rel)))))))
