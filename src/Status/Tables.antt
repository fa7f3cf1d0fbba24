-- ===== src/Status/Tables.antt =====
-- src/status.rs: the tables of programs whose outcomes depend on the field.
use ast_interpreter.Base.{List, [], ◌∷◌, String}
use ast_interpreter.Capability.{Capability, unsigned_fits, signed_fits, field_bits_at_least}

abbrev pub program_capabilities : List (String × List Capability)
program_capabilities =
    ("bench_2_to_17", field_bits_at_least 254 ∷ [])
    ∷ ("bit_shifts_comptime", unsigned_fits 64 ∷ [])
    ∷ ("bit_shifts_runtime", signed_fits 64 ∷ unsigned_fits 64 ∷ [])
    ∷ ("bit_shifts_u128", unsigned_fits 128 ∷ [])
    ∷ ("brillig_block_parameter_liveness", unsigned_fits 64 ∷ [])
    ∷ ("cast_regression_7776", unsigned_fits 64 ∷ [])
    ∷ ("lambda_taking_lambda_regression_8543", signed_fits 64 ∷ [])
    ∷ ("lambda_taking_lambda_with_variant", signed_fits 64 ∷ [])
    ∷ ("large_nested_array_merge_loop", unsigned_fits 64 ∷ [])
    ∷ ("large_nested_array_multi_field_merge_u64", unsigned_fits 64 ∷ [])
    ∷ ("no_predicates_numeric_generic_poseidon", field_bits_at_least 254 ∷ [])
    ∷ ("poseidon_bn254_hash_width_3", field_bits_at_least 254 ∷ [])
    ∷ ("poseidonsponge_x5_254", field_bits_at_least 254 ∷ [])
    ∷ ("regression_10180", field_bits_at_least 254 ∷ [])
    ∷ ("regression_11294", field_bits_at_least 254 ∷ [])
    ∷ ("regression_12472", unsigned_fits 64 ∷ [])
    ∷ ("regression_5252", field_bits_at_least 254 ∷ [])
    ∷ ("regression_5615", field_bits_at_least 254 ∷ [])
    ∷ ("regression_7962", unsigned_fits 64 ∷ [])
    ∷ ("regression_8009", signed_fits 64 ∷ [])
    ∷ ("regression_8261", field_bits_at_least 254 ∷ [])
    ∷ ("regression_8519", unsigned_fits 128 ∷ [])
    ∷ ("regression_8726", signed_fits 64 ∷ [])
    ∷ ("regression_8755", field_bits_at_least 254 ∷ [])
    ∷ ("regression_9544", unsigned_fits 64 ∷ [])
    ∷ ("regression_9888", field_bits_at_least 254 ∷ [])
    ∷ ("regression_brillig_const_fold_self_dedup", field_bits_at_least 254 ∷ [])
    ∷ ("regression_struct_array_conditional", field_bits_at_least 254 ∷ [])
    ∷ ("regression_field_div_truncate", unsigned_fits 128 ∷ [])
    ∷ ("regression_unused_nested_array_get", field_bits_at_least 254 ∷ [])
    ∷ ("shift_left_rhs_value_casted_from_smaller_type", unsigned_fits 64 ∷ [])
    ∷ ("signed_truncation", signed_fits 64 ∷ [])
    ∷ ("to_bytes_integration", field_bits_at_least 254 ∷ [])
    ∷ ("u128_type", unsigned_fits 128 ∷ [])
    ∷ ("uhashmap", field_bits_at_least 254 ∷ [])
    ∷ ("unsigned_to_signed_cast", unsigned_fits 64 ∷ [])
    ∷ ("fixtures/interp_inputs_i64", signed_fits 64 ∷ [])
    ∷ ("fixtures/interp_inputs_u64", unsigned_fits 64 ∷ [])
    ∷ ("fixtures/interp_return_i64", signed_fits 64 ∷ [])
    ∷ ("fixtures/neg_interp_cast_u64_to_field", unsigned_fits 64 ∷ [])
    ∷ ("fixtures/neg_wide_input_u128", unsigned_fits 128 ∷ [])
    ∷ []

abbrev pub known_field_dependent : List (String × String)
known_field_dependent =
    (
      "modulus",
      "asserts modulus_num_bits() == 254 and compares the modulus bytes and bits with bn254's",
    )
    ∷ (
      "field_attribute",
      "defines foo() under #[field(bn254)], #[field(23)] and #[field(bls12_381)] only; no arm exists for goldilocks",
    )
    ∷ ("brillig_cow_regression", "names the embedded curve, which only bn254 defines")
    ∷ ("brillig_pedersen", "names the embedded curve, which only bn254 defines")
    ∷ ("embedded_curve_ops", "names the embedded curve, which only bn254 defines")
    ∷ ("import", "names the embedded curve, which only bn254 defines")
    ∷ ("inline_decompose_hint_brillig_call", "names the embedded curve, which only bn254 defines")
    ∷ ("merkle_insert", "names the embedded curve, which only bn254 defines")
    ∷ ("multi_scalar_mul", "names the embedded curve, which only bn254 defines")
    ∷ ("pedersen_check", "names the embedded curve, which only bn254 defines")
    ∷ ("pedersen_commitment", "names the embedded curve, which only bn254 defines")
    ∷ ("pedersen_hash", "names the embedded curve, which only bn254 defines")
    ∷ ("regression_12034", "names the embedded curve, which only bn254 defines")
    ∷ ("simple_shield", "names the embedded curve, which only bn254 defines")
    ∷ ("strings", "names the embedded curve, which only bn254 defines")
    ∷ ("regression_11659", "calls the Poseidon2 permutation, which only bn254's solver implements")
    ∷ ("regression_5045", "names the embedded curve, which only bn254 defines")
    ∷ ("regression_7744", "names the embedded curve, which only bn254 defines")
    ∷ ("regression_7128", "requests 32 Field bytes, exceeding the Goldilocks byte length")
    ∷ ("to_be_bytes", "requests 32 Field bytes, exceeding the Goldilocks byte length")
    ∷ ("to_bytes_consistent", "requests 32 Field bytes, exceeding the Goldilocks byte length")
    ∷ ("to_le_bytes", "requests 32 Field bytes, exceeding the Goldilocks byte length")
    ∷ ("unrolling_regression_8333", "requests 32 Field bytes, exceeding the Goldilocks byte length")
    ∷ ("vectors", "requests 32 Field bytes, exceeding the Goldilocks byte length")
    ∷ []

abbrev pub projection_invariant_fixtures : List String
projection_invariant_fixtures =
    "interp_inputs_i32" ∷ "interp_inputs_struct" ∷ "interp_inputs_mixed" ∷ "interp_refs_call_chain"
    ∷ "interp_refs_offset_receiver" ∷ "interp_str_bytes" ∷ "interp_match_enum" ∷ "interp_match_int"
    ∷ "interp_casts_above_modulus" ∷ "interp_width_2" ∷ "interp_width_10" ∷ "interp_width_33"
    ∷ "interp_width_34" ∷ "interp_width_36" ∷ "interp_width_66" ∷ "interp_width_126"
    ∷ "interp_width_128" ∷ "interp_width_16384" ∷ []
