-- ===== src/Errors.antt =====
-- packages/common/src/errors: a function that may throw returns a `Result`. A `SidetreeError` is
-- its code; any other exception (a `TypeError`, say) is `unexpected`.
use mathlib.Core.Path.{◌≡◌, refl}
use mathlib.Core.Logic.{◌⊎◌, inl, inr}
use mathlib.Core.Bool.{Bool, true, false}
use sidetree_js.Prelude.{if◌then◌else◌}

-- ErrorCode.ts, whose values are the constructors' names
pub data ErrorCode : Type 0 where
  batch_scheduler_write_unexpected_error : ErrorCode
  blockchain_get_fee_response_not_ok : ErrorCode
  blockchain_get_latest_time_response_not_ok : ErrorCode
  blockchain_get_lock_response_not_ok : ErrorCode
  blockchain_get_writer_lock_response_not_ok : ErrorCode
  blockchain_read_invalid_arguments : ErrorCode
  blockchain_read_response_body_not_json : ErrorCode
  blockchain_read_response_not_ok : ErrorCode
  blockchain_write_unexpected_error : ErrorCode
  database_downgrade_not_allowed : ErrorCode
  version_manager_version_string_not_found : ErrorCode
  version_manager_version_metadata_incorrect_type : ErrorCode
  anchored_data_incorrect_format : ErrorCode
  anchored_data_number_of_operations_greater_than_max : ErrorCode
  anchored_data_number_of_operations_not_positive_integer : ErrorCode
  batch_writer_already_has_operation_for_did : ErrorCode
  canonicalized_object_hash_mismatch : ErrorCode
  cas_file_not_a_file : ErrorCode
  cas_file_not_found : ErrorCode
  cas_file_too_large : ErrorCode
  cas_file_uri_not_valid : ErrorCode
  cas_not_reachable : ErrorCode
  chunk_file_delta_count_incorrect : ErrorCode
  chunk_file_deltas_not_array_of_objects : ErrorCode
  chunk_file_deltas_property_not_array : ErrorCode
  chunk_file_unexpected_property : ErrorCode
  compressor_max_allowed_decompressed_data_size_exceeded : ErrorCode
  core_index_file_core_proof_file_uri_not_allowed : ErrorCode
  core_index_file_create_property_not_array : ErrorCode
  core_index_file_deactivate_property_not_array : ErrorCode
  core_index_file_decompression_failure : ErrorCode
  core_index_file_has_unknown_property : ErrorCode
  core_index_file_multiple_operations_for_the_same_did : ErrorCode
  core_index_file_not_json : ErrorCode
  core_index_file_operation_count_exceeded_paid_limit : ErrorCode
  core_index_file_provisional_index_file_uri_missing : ErrorCode
  core_index_file_recover_property_not_array : ErrorCode
  core_index_file_unexpected_property_in_operations : ErrorCode
  core_index_file_writer_lock_id_exceeded_max_size : ErrorCode
  core_index_file_writer_lock_id_property_not_string : ErrorCode
  core_proof_file_deactivate_property_not_an_array : ErrorCode
  core_proof_file_decompression_failure : ErrorCode
  core_proof_file_has_no_proofs : ErrorCode
  core_proof_file_not_json : ErrorCode
  core_proof_file_operations_not_found : ErrorCode
  core_proof_file_proof_count_not_the_same_as_operation_count_in_core_index_file : ErrorCode
  core_proof_file_recover_property_not_an_array : ErrorCode
  create_operation_missing_or_unknown_property : ErrorCode
  create_operation_type_incorrect : ErrorCode
  deactivate_operation_missing_or_invalid_did_unique_suffix : ErrorCode
  deactivate_operation_signed_data_missing_or_unknown_property : ErrorCode
  deactivate_operation_signed_did_unique_suffix_mismatch : ErrorCode
  deactivate_operation_type_incorrect : ErrorCode
  delta_exceeds_maximum_size : ErrorCode
  delta_is_null_or_undefined : ErrorCode
  did_incorrect_prefix : ErrorCode
  did_initial_state_jcs_is_not_jcs : ErrorCode
  did_initial_state_jcs_is_not_json : ErrorCode
  did_no_unique_suffix : ErrorCode
  did_not_found : ErrorCode
  did_unique_suffix_from_initial_state_mismatch : ErrorCode
  document_composer_apply_patch_unknown_action : ErrorCode
  document_composer_document_missing : ErrorCode
  document_composer_id_not_string : ErrorCode
  document_composer_id_not_using_base64_url_character_set : ErrorCode
  document_composer_id_too_long : ErrorCode
  document_composer_patch_missing_or_unknown_action : ErrorCode
  document_composer_patch_missing_or_unknown_property : ErrorCode
  document_composer_patch_public_key_ids_not_array : ErrorCode
  document_composer_patch_service_endpoint_cannot_be_an_array : ErrorCode
  document_composer_patch_service_endpoint_must_be_string_or_non_array_object : ErrorCode
  document_composer_patch_service_endpoint_string_not_valid_uri : ErrorCode
  document_composer_patch_service_id_not_unique : ErrorCode
  document_composer_patch_service_ids_not_array : ErrorCode
  document_composer_patch_service_type_not_string : ErrorCode
  document_composer_patch_service_type_too_long : ErrorCode
  document_composer_patch_services_not_array : ErrorCode
  document_composer_public_key_id_duplicated : ErrorCode
  document_composer_public_key_invalid_purpose : ErrorCode
  document_composer_public_key_purposes_duplicated : ErrorCode
  document_composer_public_key_purposes_incorrect_type : ErrorCode
  document_composer_public_key_type_missing_or_incorrect_type : ErrorCode
  document_composer_public_key_unknown_property : ErrorCode
  document_composer_public_keys_not_array : ErrorCode
  document_composer_service_has_missing_or_unknown_property : ErrorCode
  document_composer_unknown_property_in_document : ErrorCode
  document_composer_unknown_property_in_remove_public_keys_patch : ErrorCode
  document_composer_unknown_property_in_remove_services_patch : ErrorCode
  document_composer_update_operation_document_patches_not_array : ErrorCode
  encoded_multihash_must_be_a_string : ErrorCode
  encoder_validate_base64_url_string_input_not_base64_url_string : ErrorCode
  encoder_validate_base64_url_string_input_not_string : ErrorCode
  input_validator_cas_file_uri_exceeds_max_length : ErrorCode
  input_validator_cas_file_uri_not_string : ErrorCode
  input_validator_input_cannot_be_an_array : ErrorCode
  input_validator_input_contains_now_allowed_property : ErrorCode
  input_validator_input_is_not_an_object : ErrorCode
  jwk_es256k_has_incorrect_length_of_x : ErrorCode
  jwk_es256k_has_incorrect_length_of_y : ErrorCode
  jwk_es256k_has_unknown_property : ErrorCode
  jwk_es256k_missing_or_invalid_crv : ErrorCode
  jwk_es256k_missing_or_invalid_kty : ErrorCode
  jwk_es256k_missing_or_invalid_type_x : ErrorCode
  jwk_es256k_missing_or_invalid_type_y : ErrorCode
  jwk_es256k_undefined : ErrorCode
  jws_compact_jws_invalid : ErrorCode
  jws_compact_jws_not_string : ErrorCode
  jws_failed_signature_validation : ErrorCode
  jws_payload_not_base64_url_string : ErrorCode
  jws_protected_header_missing_or_incorrect_alg : ErrorCode
  jws_protected_header_missing_or_unknown_property : ErrorCode
  jws_signature_not_base64_url_string : ErrorCode
  multihash_not_supported : ErrorCode
  multihash_string_not_a_multihash : ErrorCode
  multihash_unsupported_hash_algorithm : ErrorCode
  operation_count_less_than_zero : ErrorCode
  operation_processor_create_operation_does_not_have_reveal_value : ErrorCode
  operation_processor_unknown_operation_type : ErrorCode
  operation_type_unknown_or_missing : ErrorCode
  provisional_index_file_chunk_has_missing_or_unknown_property : ErrorCode
  provisional_index_file_chunks_property_does_not_have_exactly_one_element : ErrorCode
  provisional_index_file_chunks_property_missing_or_incorrect_type : ErrorCode
  provisional_index_file_decompression_failure : ErrorCode
  provisional_index_file_did_reference_duplicated_with_core_index_file : ErrorCode
  provisional_index_file_has_unknown_property : ErrorCode
  provisional_index_file_multiple_operations_for_the_same_did : ErrorCode
  provisional_index_file_not_json : ErrorCode
  provisional_index_file_provisional_proof_file_uri_not_allowed : ErrorCode
  provisional_index_file_update_operation_count_greater_than_max_paid_count : ErrorCode
  provisional_index_file_update_operations_not_array : ErrorCode
  provisional_proof_file_decompression_failure : ErrorCode
  provisional_proof_file_has_no_proofs : ErrorCode
  provisional_proof_file_not_json : ErrorCode
  provisional_proof_file_operations_not_found : ErrorCode
  provisional_proof_file_proof_count_not_the_same_as_operation_count_in_provisional_index_file :
      ErrorCode
  provisional_proof_file_update_property_not_an_array : ErrorCode
  queueing_multiple_operations_per_did_not_allowed : ErrorCode
  recover_operation_missing_or_invalid_did_unique_suffix : ErrorCode
  recover_operation_signed_data_missing_or_unknown_property : ErrorCode
  recover_operation_type_incorrect : ErrorCode
  request_handler_unknown_operation_type : ErrorCode
  suffix_data_type_invalid_character : ErrorCode
  suffix_data_type_is_not_string : ErrorCode
  suffix_data_type_length_greater_than_four : ErrorCode
  transaction_fee_paid_invalid : ErrorCode
  transaction_fee_paid_less_than_normalized_fee : ErrorCode
  transaction_processor_paid_operation_count_exceeds_limit : ErrorCode
  transaction_processor_unexpected_cas_error : ErrorCode
  transactions_not_in_same_block : ErrorCode
  update_operation_missing_did_unique_suffix : ErrorCode
  update_operation_signed_data_has_missing_or_unknown_property : ErrorCode
  update_operation_type_incorrect : ErrorCode
  value_time_lock_verifier_invalid_number_of_operations : ErrorCode
  value_time_lock_verifier_transaction_time_outside_lock_range : ErrorCode
  value_time_lock_verifier_transaction_writer_lock_owner_mismatch : ErrorCode

pub data Failure : Type 0 where
  sidetree : ErrorCode → Failure
  unexpected : Failure

-- `err` is an exception, `ok` a value that is returned.
pub data Result {ℓ} (Value : Type ℓ) : Type ℓ where
  err : Failure → Result Value
  ok : Value → Result Value

-- `if (bad) { throw new SidetreeError(code); }`
abbrev pub throw_if : Bool → ErrorCode → Result (Unit {0})
throw_if true code = err (sidetree code)
throw_if false code = ok tt

-- what follows a call, which an exception skips
infixl 5 ◌>>=◌ ◌>>◌
abbrev pub ◌>>=◌ {ℓ κ} : {V : Type ℓ} {W : Type κ} → Result V → (V → Result W) → Result W
err failure >>= next = err failure
ok value >>= next = next value

-- the same after a check
abbrev pub ◌>>◌ {ℓ} : {W : Type ℓ} → Result (Unit {0}) → Result W → Result W
check >> rest = check >>= λ passed. rest

-- A chain returns only if its first call does, and then what follows it.
pub >>=-eq-ok {ℓ κ} :
    {V : Type ℓ} {W : Type κ} (first : Result V) (next : V → Result W) {w : W}
    → (first >>= next) ≡ ok w
    → (v : V) × (first ≡ ok v) × (next v ≡ ok w)
>>=-eq-ok (err failure) next returned = cc
>>=-eq-ok (ok value) next returned = (value, refl, returned)

pub Result-cases {ℓ} :
    {A : Type ℓ} (r : Result A) → ((e : Failure) × (r ≡ err e)) ⊎ ((a : A) × (r ≡ ok a))
Result-cases (ok a) = inr (a, refl)
Result-cases (err e) = inl (e, refl)

pub ok-injective {ℓ} : {A : Type ℓ} {a b : A} → ok a ≡ ok b → a ≡ b
ok-injective h = cc

-- A chain after a check returns only if the check passes, and then what follows it.
pub throw_if-eq-ok {ℓ} :
    {W : Type ℓ} (bad : Bool) (code : ErrorCode) (rest : Result W) {w : W}
    → (throw_if bad code >> rest) ≡ ok w
    → (bad ≡ false) × (rest ≡ ok w)
throw_if-eq-ok true code rest h = cc
throw_if-eq-ok false code rest h = (refl, h)

pub if-eq-ok {ℓ} :
    {W : Type ℓ} (b : Bool) (x y : Result W) {w : W}
    → (if b then x else y) ≡ ok w
    → (x ≡ ok w) ⊎ (y ≡ ok w)
if-eq-ok true x y h = inl h
if-eq-ok false x y h = inr h
