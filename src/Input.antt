-- ===== src/Input.antt =====
-- packages/core/src/InputValidator.ts. A validator of one value returns it at the type that it was
-- found to have.
use sidetree_js.Prelude.{not, Option, none, some, List, [], ◌∷◌, ltb, length}
use sidetree_js.Prelude.Text.{Text, codes}
use sidetree_js.Errors.{sidetree, Result, ok, err, ◌>>=◌, ◌>>◌, throw_if}
use sidetree_js.Errors.{
  input_validator_input_is_not_an_object, input_validator_input_cannot_be_an_array,
  input_validator_input_contains_now_allowed_property, input_validator_cas_file_uri_not_string,
  input_validator_cas_file_uri_exceeds_max_length, encoded_multihash_must_be_a_string,
  suffix_data_type_is_not_string, suffix_data_type_length_greater_than_four,
  suffix_data_type_invalid_character,
}
use sidetree_js.Json.{Json, Items, null, arr, obj, nil, cons, property, has_only}
use sidetree_js.Json.Typing.{string_or}
use sidetree_js.Parameters.{max_cas_uri_length, hash_algorithms_in_multihash_code}
use sidetree_js.Crypto.{CryptoLib}
use sidetree_js.Crypto.Multihash.{
  is_base64url_string, validate_hash_computed_using_supported_hash_algorithm,
}

-- `typeof null` is 'object'
unfoldable pub validate_non_array_object : Option Json → Result Json
validate_non_array_object (some (obj fields)) = ok (obj fields)
validate_non_array_object (some null) = ok null
validate_non_array_object (some (arr items)) =
    err (sidetree input_validator_input_cannot_be_an_array)
validate_non_array_object _ = err (sidetree input_validator_input_is_not_an_object)

unfoldable pub validate_object_contains_only_allowed_properties :
    Json → List Text → Result (Unit {0})
validate_object_contains_only_allowed_properties input allowed =
    throw_if (not (has_only allowed input)) input_validator_input_contains_now_allowed_property

unfoldable pub validate_cas_file_uri : Option Json → Result Text
validate_cas_file_uri cas_file_uri = do
  uri ← string_or input_validator_cas_file_uri_not_string cas_file_uri
  throw_if (ltb max_cas_uri_length (length uri)) input_validator_cas_file_uri_exceeds_max_length
  ok uri

unfoldable pub validate_did_type : Option Json → Result (Option Text)
validate_did_type none = ok none
validate_did_type (some type) = do
  text ← string_or suffix_data_type_is_not_string (some type)
  throw_if (ltb 4 (length text)) suffix_data_type_length_greater_than_four
  throw_if (not (is_base64url_string text)) suffix_data_type_invalid_character
  ok (some text)

-- SuffixDataModel.ts
pub record SuffixData : Type 0 where
  pub delta_hash : Text
  pub recovery_commitment : Text
  pub type : Option Text

-- OperationReferenceModel.ts
pub record OperationReference : Type 0 where
  pub did_suffix : Text
  pub reveal_value : Text

module _ (lib : CryptoLib) where
  unfoldable pub validate_encoded_multihash : Option Json → Result Text
  validate_encoded_multihash input = do
    text ← string_or encoded_multihash_must_be_a_string input
    validate_hash_computed_using_supported_hash_algorithm lib text hash_algorithms_in_multihash_code
    ok text

  unfoldable pub validate_suffix_data : Option Json → Result SuffixData
  validate_suffix_data input = do
    suffix_data ← validate_non_array_object input
    validate_object_contains_only_allowed_properties suffix_data
        (codes "deltaHash" ∷ codes "recoveryCommitment" ∷ codes "type" ∷ [])
    delta_hash ← property suffix_data (codes "deltaHash") >>= validate_encoded_multihash
    recovery_commitment ←
        property suffix_data (codes "recoveryCommitment") >>= validate_encoded_multihash
    type ← property suffix_data (codes "type") >>= validate_did_type
    ok (record { delta_hash = delta_hash; recovery_commitment = recovery_commitment; type = type })

  -- one round of the loop of `validateOperationReferences`
  unfoldable pub validate_operation_reference : Json → Result OperationReference
  validate_operation_reference reference = do
    validate_object_contains_only_allowed_properties reference
        (codes "didSuffix" ∷ codes "revealValue" ∷ [])
    did_suffix ← property reference (codes "didSuffix") >>= validate_encoded_multihash
    reveal_value ← property reference (codes "revealValue") >>= validate_encoded_multihash
    ok (record { did_suffix = did_suffix; reveal_value = reveal_value })

  unfoldable pub validate_operation_references : Items → Result (List OperationReference)
  validate_operation_references nil = ok []
  validate_operation_references (cons item items) = do
    reference ← validate_operation_reference item
    references ← validate_operation_references items
    ok (reference ∷ references)
