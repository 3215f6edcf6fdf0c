-- ===== src/Operation/Parsing/Operations.antt =====
-- `parseObject`, `parse` and `parseSignedDataPayload` of CreateOperation.ts, UpdateOperation.ts,
-- RecoverOperation.ts and DeactivateOperation.ts, and `parse` of Operation.ts. The buffer that an
-- operation keeps is the caller's.
use sidetree_js.Prelude.{Bool, true, false, not, Option, none, some, [], ◌∷◌, ◌==◌, if◌then◌else◌}
use sidetree_js.Prelude.Text.{Text, codes}
use sidetree_js.Errors.{sidetree, unexpected, Result, ok, err, ◌>>=◌, ◌>>◌, throw_if}
use sidetree_js.Errors.{
  create_operation_missing_or_unknown_property, create_operation_type_incorrect,
  update_operation_type_incorrect, update_operation_missing_did_unique_suffix,
  update_operation_signed_data_has_missing_or_unknown_property, recover_operation_type_incorrect,
  recover_operation_missing_or_invalid_did_unique_suffix,
  recover_operation_signed_data_missing_or_unknown_property, deactivate_operation_type_incorrect,
  deactivate_operation_missing_or_invalid_did_unique_suffix,
  deactivate_operation_signed_data_missing_or_unknown_property,
  deactivate_operation_signed_did_unique_suffix_mismatch, operation_type_unknown_or_missing,
}
use sidetree_js.Json.{Json, property, count_properties, is_text}
use sidetree_js.Json.Typing.{string_or}
use sidetree_js.Crypto.{CryptoLib}
use sidetree_js.Crypto.Multihash.{validate_canonicalize_object_hash}
use sidetree_js.Input.{
  validate_object_contains_only_allowed_properties, validate_encoded_multihash,
  validate_suffix_data,
}
use sidetree_js.Operation.{
  CreateOperation, UpdateOperation, RecoverOperation, DeactivateOperation, OperationParser,
}
use sidetree_js.Operation.Parsing.{
  ParserLib, validate_jwk_es256k, decode_as_string, parse_compact_jws, verify_signature,
  validate_delta, delta_or_undefined, compute_unique_suffix,
}

pub record UpdateSignedData : Type 0 where
  pub update_key : Json
  pub delta_hash : Text

pub record RecoverSignedData : Type 0 where
  pub recovery_key : Json
  pub delta_hash : Text
  pub recovery_commitment : Text

pub data ParsedOperation : Type 0 where
  created : CreateOperation → ParsedOperation
  updated : UpdateOperation → ParsedOperation
  recovered : RecoverOperation → ParsedOperation
  deactivated : DeactivateOperation → ParsedOperation

-- `suffixData` was found to be there
abbrev pub or_null : Option Json → Json
or_null none = Json.null
or_null (some value) = value

-- `value === text`, where both may be `undefined`
abbrev pub is_same_text : Option Json → Option Text → Bool
is_same_text value (some text) = is_text value text
is_same_text none none = true
is_same_text (some value) none = false

module _ (lib : CryptoLib) (node : ParserLib) where
  unfoldable pub parse_create_object : Json → Result CreateOperation
  parse_create_object object = do
    count ← count_properties object
    throw_if (not (count == 3)) create_operation_missing_or_unknown_property
    type ← property object (codes "type")
    throw_if (not (is_text type (codes "create"))) create_operation_type_incorrect
    value ← property object (codes "suffixData")
    suffix_data ← validate_suffix_data lib value
    delta ← property object (codes "delta")
    did_unique_suffix ← compute_unique_suffix lib node (or_null value)
    ok (record {
      did_unique_suffix = did_unique_suffix;
      delta_hash = suffix_data.delta_hash;
      recovery_commitment = suffix_data.recovery_commitment;
      delta = delta_or_undefined lib node delta;
    })

  unfoldable pub parse_update_signed_data : Text → Result UpdateSignedData
  parse_update_signed_data payload = do
    signed_data ← decode_as_string node payload >>= node.json_parse_async
    count ← count_properties signed_data
    throw_if (not (count == 2)) update_operation_signed_data_has_missing_or_unknown_property
    update_key ← property signed_data (codes "updateKey") >>= validate_jwk_es256k
    delta_hash ← property signed_data (codes "deltaHash") >>= validate_encoded_multihash lib
    ok (record { update_key = update_key; delta_hash = delta_hash })

  unfoldable pub parse_update_object : Json → Result UpdateOperation
  parse_update_object object = do
    validate_object_contains_only_allowed_properties object (
        codes "type"
        ∷ codes "didSuffix"
        ∷ codes "revealValue"
        ∷ codes "signedData"
        ∷ codes "delta"
        ∷ [])
    type ← property object (codes "type")
    throw_if (not (is_text type (codes "update"))) update_operation_type_incorrect
    did_unique_suffix ←
        property object (codes "didSuffix") >>= string_or update_operation_missing_did_unique_suffix
    reveal_value ← property object (codes "revealValue") >>= validate_encoded_multihash lib
    signed_data ← property object (codes "signedData") >>= parse_compact_jws node
    model ← parse_update_signed_data signed_data.payload
    validate_canonicalize_object_hash lib model.update_key reveal_value
    delta ← property object (codes "delta") >>= validate_delta lib node
    ok (record {
      did_unique_suffix = did_unique_suffix;
      reveal_value = reveal_value;
      signed_data_jws = signed_data;
      update_key = model.update_key;
      delta_hash = model.delta_hash;
      delta = some delta;
    })

  unfoldable pub parse_recover_signed_data : Text → Result RecoverSignedData
  parse_recover_signed_data payload = do
    signed_data ← decode_as_string node payload >>= node.json_parse_async
    count ← count_properties signed_data
    throw_if (not (count == 3)) recover_operation_signed_data_missing_or_unknown_property
    recovery_key ← property signed_data (codes "recoveryKey") >>= validate_jwk_es256k
    delta_hash ← property signed_data (codes "deltaHash") >>= validate_encoded_multihash lib
    recovery_commitment ←
        property signed_data (codes "recoveryCommitment") >>= validate_encoded_multihash lib
    ok (record {
      recovery_key = recovery_key;
      delta_hash = delta_hash;
      recovery_commitment = recovery_commitment;
    })

  unfoldable pub parse_recover_object : Json → Result RecoverOperation
  parse_recover_object object = do
    validate_object_contains_only_allowed_properties object (
        codes "type"
        ∷ codes "didSuffix"
        ∷ codes "revealValue"
        ∷ codes "signedData"
        ∷ codes "delta"
        ∷ [])
    type ← property object (codes "type")
    throw_if (not (is_text type (codes "recover"))) recover_operation_type_incorrect
    did_unique_suffix ←
        property object (codes "didSuffix")
        >>= string_or recover_operation_missing_or_invalid_did_unique_suffix
    reveal_value ← property object (codes "revealValue") >>= validate_encoded_multihash lib
    signed_data ← property object (codes "signedData") >>= parse_compact_jws node
    model ← parse_recover_signed_data signed_data.payload
    validate_canonicalize_object_hash lib model.recovery_key reveal_value
    delta ← property object (codes "delta")
    ok (record {
      did_unique_suffix = did_unique_suffix;
      reveal_value = reveal_value;
      signed_data_jws = signed_data;
      recovery_key = model.recovery_key;
      delta_hash = model.delta_hash;
      recovery_commitment = model.recovery_commitment;
      delta = delta_or_undefined lib node delta;
    })

  -- the recovery key of the payload
  unfoldable pub parse_deactivate_signed_data : Text → Option Text → Result Json
  parse_deactivate_signed_data payload expected_did_unique_suffix = do
    signed_data ← decode_as_string node payload >>= node.json_parse_async
    count ← count_properties signed_data
    throw_if (not (count == 2)) deactivate_operation_signed_data_missing_or_unknown_property
    did_suffix ← property signed_data (codes "didSuffix")
    throw_if (not (is_same_text did_suffix expected_did_unique_suffix))
        deactivate_operation_signed_did_unique_suffix_mismatch
    property signed_data (codes "recoveryKey") >>= validate_jwk_es256k

  unfoldable pub parse_deactivate_object : Json → Result DeactivateOperation
  parse_deactivate_object object = do
    validate_object_contains_only_allowed_properties object
        (codes "type" ∷ codes "didSuffix" ∷ codes "revealValue" ∷ codes "signedData" ∷ [])
    type ← property object (codes "type")
    throw_if (not (is_text type (codes "deactivate"))) deactivate_operation_type_incorrect
    did_unique_suffix ←
        property object (codes "didSuffix")
        >>= string_or deactivate_operation_missing_or_invalid_did_unique_suffix
    reveal_value ← property object (codes "revealValue") >>= validate_encoded_multihash lib
    signed_data ← property object (codes "signedData") >>= parse_compact_jws node
    recovery_key ← parse_deactivate_signed_data signed_data.payload (some did_unique_suffix)
    validate_canonicalize_object_hash lib recovery_key reveal_value
    ok (record {
      did_unique_suffix = did_unique_suffix;
      reveal_value = reveal_value;
      signed_data_jws = signed_data;
      recovery_key = recovery_key;
    })

  -- the `parse` of a class, which parses the text of the buffer first
  unfoldable pub parse_buffer {ℓ} : {A : Type ℓ} → (Json → Result A) → Text → Result A
  parse_buffer parse_object operation_buffer =
      node.json_parse_async (node.to_string operation_buffer) >>= parse_object

  -- `Operation.parse` of a parsed text
  unfoldable pub parse_object : Json → Result ParsedOperation
  parse_object object = do
    type ← property object (codes "type")
    if is_text type (codes "create")
        then (do operation ← parse_create_object object; ok (created operation))
        else if is_text type (codes "update")
        then (do operation ← parse_update_object object; ok (updated operation))
        else if is_text type (codes "recover")
        then (do operation ← parse_recover_object object; ok (recovered operation))
        else if is_text type (codes "deactivate")
        then (do operation ← parse_deactivate_object object; ok (deactivated operation))
        else err (sidetree operation_type_unknown_or_missing)

  unfoldable pub parse : Text → Result ParsedOperation
  parse operation_buffer = node.json_parse (node.to_string operation_buffer) >>= parse_object

  -- `operation.revealValue`: a create operation has none, and to decode `undefined` throws.
  unfoldable pub reveal_value : ParsedOperation → Result Text
  reveal_value (created operation) = err unexpected
  reveal_value (updated operation) = ok operation.reveal_value
  reveal_value (recovered operation) = ok operation.reveal_value
  reveal_value (deactivated operation) = ok operation.reveal_value

  -- what the operation processor calls
  unfoldable pub parser : OperationParser
  parser = record {
    parse_create = parse_buffer parse_create_object;
    parse_update = parse_buffer parse_update_object;
    parse_recover = parse_buffer parse_recover_object;
    parse_deactivate = parse_buffer parse_deactivate_object;
    parse_reveal_value = λ buffer. parse buffer >>= reveal_value;
    verify_signature = λ jws key. ok (verify_signature node jws key);
  }
