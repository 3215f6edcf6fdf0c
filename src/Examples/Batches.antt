-- ===== src/Examples/Batches.antt =====
-- The theorems on the processing of transactions, on small batches.
use sidetree_js.Prelude.{
  ℕ, zero, suc, ◌+◌, ◌-◌, ◌*◌, ◌/◌, ◌%◌, ◌≤◌, ◌<◌, max, ◌≡◌, refl, sym, ap, ◌∙◌, ◌≢◌, ◌↔◌, ◌⊎◌, inl,
  inr, Bool, true, false, not, ◌&&◌, ◌||◌, Option, none, some, List, [], ◌∷◌, ◌++◌, map, append-nil,
  append_assoc, arith, ltb, leb, ◌==◌, if◌then◌else◌, ltb→lt, leb→le, ==_iff, Bool-cases,
  Option-cases, length, get_elem?, take, drop, filter, length-append, All, All-append, All-filter,
  All-of_mem, All-at_mem,
}
use sidetree_js.Prelude.Text.{
  Text, codes, text_eq, text_eq_sound, text_eq_refl, text_eq_iff, member, Distinct,
}
use sidetree_js.Errors.{sidetree, ok, err}
use sidetree_js.Errors.{cas_file_not_found}
use sidetree_js.Json.{Json, str}
use sidetree_js.Operation.{AnchoredOperation, Delta}
use sidetree_js.Files.CoreIndex.{CoreIndexFile, parse_core_index}
use sidetree_js.Files.Suffixes.{IsCoreIndex, parse_core_index-IsCoreIndex}
use sidetree_js.Transactions.{
  CoreFiles, ProvisionalFiles, download_core_files, download_provisional_files, process_transaction,
}
use sidetree_js.Transactions.Stored.{HasStored, process_transaction-HasStored}
use sidetree_js.Transactions.Completion.{
  IsProcessed, process_transaction-unmixed, process_transaction-mixed,
}
use sidetree_js.Examples.ToyDid.{reveal_of}
use sidetree_js.Examples.ToyNetwork.{
  suffix_data_json, lib, node, files, network, transaction_of, insert, created_operation,
}

abbrev core_index : CoreIndexFile
core_index = record {
  model = record {
    writer_lock_id = none;
    provisional_index_file_uri = some (codes "v");
    core_proof_file_uri = none;
    create_suffix_data = suffix_data_json ∷ [];
    recover_references = [];
    deactivate_references = [];
  };
  did_unique_suffixes = reveal_of 1 ∷ [];
  create_did_suffixes = reveal_of 1 ∷ [];
  recover_did_suffixes = [];
  deactivate_did_suffixes = [];
}

abbrev core_files : CoreFiles
core_files = record {
  anchored_data = record { core_index_file_uri = codes "i"; number_of_operations = 1 };
  core_index_file = core_index;
  core_proof_file = none;
}

abbrev mixed_core_files : CoreFiles
mixed_core_files = record {
  anchored_data = record { core_index_file_uri = codes "m"; number_of_operations = 2 };
  core_index_file = record {
    model = record {
      writer_lock_id = none;
      provisional_index_file_uri = some (codes "v");
      core_proof_file_uri = some (codes "f");
      create_suffix_data = suffix_data_json ∷ [];
      recover_references = [];
      deactivate_references = record { did_suffix = reveal_of 2; reveal_value = reveal_of 1 } ∷ [];
    };
    did_unique_suffixes = reveal_of 1 ∷ reveal_of 2 ∷ [];
    create_did_suffixes = reveal_of 1 ∷ [];
    recover_did_suffixes = [];
    deactivate_did_suffixes = reveal_of 2 ∷ [];
  };
  core_proof_file = some (record {
    recover_proofs = [];
    deactivate_proofs =
        record { protected = codes "h"; payload = codes "q"; signature = codes "s" } ∷ [];
  });
}

-- what the code computes on them
runs :
    (process_transaction network insert (transaction_of (codes "1.i")) []
      ≡ ok (created_operation ∷ [], true))
    × (download_core_files network (transaction_of (codes "1.z"))
        ≡ err (sidetree cas_file_not_found))
    × (download_core_files network (transaction_of (codes "1.i")) ≡ ok core_files)
    × (download_core_files network (transaction_of (codes "2.m")) ≡ ok mixed_core_files)
    × (parse_core_index lib node files (codes "i") ≡ ok core_index)
unfolding sidetree_js.Json.field_of sidetree_js.Json.property sidetree_js.Json.count_items
    sidetree_js.Json.count_fields sidetree_js.Json.count_properties sidetree_js.Json.all_fields_in
    sidetree_js.Json.has_only sidetree_js.Json.is_text sidetree_js.Json.Typing.string_or
    sidetree_js.Json.Typing.array_or sidetree_js.Prelude.Text.text_eq
    sidetree_js.Prelude.Text.member sidetree_js.Input.validate_non_array_object
    sidetree_js.Input.validate_object_contains_only_allowed_properties
    sidetree_js.Input.validate_cas_file_uri sidetree_js.Input.validate_did_type
    sidetree_js.Input.validate_encoded_multihash sidetree_js.Input.validate_suffix_data
    sidetree_js.Input.validate_operation_reference sidetree_js.Input.validate_operation_references
    sidetree_js.Crypto.Multihash.is_base64url_string sidetree_js.Crypto.Multihash.decode_as_buffer
    sidetree_js.Crypto.Multihash.hash_as_non_multihash_buffer sidetree_js.Crypto.Multihash.hash
    sidetree_js.Crypto.Multihash.hash_then_encode
    sidetree_js.Crypto.Multihash.canonicalize_then_hash_then_encode
    sidetree_js.Crypto.Multihash.canonicalize_then_double_hash_then_encode
    sidetree_js.Crypto.Multihash.verify_double_hash
    sidetree_js.Crypto.Multihash.canonicalize_and_verify_double_hash
    sidetree_js.Crypto.Multihash.verify_encoded_multihash_for_content
    sidetree_js.Crypto.Multihash.is_valid_hash
    sidetree_js.Crypto.Multihash.validate_canonicalize_object_hash
    sidetree_js.Crypto.Multihash.validate_hash_computed_using_supported_hash_algorithm
    sidetree_js.Document.Validation.validate_id sidetree_js.Document.Validation.is_same_value
    sidetree_js.Document.Validation.has_value
    sidetree_js.Document.Validation.has_duplicate_values_from
    sidetree_js.Document.Validation.validate_purpose_values
    sidetree_js.Document.Validation.validate_purposes
    sidetree_js.Document.Validation.validate_public_key
    sidetree_js.Document.Validation.validate_public_keys_from
    sidetree_js.Document.Validation.validate_public_keys
    sidetree_js.Document.Validation.validate_ids
    sidetree_js.Document.Validation.validate_add_public_keys_patch
    sidetree_js.Document.Validation.validate_remove_public_keys_patch
    sidetree_js.Document.Validation.validate_remove_services_patch
    sidetree_js.Document.Validation.validate_service_endpoint
    sidetree_js.Document.Validation.validate_service
    sidetree_js.Document.Validation.validate_services_from
    sidetree_js.Document.Validation.validate_services
    sidetree_js.Document.Validation.validate_document
    sidetree_js.Document.Validation.validate_add_services_patch
    sidetree_js.Document.Validation.validate_replace_patch
    sidetree_js.Document.Validation.validate_patch sidetree_js.Document.Validation.validate_patches
    sidetree_js.Document.Validation.validate_document_patches
    sidetree_js.Operation.Parsing.create_compact_jws sidetree_js.Operation.Parsing.to_compact_jws
    sidetree_js.Operation.Parsing.validate_jwk_es256k sidetree_js.Operation.Parsing.decode_as_string
    sidetree_js.Operation.Parsing.jws_of_parts sidetree_js.Operation.Parsing.parse_compact_jws
    sidetree_js.Operation.Parsing.verify_compact_jws sidetree_js.Operation.Parsing.verify_signature
    sidetree_js.Operation.Parsing.validate_delta sidetree_js.Operation.Parsing.validate_sized_delta
    sidetree_js.Operation.Parsing.delta_or_undefined
    sidetree_js.Operation.Parsing.compute_unique_suffix
    sidetree_js.Operation.Parsing.Operations.parse_create_object
    sidetree_js.Operation.Parsing.Operations.parse_update_signed_data
    sidetree_js.Operation.Parsing.Operations.parse_update_object
    sidetree_js.Operation.Parsing.Operations.parse_recover_signed_data
    sidetree_js.Operation.Parsing.Operations.parse_recover_object
    sidetree_js.Operation.Parsing.Operations.parse_deactivate_signed_data
    sidetree_js.Operation.Parsing.Operations.parse_deactivate_object
    sidetree_js.Operation.Parsing.Operations.parse_buffer
    sidetree_js.Operation.Parsing.Operations.parse_object
    sidetree_js.Operation.Parsing.Operations.parse
    sidetree_js.Operation.Parsing.Operations.reveal_value
    sidetree_js.Operation.Parsing.Operations.parser sidetree_js.Ledger.AnchoredData.print_from
    sidetree_js.Ledger.AnchoredData.print_number sidetree_js.Ledger.AnchoredData.serialize
    sidetree_js.Ledger.AnchoredData.push_char sidetree_js.Ledger.AnchoredData.split
    sidetree_js.Ledger.AnchoredData.is_positive_integer sidetree_js.Ledger.AnchoredData.read_from
    sidetree_js.Ledger.AnchoredData.parse_positive_integer
    sidetree_js.Ledger.AnchoredData.deserialize_parts sidetree_js.Ledger.AnchoredData.deserialize
    sidetree_js.Files.decompress_from sidetree_js.Files.decompress sidetree_js.Files.rethrow_as
    sidetree_js.Files.read_file sidetree_js.Files.first_of sidetree_js.Files.map_field
    sidetree_js.Files.map_property sidetree_js.Files.map_each
    sidetree_js.Files.CoreIndex.unwrap_create_references
    sidetree_js.Files.CoreIndex.validate_provisional_uri
    sidetree_js.Files.CoreIndex.validate_proof_uri sidetree_js.Files.CoreIndex.finish_core_index
    sidetree_js.Files.CoreIndex.validate_writer_lock_id
    sidetree_js.Files.CoreIndex.validate_create_references
    sidetree_js.Files.CoreIndex.compute_unique_suffixes sidetree_js.Files.CoreIndex.validate_creates
    sidetree_js.Files.CoreIndex.validate_references sidetree_js.Files.CoreIndex.validate_core_index
    sidetree_js.Files.CoreIndex.parse_core_index sidetree_js.Files.Proofs.parse_proof
    sidetree_js.Files.Proofs.parse_recover_proofs sidetree_js.Files.Proofs.parse_deactivate_proofs
    sidetree_js.Files.Proofs.parse_update_proofs sidetree_js.Files.Proofs.validate_core_proof
    sidetree_js.Files.Proofs.parse_core_proof sidetree_js.Files.Proofs.validate_provisional_proof
    sidetree_js.Files.Proofs.parse_provisional_proof sidetree_js.Files.Provisional.validate_chunk
    sidetree_js.Files.Provisional.validate_only_chunk
    sidetree_js.Files.Provisional.validate_chunks_property
    sidetree_js.Files.Provisional.validate_provisional_proof_uri
    sidetree_js.Files.Provisional.validate_operations_property
    sidetree_js.Files.Provisional.validate_provisional_index
    sidetree_js.Files.Provisional.parse_provisional_index
    sidetree_js.Files.Provisional.validate_deltas sidetree_js.Files.Provisional.unwrap_deltas
    sidetree_js.Files.Provisional.validate_chunk_file sidetree_js.Files.Provisional.parse_chunk_file
    sidetree_js.Arrays.search_from sidetree_js.Arrays.binary_search
    sidetree_js.Arrays.has_duplicates_from sidetree_js.Arrays.has_duplicates
    sidetree_js.Arrays.are_mutually_exclusive sidetree_js.Transactions.is_completed_after_core_error
    sidetree_js.Transactions.is_retry_needed sidetree_js.Transactions.download_core_files
    sidetree_js.Transactions.download_provisional_files
    sidetree_js.Transactions.provisional_files_or_none sidetree_js.Transactions.store_operations
    sidetree_js.Transactions.process_transaction sidetree_js.Transactions.Download.content_of
    sidetree_js.Transactions.Download.fetched sidetree_js.Transactions.Download.lock_of
    sidetree_js.Transactions.Download.download_file_from_cas
    sidetree_js.Transactions.Download.download_and_verify_core_index_file
    sidetree_js.Transactions.Download.download_core_proof_file
    sidetree_js.Transactions.Download.download_and_verify_core_proof_file
    sidetree_js.Transactions.Download.download_provisional_index_file
    sidetree_js.Transactions.Download.download_and_verify_provisional_index_file
    sidetree_js.Transactions.Download.download_provisional_proof_file
    sidetree_js.Transactions.Download.download_and_verify_provisional_proof_file
    sidetree_js.Transactions.Download.download_and_verify_chunk_file
    sidetree_js.Transactions.Compose.optional_field sidetree_js.Transactions.Compose.item_or_throw
    sidetree_js.Transactions.Compose.delta_at sidetree_js.Transactions.Compose.proof_at
    sidetree_js.Transactions.Compose.slice sidetree_js.Transactions.Compose.slice_from
    sidetree_js.Transactions.Compose.compose_from sidetree_js.Transactions.Compose.compose_create_at
    sidetree_js.Transactions.Compose.compose_anchored_create_operation_models
    sidetree_js.Transactions.Compose.compose_recover_at
    sidetree_js.Transactions.Compose.compose_recovers
    sidetree_js.Transactions.Compose.compose_anchored_recover_operation_models
    sidetree_js.Transactions.Compose.compose_deactivate_at
    sidetree_js.Transactions.Compose.compose_deactivates
    sidetree_js.Transactions.Compose.compose_anchored_deactivate_operation_models
    sidetree_js.Transactions.Compose.compose_update_at
    sidetree_js.Transactions.Compose.compose_updates
    sidetree_js.Transactions.Compose.compose_anchored_update_operation_models
    sidetree_js.Transactions.Compose.compose_anchored_operation_models
    sidetree_js.Ledger.Doubles.round_half_even sidetree_js.Ledger.Doubles.scale_up
    sidetree_js.Ledger.Doubles.scale_down sidetree_js.Ledger.Doubles.round
    sidetree_js.Ledger.Doubles.times sidetree_js.Ledger.Doubles.over sidetree_js.Ledger.Doubles.less
    sidetree_js.Parameters.normalized_fee_to_per_operation_fee_multiplier
    sidetree_js.Ledger.Fee.fee_per_operation sidetree_js.Ledger.Fee.compute_minimum_transaction_fee
    sidetree_js.Ledger.Fee.verify_transaction_fee_and_throw_on_error
    sidetree_js.Ledger.Lock.floor_quotient sidetree_js.Ledger.Lock.max_limit
    sidetree_js.Ledger.Lock.is_over sidetree_js.Ledger.Lock.lock_divisor
    sidetree_js.Ledger.Lock.calculate_max_number_of_operations_allowed
    sidetree_js.Ledger.Lock.check_lock sidetree_js.Ledger.Lock.verify_lock_amount_and_throw_on_error
runs = (refl, refl, refl, refl, refl)

process_transaction-HasStored_example :
    ((created_operation ∷ []) ≡ [])
    ⊎ HasStored network insert (transaction_of (codes "1.i")) [] (created_operation ∷ [])
process_transaction-HasStored_example =
    process_transaction-HasStored network insert (transaction_of (codes "1.i")) []
      (created_operation ∷ []) true runs.0

process_transaction-unmixed_example :
    IsProcessed network insert (transaction_of (codes "1.i")) [] core_files
process_transaction-unmixed_example =
    process_transaction-unmixed network insert (transaction_of (codes "1.i")) [] core_files runs.2
      (inl refl) (λ operations. (operations, refl))

process_transaction-mixed_example :
    process_transaction network insert (transaction_of (codes "2.m")) [] ≢ ok ([], true)
process_transaction-mixed_example =
    process_transaction-mixed network insert (transaction_of (codes "2.m")) [] mixed_core_files
      runs.3 (omega arith) (omega arith) ([], true)

parse_core_index-IsCoreIndex_example : IsCoreIndex core_index
parse_core_index-IsCoreIndex_example =
    parse_core_index-IsCoreIndex lib node files (codes "i") core_index runs.4
