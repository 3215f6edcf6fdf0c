-- ===== src/Transactions/Download.antt =====
-- packages/core/src/TransactionProcessor.ts: the download of the files of a batch from the content
-- addressable storage, and the checks of each against the files before it.
use sidetree_js.Prelude.{ℕ, ◌+◌, ◌-◌, not, Option, none, some, List, [], ◌∷◌, ltb, ◌==◌, length}
use sidetree_js.Prelude.Text.{Text}
use sidetree_js.Errors.{ErrorCode, sidetree, unexpected, Result, ok, err, ◌>>=◌, ◌>>◌, throw_if}
use sidetree_js.Errors.{
  cas_file_uri_not_valid, cas_file_too_large, cas_file_not_a_file, cas_file_not_found,
  transaction_processor_paid_operation_count_exceeds_limit,
  core_index_file_operation_count_exceeded_paid_limit,
  core_proof_file_proof_count_not_the_same_as_operation_count_in_core_index_file,
  provisional_proof_file_proof_count_not_the_same_as_operation_count_in_provisional_index_file,
  provisional_index_file_update_operation_count_greater_than_max_paid_count,
  provisional_index_file_did_reference_duplicated_with_core_index_file,
  chunk_file_delta_count_incorrect,
}
use sidetree_js.Parameters.{
  max_operations_per_batch, max_core_index_file_size_in_bytes, max_proof_file_size_in_bytes,
  max_provisional_index_file_size_in_bytes, max_chunk_file_size_in_bytes,
}
use sidetree_js.Arrays.{are_mutually_exclusive}
use sidetree_js.Crypto.{CryptoLib}
use sidetree_js.Operation.{Delta}
use sidetree_js.Operation.Parsing.{ParserLib}
use sidetree_js.Ledger.{Transaction}
use sidetree_js.Ledger.Lock.{ValueTimeLock, VersionMetadata, verify_lock_amount_and_throw_on_error}
use sidetree_js.Files.{FileLib}
use sidetree_js.Files.CoreIndex.{CoreIndexFile, parse_core_index}
use sidetree_js.Files.Proofs.{
  CoreProofFile, ProvisionalProofFile, parse_core_proof, parse_provisional_proof,
}
use sidetree_js.Files.Provisional.{ProvisionalIndexFile, parse_provisional_index, parse_chunk_file}

-- FetchResultCode.ts
pub data FetchResultCode : Type 0 where
  cas_not_reachable invalid_hash max_size_exceeded max_size_not_specified : FetchResultCode
  not_a_file not_found success unexpected_error : FetchResultCode

-- FetchResult.ts
pub record FetchResult : Type 0 where
  pub code : FetchResultCode
  pub content : Option Text

-- What the processor calls: the packages under the parsers, the download manager, the ledger and
-- the versions of the protocol.
pub record Network : Type 0 where
  pub lib : CryptoLib
  pub node : ParserLib
  pub files : FileLib
  -- `downloadManager.download` of a URI, with the greatest size
  pub download : Text → ℕ → Result FetchResult
  -- `blockchain.getValueTimeLock`
  pub get_value_time_lock : Text → Result (Option ValueTimeLock)
  -- `versionMetadataFetcher.getVersionMetadata`
  pub get_version_metadata : ℕ → Result VersionMetadata

-- `content!`: its length is read first, which throws where there is none
unfoldable pub content_of : Option Text → Result Text
content_of none = err unexpected
content_of (some content) = ok content

unfoldable pub fetched : FetchResultCode → Option Text → Result Text
fetched invalid_hash content = err (sidetree cas_file_uri_not_valid)
fetched max_size_exceeded content = err (sidetree cas_file_too_large)
fetched not_a_file content = err (sidetree cas_file_not_a_file)
fetched cas_not_reachable content = err (sidetree ErrorCode.cas_not_reachable)
fetched not_found content = err (sidetree cas_file_not_found)
fetched _ content = content_of content

-- `writerLockId` is tested as a condition, which an empty text fails.
unfoldable pub lock_of :
    (Text → Result (Option ValueTimeLock)) → Option Text → Result (Option ValueTimeLock)
lock_of get_value_time_lock none = ok none
lock_of get_value_time_lock (some []) = ok none
lock_of get_value_time_lock (some (c ∷ s)) = get_value_time_lock (c ∷ s)

module _ (network : Network) where
  unfoldable pub download_file_from_cas : Text → ℕ → Result Text
  download_file_from_cas file_uri max_file_size_in_bytes = do
    result ← network.download file_uri max_file_size_in_bytes
    fetched result.code result.content

  unfoldable pub download_and_verify_core_index_file : Transaction → Text → ℕ → Result CoreIndexFile
  download_and_verify_core_index_file transaction uri paid_operation_count = do
    throw_if (ltb max_operations_per_batch paid_operation_count)
        transaction_processor_paid_operation_count_exceeds_limit
    buffer ← download_file_from_cas uri max_core_index_file_size_in_bytes
    file ← parse_core_index network.lib network.node network.files buffer
    throw_if (ltb paid_operation_count (length file.did_unique_suffixes))
        core_index_file_operation_count_exceeded_paid_limit
    lock ← lock_of network.get_value_time_lock file.model.writer_lock_id
    verify_lock_amount_and_throw_on_error network.get_version_metadata lock paid_operation_count
        transaction.transaction_time transaction.writer
    ok file

  unfoldable pub download_core_proof_file : CoreIndexFile → Text → Result CoreProofFile
  download_core_proof_file core uri = do
    buffer ← download_file_from_cas uri max_proof_file_size_in_bytes
    file ←
        parse_core_proof network.lib network.node network.files buffer core.deactivate_did_suffixes
    throw_if
        (not (
          length core.deactivate_did_suffixes + length core.recover_did_suffixes
          == length file.deactivate_proofs + length file.recover_proofs))
        core_proof_file_proof_count_not_the_same_as_operation_count_in_core_index_file
    ok file

  unfoldable pub download_and_verify_core_proof_file : CoreIndexFile → Result (Option CoreProofFile)
  download_and_verify_core_proof_file core = elim core.model.core_proof_file_uri [
    | none ↦ ok none
    | some uri ↦ do file ← download_core_proof_file core uri; ok (some file)
  ]

  -- The core index file has no more operations than were paid for, so the difference is exact.
  unfoldable pub download_provisional_index_file :
      CoreIndexFile → ℕ → Text → Result ProvisionalIndexFile
  download_provisional_index_file core paid_operation_count uri = do
    buffer ← download_file_from_cas uri max_provisional_index_file_size_in_bytes
    file ← parse_provisional_index network.lib network.node network.files buffer
    throw_if
        (ltb (paid_operation_count - length core.did_unique_suffixes)
          (length file.did_unique_suffixes))
        provisional_index_file_update_operation_count_greater_than_max_paid_count
    throw_if (not (are_mutually_exclusive core.did_unique_suffixes file.did_unique_suffixes))
        provisional_index_file_did_reference_duplicated_with_core_index_file
    ok file

  unfoldable pub download_and_verify_provisional_index_file :
      CoreIndexFile → ℕ → Result (Option ProvisionalIndexFile)
  download_and_verify_provisional_index_file core paid_operation_count =
      elim core.model.provisional_index_file_uri [
        | none ↦ ok none
        | some uri ↦ do
          file ← download_provisional_index_file core paid_operation_count uri
          ok (some file)
      ]

  unfoldable pub download_provisional_proof_file :
      ProvisionalIndexFile → Text → Result ProvisionalProofFile
  download_provisional_proof_file provisional uri = do
    buffer ← download_file_from_cas uri max_proof_file_size_in_bytes
    file ← parse_provisional_proof network.lib network.node network.files buffer
    throw_if (not (length provisional.did_unique_suffixes == length file.update_proofs))
        provisional_proof_file_proof_count_not_the_same_as_operation_count_in_provisional_index_file
    ok file

  unfoldable pub download_and_verify_provisional_proof_file :
      Option ProvisionalIndexFile → Result (Option ProvisionalProofFile)
  download_and_verify_provisional_proof_file none = ok none
  download_and_verify_provisional_proof_file (some provisional) =
      elim provisional.provisional_proof_file_uri [
        | none ↦ ok none
        | some uri ↦ do file ← download_provisional_proof_file provisional uri; ok (some file)
      ]

  unfoldable pub download_and_verify_chunk_file :
      CoreIndexFile → Option ProvisionalIndexFile → Result (Option (List Delta))
  download_and_verify_chunk_file core none = ok none
  download_and_verify_chunk_file core (some provisional) = do
    buffer ← download_file_from_cas provisional.chunk_file_uri max_chunk_file_size_in_bytes
    deltas ← parse_chunk_file network.lib network.node network.files buffer
    throw_if
        (not (
          length deltas
          == length core.create_did_suffixes
            + length core.recover_did_suffixes
            + length provisional.did_unique_suffixes))
        chunk_file_delta_count_incorrect
    ok (some deltas)
