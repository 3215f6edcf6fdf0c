-- ===== src/Transactions.antt =====
-- packages/core/src/TransactionProcessor.ts: a transaction of the ledger from its anchor string to
-- the operations in the store. The download of its files is in Download, the composition of their
-- operations in Compose.
pub mod Download
pub mod Compose
pub mod Runs
pub mod Composition
pub mod Returns
pub mod Stored
pub mod Completion
use sidetree_js.Prelude.{
  ℕ, zero, suc, ◌+◌, ◌-◌, ◌*◌, ◌/◌, ◌%◌, ◌≤◌, ◌<◌, max, ◌≡◌, refl, sym, ap, ◌∙◌, ◌≢◌, ◌↔◌, ◌⊎◌, inl,
  inr, Bool, true, false, not, ◌&&◌, ◌||◌, Option, none, some, List, [], ◌∷◌, ◌++◌, map, append-nil,
  append_assoc, arith, ltb, leb, ◌==◌, if◌then◌else◌, ltb→lt, leb→le, ==_iff, Bool-cases,
  Option-cases, length, get_elem?, take, drop, filter, length-append, All, All-append, All-filter,
  All-of_mem, All-at_mem,
}
use sidetree_js.Prelude.Text.{
  Text, codes, text_eq, text_eq_sound, text_eq_refl, text_eq_iff, member, Distinct,
}
use sidetree_js.Errors.{
  ErrorCode, Failure, sidetree, unexpected, Result, ok, err, ◌>>=◌, ◌>>◌, throw_if, >>=-eq-ok,
  Result-cases, ok-injective, throw_if-eq-ok, if-eq-ok,
}
use sidetree_js.Errors.{
  cas_file_not_found, cas_file_not_a_file, cas_not_reachable,
  batch_scheduler_write_unexpected_error,
}
use sidetree_js.Operation.{Delta, AnchoredOperation}
use sidetree_js.Ledger.{Transaction}
use sidetree_js.Ledger.AnchoredData.{AnchoredData, deserialize}
use sidetree_js.Ledger.Fee.{verify_transaction_fee_and_throw_on_error}
use sidetree_js.Files.CoreIndex.{CoreIndexFile}
use sidetree_js.Files.Proofs.{CoreProofFile, ProvisionalProofFile}
use sidetree_js.Files.Provisional.{ProvisionalIndexFile}
use sidetree_js.Transactions.Download.{
  Network, download_and_verify_core_index_file, download_and_verify_core_proof_file,
  download_and_verify_provisional_index_file, download_and_verify_provisional_proof_file,
  download_and_verify_chunk_file,
}
use sidetree_js.Transactions.Compose.{compose_anchored_operation_models}

pub record CoreFiles : Type 0 where
  pub anchored_data : AnchoredData
  pub core_index_file : CoreIndexFile
  pub core_proof_file : Option CoreProofFile

pub record ProvisionalFiles : Type 0 where
  pub provisional_index_file : Option ProvisionalIndexFile
  pub provisional_proof_file : Option ProvisionalProofFile
  pub chunk_file : Option (List Delta)

-- the files where there was an error
abbrev pub no_files : ProvisionalFiles
no_files = record {
  provisional_index_file = none;
  provisional_proof_file = none;
  chunk_file = none;
}

-- A missing fee is compared as `NaN`, which no amount is less than, like 0.
abbrev pub fee_or_zero : Option ℕ → ℕ
fee_or_zero none = 0
fee_or_zero (some fee) = fee

-- `catch` of the core files: is the transaction processed completely?
unfoldable pub is_completed_after_core_error : Failure → Bool
is_completed_after_core_error (sidetree cas_file_not_found) = true
is_completed_after_core_error (sidetree cas_not_reachable) = false
is_completed_after_core_error (sidetree batch_scheduler_write_unexpected_error) = false
is_completed_after_core_error (sidetree _) = true
is_completed_after_core_error unexpected = false

-- `catch` of the provisional files: `retryNeeded`
unfoldable pub is_retry_needed : Failure → Bool
is_retry_needed (sidetree cas_not_reachable) = true
is_retry_needed (sidetree cas_file_not_found) = true
is_retry_needed (sidetree cas_file_not_a_file) = true
is_retry_needed (sidetree _) = false
is_retry_needed unexpected = true

module _ (network : Network) where
  -- the first `try`
  unfoldable pub download_core_files : Transaction → Result CoreFiles
  download_core_files transaction = do
    anchored_data ← deserialize transaction.anchor_string
    verify_transaction_fee_and_throw_on_error transaction.transaction_fee_paid
        anchored_data.number_of_operations (fee_or_zero transaction.normalized_transaction_fee)
    core_index_file ←
        download_and_verify_core_index_file network transaction anchored_data.core_index_file_uri
          anchored_data.number_of_operations
    core_proof_file ← download_and_verify_core_proof_file network core_index_file
    ok (record {
      anchored_data = anchored_data;
      core_index_file = core_index_file;
      core_proof_file = core_proof_file;
    })

  -- the second `try`
  unfoldable pub download_provisional_files : CoreFiles → Result ProvisionalFiles
  download_provisional_files core = do
    provisional_index_file ←
        download_and_verify_provisional_index_file network core.core_index_file
          core.anchored_data.number_of_operations
    provisional_proof_file ←
        download_and_verify_provisional_proof_file network provisional_index_file
    chunk_file ← download_and_verify_chunk_file network core.core_index_file provisional_index_file
    ok (record {
      provisional_index_file = provisional_index_file;
      provisional_proof_file = provisional_proof_file;
      chunk_file = chunk_file;
    })

  -- the files and `retryNeeded` after the second `try` and its `catch`
  unfoldable pub provisional_files_or_none : Result ProvisionalFiles → ProvisionalFiles × Bool
  provisional_files_or_none (ok provisional) = (provisional, false)
  provisional_files_or_none (err e) = (no_files, is_retry_needed e)

  module _ {S : Type 0} (insert_or_replace : S → List AnchoredOperation → Result S) where
    -- from the core files on: the store, and whether the transaction is processed completely
    unfoldable pub store_operations :
        Transaction → S → CoreFiles → ProvisionalFiles × Bool → Result (S × Bool)
    store_operations transaction store core (provisional, retry_needed) = do
      operations ←
          compose_anchored_operation_models network.files.stringify transaction core.core_index_file
            provisional.provisional_index_file core.core_proof_file
            provisional.provisional_proof_file provisional.chunk_file
      store' ← insert_or_replace store operations
      ok (store', not retry_needed)

    unfoldable pub process_transaction : Transaction → S → Result (S × Bool)
    process_transaction transaction store = elim (download_core_files transaction) [
      | err e ↦ ok (store, is_completed_after_core_error e)
      | ok core ↦
          store_operations transaction store core
            (provisional_files_or_none (download_provisional_files core))
    ]
