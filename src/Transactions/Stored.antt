-- ===== src/Transactions/Stored.antt =====
-- What the processing of a transaction puts in the store of operations.
use mathlib.Core.Path.{subst}
use sidetree_js.Prelude.{
  ℕ, ◌+◌, ◌-◌, ◌≤◌, ◌≡◌, refl, sym, ap, ◌∙◌, ◌⊎◌, inl, inr, Bool, false, not, Option, List, [], ◌∷◌,
  ◌++◌, map, arith, ltb, Option-cases, length, length-append,
}
use sidetree_js.Prelude.Text.{Text, member, Distinct}
use sidetree_js.Errors.{Result, ok, err, >>=-eq-ok, Result-cases, ok-injective, throw_if-eq-ok}
use sidetree_js.Parameters.{
  max_operations_per_batch, max_core_index_file_size_in_bytes,
  max_provisional_index_file_size_in_bytes,
}
use sidetree_js.Arrays.{are_mutually_exclusive}
use sidetree_js.Arrays.Duplicates.{Apart, Apart-tail, Apart-head, are_mutually_exclusive_iff}
use sidetree_js.Operation.{AnchoredOperation}
use sidetree_js.Ledger.{Transaction}
use sidetree_js.Ledger.AnchoredData.{AnchoredData, deserialize}
use sidetree_js.Ledger.Fee.{verify_transaction_fee_and_throw_on_error}
use sidetree_js.Ledger.Lock.{verify_lock_amount_and_throw_on_error}
use sidetree_js.Files.CoreIndex.{CoreIndexFile, parse_core_index}
use sidetree_js.Files.Provisional.{ProvisionalIndexFile, parse_provisional_index}
use sidetree_js.Files.Suffixes.{
  IsCoreIndex, parse_core_index-IsCoreIndex, parse_provisional_index-IsProvisionalIndex,
}
use sidetree_js.Transactions.Download.{
  Network, lock_of, download_file_from_cas, download_and_verify_core_index_file,
  download_and_verify_core_proof_file, download_provisional_index_file,
  download_and_verify_provisional_index_file, download_and_verify_provisional_proof_file,
  download_and_verify_chunk_file,
}
use sidetree_js.Transactions.Compose.{compose_anchored_operation_models}
use sidetree_js.Transactions.Runs.{did_of, IsRun, dids_of_run, length_of_run}
use sidetree_js.Transactions.Composition.{update_suffixes, compose_anchored_operation_models-IsRun}
use sidetree_js.Transactions.{
  CoreFiles, ProvisionalFiles, fee_or_zero, download_core_files, download_provisional_files,
  provisional_files_or_none, store_operations, process_transaction,
}

member-append :
    (t : Text) (xs ys : List Text)
    → member t xs ≡ false
    → member t ys ≡ false
    → member t (xs ++ ys) ≡ false
unfolding member
member-append t [] ys hx hy = hy
member-append t (x ∷ xs) ys hx hy = ground (arith, member-append t xs ys)

Distinct-append :
    (xs ys : List Text) → Distinct xs → Distinct ys → Apart xs ys → Distinct (xs ++ ys)
Distinct-append [] ys dx dy apart = dy
Distinct-append (x ∷ xs) ys (new, dx) dy apart = (
  member-append x xs ys new (Apart-head x xs ys apart),
  Distinct-append xs ys dx dy (Apart-tail x xs ys apart),
)

module _ (network : Network) where
  -- the DID suffixes of a batch against what was paid for
  record IsPaidCore (paid : ℕ) (core : CoreIndexFile) : Type 0 where
    within_batch : paid ≤ max_operations_per_batch
    within_paid : length core.did_unique_suffixes ≤ paid
    valid : IsCoreIndex core

  core_index-IsPaidCore :
      (transaction : Transaction) (uri : Text) (paid : ℕ) (core : CoreIndexFile)
      → download_and_verify_core_index_file network transaction uri paid ≡ ok core
      → IsPaidCore paid core
  unfolding download_and_verify_core_index_file
  core_index-IsPaidCore transaction uri paid core h =
      let (within, h1) = throw_if-eq-ok (ltb max_operations_per_batch paid) _ _ h in
      let (buffer, downloaded, h2) =
        >>=-eq-ok (download_file_from_cas network uri max_core_index_file_size_in_bytes) _ h1 in
      let (file, parsed, h3) =
        >>=-eq-ok (parse_core_index network.lib network.node network.files buffer) _ h2 in
      let (few, h4) = throw_if-eq-ok (ltb paid (length file.did_unique_suffixes)) _ _ h3 in
      let (lock, is_lock, h5) =
        >>=-eq-ok (lock_of network.get_value_time_lock file.model.writer_lock_id) _ h4 in
      let (u, locked, h6) =
        >>=-eq-ok
          (verify_lock_amount_and_throw_on_error network.get_version_metadata lock paid
            transaction.transaction_time transaction.writer)
          _ h5 in
      subst (IsPaidCore paid) (ok-injective h6) (record {
        within_batch = ground arith;
        within_paid = ground arith;
        valid =
            parse_core_index-IsCoreIndex network.lib network.node network.files buffer file parsed;
      })

  -- the suffixes of the updates beside those of the core index file
  record IsPaidUpdate (paid : ℕ) (core : CoreIndexFile) (updates : List Text) : Type 0 where
    within_paid : length core.did_unique_suffixes + length updates ≤ paid
    distinct : Distinct updates
    apart : Apart core.did_unique_suffixes updates

  no_updates-IsPaidUpdate :
      {paid : ℕ} {core : CoreIndexFile} → IsPaidCore paid core → IsPaidUpdate paid core []
  no_updates-IsPaidUpdate r = record {
    within_paid = omega (arith, r.within_paid);
    distinct = tt;
    apart = tt;
  }

  provisional-IsPaidUpdate :
      (core : CoreIndexFile) (paid : ℕ) (uri : Text) (file : ProvisionalIndexFile)
      → IsPaidCore paid core
      → download_provisional_index_file network core paid uri ≡ ok file
      → IsPaidUpdate paid core file.did_unique_suffixes
  unfolding download_provisional_index_file
  provisional-IsPaidUpdate core paid uri file r h =
      let (buffer, downloaded, h1) =
        >>=-eq-ok (download_file_from_cas network uri max_provisional_index_file_size_in_bytes) _
          h in
      let (f, parsed, h2) =
        >>=-eq-ok (parse_provisional_index network.lib network.node network.files buffer) _ h1 in
      let (few, h3) =
        throw_if-eq-ok (ltb (paid - length core.did_unique_suffixes) (length f.did_unique_suffixes))
          _ _ h2 in
      let (exclusive, h4) =
        throw_if-eq-ok (not (are_mutually_exclusive core.did_unique_suffixes f.did_unique_suffixes))
          _ _ h3 in
      let valid =
        parse_provisional_index-IsProvisionalIndex network.lib network.node network.files buffer f
          parsed in
      let core_paid = r.within_paid in
      subst (λ (f : ProvisionalIndexFile). IsPaidUpdate paid core f.did_unique_suffixes)
        (ok-injective h4)
        (record {
          within_paid = ground arith;
          distinct = valid.distinct;
          apart =
              (are_mutually_exclusive_iff core.did_unique_suffixes f.did_unique_suffixes).0
                (ground arith);
        })

  provisional_or_none-IsPaidUpdate :
      (core : CoreIndexFile) (paid : ℕ) (file : Option ProvisionalIndexFile)
      → IsPaidCore paid core
      → download_and_verify_provisional_index_file network core paid ≡ ok file
      → IsPaidUpdate paid core (update_suffixes file)
  unfolding download_and_verify_provisional_index_file download_provisional_index_file
  provisional_or_none-IsPaidUpdate core paid file r h =
      elim (Option-cases core.model.provisional_index_file_uri) [
        | inl absent ↦
            subst (λ f. IsPaidUpdate paid core (update_suffixes f)) (ok-injective (rw absent at h))
              (no_updates-IsPaidUpdate r)
        | inr (uri, present) ↦
            (let (f, downloaded, h1) =
                >>=-eq-ok (download_provisional_index_file network core paid uri) _
                  (rw present at h) in
              subst (λ f. IsPaidUpdate paid core (update_suffixes f)) (ok-injective h1)
                (provisional-IsPaidUpdate core paid uri f r downloaded))
      ]

  files-IsPaidUpdate :
      (core : CoreFiles) (paid : ℕ)
      → paid ≡ core.anchored_data.number_of_operations
      → IsPaidCore paid core.core_index_file
      → (result : Result ProvisionalFiles) → download_provisional_files network core ≡ result
      → IsPaidUpdate paid core.core_index_file
          (update_suffixes (provisional_files_or_none network result).0.provisional_index_file)
  unfolding provisional_files_or_none download_provisional_files
  files-IsPaidUpdate core paid same r (err e) h = no_updates-IsPaidUpdate r
  files-IsPaidUpdate core paid same r (ok provisional) h =
      let core_index = core.core_index_file in
      let number = core.anchored_data.number_of_operations in
      let (file, downloaded, h1) =
        >>=-eq-ok (download_and_verify_provisional_index_file network core_index number) _ h in
      let (proof_file, proved, h2) =
        >>=-eq-ok (download_and_verify_provisional_proof_file network file) _ h1 in
      let (chunk_file, chunked, h3) =
        >>=-eq-ok (download_and_verify_chunk_file network core_index file) _ h2 in
      subst
        (λ (p : ProvisionalFiles).
          IsPaidUpdate paid core_index (update_suffixes p.provisional_index_file))
        (ok-injective h3)
        (provisional_or_none-IsPaidUpdate core_index paid file r
          (ap (download_and_verify_provisional_index_file network core_index) same ∙ downloaded))

  core_files-IsPaidCore :
      (transaction : Transaction) (core : CoreFiles)
      → download_core_files network transaction ≡ ok core
      → (deserialize transaction.anchor_string ≡ ok core.anchored_data)
        × IsPaidCore core.anchored_data.number_of_operations core.core_index_file
  unfolding download_core_files
  core_files-IsPaidCore transaction core h =
      let (anchor, is_anchor, h1) = >>=-eq-ok (deserialize transaction.anchor_string) _ h in
      let (u, is_paid, h2) =
        >>=-eq-ok
          (verify_transaction_fee_and_throw_on_error transaction.transaction_fee_paid
            anchor.number_of_operations (fee_or_zero transaction.normalized_transaction_fee))
          _ h1 in
      let (index, downloaded, h3) =
        >>=-eq-ok
          (download_and_verify_core_index_file network transaction anchor.core_index_file_uri
            anchor.number_of_operations)
          _ h2 in
      let (proof_file, proved, h4) =
        >>=-eq-ok (download_and_verify_core_proof_file network index) _ h3 in
      subst
        (λ (core : CoreFiles).
          (deserialize transaction.anchor_string ≡ ok core.anchored_data)
          × IsPaidCore core.anchored_data.number_of_operations core.core_index_file)
        (ok-injective h4)
        (
          is_anchor,
          core_index-IsPaidCore transaction anchor.core_index_file_uri anchor.number_of_operations
              index downloaded,
        )

  pub core_files-IsCoreIndex :
      (transaction : Transaction) (core : CoreFiles)
      → download_core_files network transaction ≡ ok core
      → IsCoreIndex core.core_index_file
  core_files-IsCoreIndex transaction core h = (core_files-IsPaidCore transaction core h).1.valid

  module _ {S : Type 0} (insert_or_replace : S → List AnchoredOperation → Result S)
      (transaction : Transaction) (store : S) where
    -- What was stored, and what the anchor string paid for.
    pub record HasStored (store' : S) : Type 0 where
      pub operations : List AnchoredOperation
      pub anchored_data : AnchoredData
      pub is_anchored : deserialize transaction.anchor_string ≡ ok anchored_data
      pub within_paid : length operations ≤ anchored_data.number_of_operations
      pub within_batch : length operations ≤ max_operations_per_batch
      pub distinct : Distinct (map did_of operations)
      pub is_run : IsRun transaction 0 (map did_of operations) operations
      pub inserted : insert_or_replace store operations ≡ ok store'

    stored :
        (core : CoreFiles) (store' : S) (completed : Bool)
        → download_core_files network transaction ≡ ok core
        → store_operations network insert_or_replace transaction store core
            (provisional_files_or_none network (download_provisional_files network core))
          ≡ ok (store', completed)
        → HasStored store'
    unfolding store_operations
    stored core store' completed downloaded h =
        let files = provisional_files_or_none network (download_provisional_files network core) in
        let provisional = files.0 in
        let index = core.core_index_file in
        let (operations, composed, h1) =
          >>=-eq-ok
            (compose_anchored_operation_models network.files.stringify transaction index
              provisional.provisional_index_file core.core_proof_file
              provisional.provisional_proof_file provisional.chunk_file)
            _ h in
        let (store1, inserted, h2) = >>=-eq-ok (insert_or_replace store operations) _ h1 in
        let (is_anchored, paid) = core_files-IsPaidCore transaction core downloaded in
        let updates = update_suffixes provisional.provisional_index_file in
        let paid_update =
          files-IsPaidUpdate core core.anchored_data.number_of_operations refl paid
            (download_provisional_files network core) refl in
        let run =
          compose_anchored_operation_models-IsRun network.files.stringify transaction index
            provisional.provisional_index_file core.core_proof_file
            provisional.provisional_proof_file provisional.chunk_file operations paid.valid
            composed in
        let all = index.did_unique_suffixes ++ updates in
        let dids = dids_of_run transaction 0 all operations run in
        let count = length_of_run transaction 0 all operations run in
        let sum = length-append index.did_unique_suffixes updates in
        let bound = paid_update.within_paid in
        record {
          operations = operations;
          anchored_data = core.anchored_data;
          is_anchored = is_anchored;
          within_paid = omega arith;
          within_batch = omega (arith, paid.within_batch);
          distinct = subst Distinct (sym dids) (
              Distinct-append index.did_unique_suffixes updates paid.valid.distinct
                paid_update.distinct paid_update.apart);
          is_run = subst (λ ss. IsRun transaction 0 ss operations) (sym dids) run;
          inserted = inserted ∙ ap (λ (p : S × Bool). ok p.0) (ok-injective h2);
        }

    -- Where the processing of a transaction returns, the store is as before, or one list of
    -- operations was put in it: no more than the anchor string paid for and than a batch may hold,
    -- no two of one DID, with the number and the time of the transaction and the indices from 0.
    pub process_transaction-HasStored :
        (store' : S) (completed : Bool)
        → process_transaction network insert_or_replace transaction store ≡ ok (store', completed)
        → (store' ≡ store) ⊎ HasStored store'
    unfolding process_transaction
    process_transaction-HasStored store' completed h =
        elim (Result-cases (download_core_files network transaction)) [
          | inl (e, thrown) ↦ inl (
              sym
                (ap (λ (p : S × Bool). p.0) (ok-injective (rw (thrown, process_transaction) at h))))
          | inr (core, downloaded) ↦
              inr (
                stored core store' completed downloaded (rw (downloaded, process_transaction) at h))
        ]
