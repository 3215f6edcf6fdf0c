-- ===== src/Transactions/Completion.antt =====
-- When the processing of a transaction returns, and when it asks for a retry.
use mathlib.Core.Path.{subst}
use sidetree_js.Prelude.{
  ℕ, ◌+◌, ◌-◌, ◌<◌, ◌≡◌, refl, ◌≢◌, ◌↔◌, ◌⊎◌, inl, inr, Bool, true, false, not, Option, none, some,
  List, ◌++◌, arith, ltb, Option-cases, length,
}
use sidetree_js.Prelude.Text.{Text}
use sidetree_js.Errors.{
  Failure, sidetree, unexpected, Result, ok, err, >>=-eq-ok, ok-injective, throw_if-eq-ok,
}
use sidetree_js.Errors.{cas_file_not_found, cas_file_not_a_file, cas_not_reachable}
use sidetree_js.Parameters.{max_provisional_index_file_size_in_bytes}
use sidetree_js.Arrays.{are_mutually_exclusive}
use sidetree_js.Operation.{AnchoredOperation}
use sidetree_js.Ledger.{Transaction}
use sidetree_js.Ledger.AnchoredData.{deserialize}
use sidetree_js.Ledger.Fee.{verify_transaction_fee_and_throw_on_error}
use sidetree_js.Files.CoreIndex.{CoreIndexFile}
use sidetree_js.Files.Proofs.{CoreProofFile, ProvisionalProofFile}
use sidetree_js.Files.Provisional.{ProvisionalIndexFile, parse_provisional_index}
use sidetree_js.Files.Suffixes.{IsProvisionalIndex, parse_provisional_index-IsProvisionalIndex}
use sidetree_js.Transactions.Download.{
  Network, download_file_from_cas, download_core_proof_file, download_and_verify_core_index_file,
  download_and_verify_core_proof_file, download_provisional_index_file,
  download_and_verify_provisional_index_file, download_provisional_proof_file,
  download_and_verify_provisional_proof_file, download_and_verify_chunk_file,
}
use sidetree_js.Transactions.Compose.{compose_anchored_operation_models}
use sidetree_js.Transactions.Runs.{IsRun}
use sidetree_js.Transactions.Composition.{
  update_suffixes, compose_anchored_operation_models-IsRun, compose_anchored_operation_models-mixed,
}
use sidetree_js.Transactions.Returns.{
  Returns, IsUnmixed, HasUpdateProofs, compose_anchored_operation_models-Returns,
}
use sidetree_js.Transactions.Stored.{core_files-IsCoreIndex}
use sidetree_js.Transactions.{
  CoreFiles, ProvisionalFiles, fee_or_zero, no_files, is_retry_needed, download_core_files,
  download_provisional_files, provisional_files_or_none, store_operations, process_transaction,
}

-- An error that another attempt may not meet: an unexpected one, or of the network.
abbrev pub IsTransient : Failure → Type 0
IsTransient e = (e ≡ unexpected) ⊎ (e ≡ sidetree cas_not_reachable)

-- Which errors of the provisional files are retried.
abbrev pub IsRetriedProvisionalError : Failure → Type 0
IsRetriedProvisionalError e =
    IsTransient e ⊎ ((e ≡ sidetree cas_file_not_found) ⊎ (e ≡ sidetree cas_file_not_a_file))

retried_provisional_iff : (e : Failure) → (is_retry_needed e ≡ true) ↔ IsRetriedProvisionalError e
unfolding is_retry_needed
retried_provisional_iff e = (to e, from)
  where
    to : (e : Failure) → is_retry_needed e ≡ true → IsRetriedProvisionalError e
    to unexpected h = inl (inl refl)
    to (sidetree cas_not_reachable) h = inl (inr refl)
    to (sidetree cas_file_not_found) h = inr (inl refl)
    to (sidetree cas_file_not_a_file) h = inr (inr refl)
    to (sidetree _) h = cc

    from : IsRetriedProvisionalError e → is_retry_needed e ≡ true
    from (inl (inl h)) = rw h refl
    from (inl (inr h)) = rw h refl
    from (inr (inl h)) = rw h refl
    from (inr (inr h)) = rw h refl

module _ (network : Network) where
  core_proof-present :
      (core : CoreIndexFile) (o : Option CoreProofFile)
      → download_and_verify_core_proof_file network core ≡ ok o
      → o ≡ none
      → core.model.core_proof_file_uri ≡ none
  unfolding download_and_verify_core_proof_file
  core_proof-present core o h absent = elim (Option-cases core.model.core_proof_file_uri) [
    | inl e ↦ e
    | inr (uri, present) ↦
        (let (file, downloaded, h1) =
            >>=-eq-ok (download_core_proof_file network core uri) _
              (rw (present, download_and_verify_core_proof_file) at h) in
          absurd (let e = ok-injective h1 in cc (e, absent)))
  ]

  update_proofs-present :
      (provisional : ProvisionalIndexFile) (o : Option ProvisionalProofFile)
      → download_and_verify_provisional_proof_file network (some provisional) ≡ ok o
      → o ≡ none
      → provisional.provisional_proof_file_uri ≡ none
  unfolding download_and_verify_provisional_proof_file
  update_proofs-present provisional o h absent =
      elim (Option-cases provisional.provisional_proof_file_uri) [
        | inl e ↦ e
        | inr (uri, present) ↦
            (let (file, downloaded, h1) =
                >>=-eq-ok (download_provisional_proof_file network provisional uri) _
                  (rw (present, download_and_verify_provisional_proof_file) at h) in
              absurd (let e = ok-injective h1 in cc (e, absent)))
      ]

  downloaded-IsProvisionalIndex :
      (core : CoreIndexFile) (paid : ℕ) (uri : Text) (file : ProvisionalIndexFile)
      → download_provisional_index_file network core paid uri ≡ ok file
      → IsProvisionalIndex file
  unfolding download_provisional_index_file
  downloaded-IsProvisionalIndex core paid uri file h =
      let (buffer, downloaded, h1) =
        >>=-eq-ok (download_file_from_cas network uri max_provisional_index_file_size_in_bytes) _
          h in
      let (f, parsed, h2) =
        >>=-eq-ok (parse_provisional_index network.lib network.node network.files buffer) _ h1 in
      let (few, h3) =
        throw_if-eq-ok (ltb (paid - length core.did_unique_suffixes) (length f.did_unique_suffixes))
          _ _ h2 in
      let (exclusive, h4) =
        throw_if-eq-ok (not (are_mutually_exclusive core.did_unique_suffixes f.did_unique_suffixes))
          _ _ h3 in
      subst IsProvisionalIndex (ok-injective h4) (
        parse_provisional_index-IsProvisionalIndex network.lib network.node network.files buffer f
          parsed)

  verified-IsProvisionalIndex :
      (core : CoreIndexFile) (paid : ℕ) (file : ProvisionalIndexFile)
      → download_and_verify_provisional_index_file network core paid ≡ ok (some file)
      → IsProvisionalIndex file
  unfolding download_and_verify_provisional_index_file download_provisional_index_file
  verified-IsProvisionalIndex core paid file h =
      elim (Option-cases core.model.provisional_index_file_uri) [
        | inl absent ↦ absurd (let e = ok-injective (rw absent at h) in cc (e))
        | inr (uri, present) ↦
            (let (f, downloaded, h1) =
                >>=-eq-ok (download_provisional_index_file network core paid uri) _
                  (rw present at h) in
              let e = ok-injective h1 in
              subst IsProvisionalIndex (cc (e))
                (downloaded-IsProvisionalIndex core paid uri f downloaded))
      ]

  proved :
      (core : CoreIndexFile) (paid : ℕ) (file : Option ProvisionalIndexFile)
      (proof_file : Option ProvisionalProofFile)
      → download_and_verify_provisional_index_file network core paid ≡ ok file
      → download_and_verify_provisional_proof_file network file ≡ ok proof_file
      → HasUpdateProofs file proof_file
  proved core paid none proof_file h h' = tt
  proved core paid (some provisional) proof_file h h' =
      let is_index = verified-IsProvisionalIndex core paid provisional h in
      (is_index, λ e. is_index.proof_uri (update_proofs-present provisional proof_file h' e))

  files-HasUpdateProofs :
      (core : CoreFiles) (result : Result ProvisionalFiles)
      → download_provisional_files network core ≡ result
      → let files = (provisional_files_or_none network result).0 in
        HasUpdateProofs files.provisional_index_file files.provisional_proof_file
  unfolding provisional_files_or_none download_provisional_files
  files-HasUpdateProofs core (err e) h = tt
  files-HasUpdateProofs core (ok provisional) h =
      let index = core.core_index_file in
      let paid = core.anchored_data.number_of_operations in
      let (file, downloaded, h1) =
        >>=-eq-ok (download_and_verify_provisional_index_file network index paid) _ h in
      let (proof_file, proofs, h2) =
        >>=-eq-ok (download_and_verify_provisional_proof_file network file) _ h1 in
      let (chunk_file, chunked, h3) =
        >>=-eq-ok (download_and_verify_chunk_file network index file) _ h2 in
      subst
        (λ (p : ProvisionalFiles).
          HasUpdateProofs p.provisional_index_file p.provisional_proof_file)
        (ok-injective h3) (proved index paid file proof_file downloaded proofs)

  retried :
      (core : CoreFiles) (result : Result ProvisionalFiles)
      → download_provisional_files network core ≡ result
      → (not (provisional_files_or_none network result).1 ≡ false) ↔ (
          (e : Failure) × (download_provisional_files network core ≡ err e)
          × IsRetriedProvisionalError e)
  unfolding provisional_files_or_none
  retried core (ok files) h =
      (λ completed. absurd (cc (completed)), λ (e, h', r). absurd (cc (h, h')))
  retried core (err e) h =
      let (to, from) = retried_provisional_iff e in
      (
        λ completed. (e, h, to (ground arith)),
        λ (e', h', r).
            (let needed = from (subst IsRetriedProvisionalError (cc (h, h')) r) in rw needed refl),
      )

  downloaded_or_none :
      (result : Result ProvisionalFiles)
      → (result ≡ ok (provisional_files_or_none network result).0)
        ⊎ ((e : Failure) × (result ≡ err e)
            × ((provisional_files_or_none network result).0 ≡ no_files))
  unfolding provisional_files_or_none
  downloaded_or_none (ok files) = inl refl
  downloaded_or_none (err e) = inr (e, refl, refl)

  core_proof-present_in :
      (transaction : Transaction) (core : CoreFiles)
      → download_core_files network transaction ≡ ok core
      → core.core_proof_file ≡ none
      → core.core_index_file.model.core_proof_file_uri ≡ none
  unfolding download_core_files
  core_proof-present_in transaction core h =
      let (anchor, is_anchor, h1) = >>=-eq-ok (deserialize transaction.anchor_string) _ h in
      let (u, is_paid, h2) =
        >>=-eq-ok
          (verify_transaction_fee_and_throw_on_error transaction.transaction_fee_paid
            anchor.number_of_operations (fee_or_zero transaction.normalized_transaction_fee))
          _ h1 in
      let (index, downloaded, h3) =
        >>=-eq-ok
          (download_and_verify_core_index_file network transaction anchor.core_index_file_uri
            anchor.number_of_operations)
          _ h2 in
      let (proof_file, verified, h4) =
        >>=-eq-ok (download_and_verify_core_proof_file network index) _ h3 in
      subst
        (λ (core : CoreFiles).
          core.core_proof_file ≡ none → core.core_index_file.model.core_proof_file_uri ≡ none)
        (ok-injective h4) (core_proof-present index proof_file verified)

  module _ {S : Type 0} (insert_or_replace : S → List AnchoredOperation → Result S)
      (transaction : Transaction) (store : S) where
    -- What becomes of a transaction with its core files: the provisional files are those downloaded,
    -- or none after an error; the operations stored are those composed of the files, one for each
    -- DID suffix of the core index file and then of the provisional index file, numbered in that
    -- order; and it is to be processed again exactly after an error that is retried.
    pub record IsProcessed (core : CoreFiles) : Type 0 where
      pub files : ProvisionalFiles
      pub operations : List AnchoredOperation
      pub store' : S
      pub completed : Bool
      pub is_downloaded :
          (download_provisional_files network core ≡ ok files)
          ⊎ ((e : Failure) × (download_provisional_files network core ≡ err e) × (files ≡ no_files))
      pub is_composed :
          compose_anchored_operation_models network.files.stringify transaction core.core_index_file
            files.provisional_index_file core.core_proof_file files.provisional_proof_file
            files.chunk_file
          ≡ ok operations
      pub is_run :
          IsRun transaction 0
            (core.core_index_file.did_unique_suffixes
              ++ update_suffixes files.provisional_index_file)
            operations
      pub is_stored : insert_or_replace store operations ≡ ok store'
      pub returns :
          process_transaction network insert_or_replace transaction store ≡ ok (store', completed)
      pub is_retried : (completed ≡ false) ↔ (
          (e : Failure) × (download_provisional_files network core ≡ err e)
          × IsRetriedProvisionalError e)

    -- With the core files of a batch that is not mixed and a store that takes all operations, the
    -- processing returns. It has given to the store the operations composed of the core files and of
    -- the provisional files, of none of these where their download failed: one operation for each DID
    -- suffix of the core index file, then of the provisional index file, numbered in that order. The
    -- transaction is to be processed again exactly where the provisional files failed by an
    -- unexpected error or because the storage was not reachable, did not find a file or found no
    -- file.
    pub process_transaction-unmixed :
        (core : CoreFiles)
        → download_core_files network transaction ≡ ok core
        → IsUnmixed core.core_index_file
        → ((operations : List AnchoredOperation) → Returns (insert_or_replace store operations))
        → IsProcessed core
    unfolding process_transaction store_operations
    process_transaction-unmixed core h unmixed takes =
        let result = download_provisional_files network core in
        let files = provisional_files_or_none network result in
        let provisional = files.0 in
        let index = core.core_index_file in
        let valid = core_files-IsCoreIndex network transaction core h in
        let (operations, composed) =
          compose_anchored_operation_models-Returns network.files.stringify transaction index valid
            provisional.provisional_index_file core.core_proof_file
            provisional.provisional_proof_file provisional.chunk_file unmixed
            (λ e. valid.proof_uri (core_proof-present_in transaction core h e))
            (files-HasUpdateProofs core result refl) in
        let (store', inserted) = takes operations in
        record {
          files = provisional;
          operations = operations;
          store' = store';
          completed = not files.1;
          is_downloaded = downloaded_or_none result;
          is_composed = composed;
          is_run =
              compose_anchored_operation_models-IsRun network.files.stringify transaction index
                provisional.provisional_index_file core.core_proof_file
                provisional.provisional_proof_file provisional.chunk_file operations valid composed;
          is_stored = inserted;
          returns =
              rw (h, process_transaction) (rw (composed, store_operations) (rw inserted refl));
          is_retried = retried core result refl;
        }

    -- A transaction whose core index file mixes deactivates with creates or recovers is never
    -- processed: the processing does not return, whatever the other files are.
    pub process_transaction-mixed :
        (core : CoreFiles)
        → download_core_files network transaction ≡ ok core
        → 0 < length core.core_index_file.deactivate_did_suffixes
        → 0
          < length core.core_index_file.create_did_suffixes
            + length core.core_index_file.recover_did_suffixes
        → (result : S × Bool)
        → process_transaction network insert_or_replace transaction store ≢ ok result
    unfolding process_transaction store_operations
    process_transaction-mixed core h some_left mixed result returned =
        let provisional =
          (provisional_files_or_none network (download_provisional_files network core)).0 in
        let index = core.core_index_file in
        let (operations, composed, h1) =
          >>=-eq-ok
            (compose_anchored_operation_models network.files.stringify transaction index
              provisional.provisional_index_file core.core_proof_file
              provisional.provisional_proof_file provisional.chunk_file)
            _ (rw (h, process_transaction) at returned) in
        compose_anchored_operation_models-mixed network.files.stringify transaction index
          provisional.provisional_index_file core.core_proof_file provisional.provisional_proof_file
          provisional.chunk_file (core_files-IsCoreIndex network transaction core h) some_left mixed
          operations composed
