-- ===== src/Transactions/Compose.antt =====
-- packages/core/src/TransactionProcessor.ts: the operations of a batch, composed from its files.
use sidetree_js.Prelude.{
  ℕ, suc, ◌+◌, Option, none, some, List, [], ◌∷◌, ◌++◌, map, length, get_elem?, take, drop,
}
use sidetree_js.Prelude.Text.{Text, codes}
use sidetree_js.Errors.{unexpected, Result, ok, err, ◌>>=◌}
use sidetree_js.Json.{Json, Fields, str, obj, end, field}
use sidetree_js.Operation.{
  OperationType, create, recover, deactivate, update, Delta, AnchoredOperation,
}
use sidetree_js.Operation.Parsing.{to_compact_jws}
use sidetree_js.Ledger.{Transaction}
use sidetree_js.Files.CoreIndex.{CoreIndexFile}
use sidetree_js.Files.Proofs.{CoreProofFile, ProvisionalProofFile}
use sidetree_js.Files.Provisional.{ProvisionalIndexFile}

-- a property of an object literal, which `JSON.stringify` leaves out where it is `undefined`
unfoldable pub optional_field : Text → Option Json → Fields → Fields
optional_field name none fields = fields
optional_field name (some value) fields = field name value fields

-- `array[i].name`, which throws past the end
unfoldable pub item_or_throw {ℓ} : {A : Type ℓ} → Option A → Result A
item_or_throw none = err unexpected
item_or_throw (some item) = ok item

-- `deltas?.[i]`
unfoldable pub delta_at : Option (List Delta) → ℕ → Option Json
delta_at none i = none
delta_at (some deltas) i = elim (get_elem? deltas i) [
  | none ↦ none
  | some delta ↦ some delta.content
]

-- `proofs[i]`
unfoldable pub proof_at : List Text → ℕ → Option Json
proof_at proofs i = elim (get_elem? proofs i) [ none ↦ none | some proof ↦ some (str proof) ]

-- `deltas.slice(start, end)`, where there are any
unfoldable pub slice : ℕ → ℕ → Option (List Delta) → Option (List Delta)
slice start count none = none
slice start count (some deltas) = some (take count (drop start deltas))

-- `deltas.slice(start)`
unfoldable pub slice_from : ℕ → Option (List Delta) → Option (List Delta)
slice_from start none = none
slice_from start (some deltas) = some (drop start deltas)

-- `for (let i = 0; i < suffixes.length; i++)`, from `i` on
unfoldable pub compose_from :
    (ℕ → Text → Result AnchoredOperation) → ℕ → List Text → Result (List AnchoredOperation)
compose_from compose i [] = ok []
compose_from compose i (suffix ∷ suffixes) = do
  operation ← compose i suffix
  operations ← compose_from compose (suc i) suffixes
  ok (operation ∷ operations)

module _ (stringify : Json → Text) (transaction : Transaction) (core : CoreIndexFile) where
  abbrev pub anchored : OperationType → Text → ℕ → Json → AnchoredOperation
  anchored type did_unique_suffix operation_index request = record {
    operation_buffer = stringify request;
    did_unique_suffix = did_unique_suffix;
    type = type;
    transaction_time = transaction.transaction_time;
    transaction_number = transaction.transaction_number;
    operation_index = operation_index;
  }

  unfoldable pub compose_create_at : Option (List Delta) → ℕ → Text → Result AnchoredOperation
  compose_create_at create_deltas i suffix = do
    suffix_data ← item_or_throw (get_elem? core.model.create_suffix_data i)
    ok (
        anchored create suffix i (
          obj (
            field (codes "type") (str (codes "create")) (
              field (codes "suffixData") suffix_data
                (optional_field (codes "delta") (delta_at create_deltas i) end)))))

  unfoldable pub compose_anchored_create_operation_models :
      Option (List Delta) → Result (List AnchoredOperation)
  compose_anchored_create_operation_models chunk_file =
      compose_from (compose_create_at (slice 0 (length core.create_did_suffixes) chunk_file)) 0
        core.create_did_suffixes

  -- a request of the other types: `signedData` and `delta` may be `undefined`
  abbrev pub request : Text → Text → Text → Option Json → Option Json → Json
  request type did_suffix reveal_value signed_data delta = obj (
      field (codes "type") (str type) (
        field (codes "didSuffix") (str did_suffix) (
          field (codes "revealValue") (str reveal_value) (
            optional_field (codes "signedData") signed_data
              (optional_field (codes "delta") delta end)))))

  unfoldable pub compose_recover_at :
      List Text → Option (List Delta) → ℕ → Text → Result AnchoredOperation
  compose_recover_at recover_proofs recover_deltas i suffix = do
    reference ← item_or_throw (get_elem? core.model.recover_references i)
    ok (
        anchored recover suffix (length core.create_did_suffixes + i) (
          request (codes "recover") suffix reference.reveal_value (proof_at recover_proofs i)
            (delta_at recover_deltas i)))

  unfoldable pub compose_recovers :
      List Text → Option CoreProofFile → Option (List Delta) → Result (List AnchoredOperation)
  compose_recovers [] core_proof_file chunk_file = ok []
  compose_recovers (suffix ∷ suffixes) core_proof_file chunk_file = do
    proofs ← item_or_throw core_proof_file
    compose_from
        (compose_recover_at (map to_compact_jws proofs.recover_proofs)
          (slice (length core.create_did_suffixes) (length core.recover_did_suffixes) chunk_file))
        0 (suffix ∷ suffixes)

  unfoldable pub compose_anchored_recover_operation_models :
      Option CoreProofFile → Option (List Delta) → Result (List AnchoredOperation)
  compose_anchored_recover_operation_models = compose_recovers core.recover_did_suffixes

  unfoldable pub compose_deactivate_at : List Text → ℕ → Text → Result AnchoredOperation
  compose_deactivate_at deactivate_proofs i suffix = do
    reference ← item_or_throw (get_elem? core.model.deactivate_references i)
    ok (
        anchored deactivate suffix
          (length core.create_did_suffixes + length core.recover_did_suffixes + i)
          (request (codes "deactivate") suffix reference.reveal_value (proof_at deactivate_proofs i)
            none))

  -- The loop is over the suffixes of the whole core index file.
  unfoldable pub compose_deactivates :
      List Text → Option CoreProofFile → Result (List AnchoredOperation)
  compose_deactivates [] core_proof_file = ok []
  compose_deactivates (suffix ∷ suffixes) core_proof_file = do
    proofs ← item_or_throw core_proof_file
    compose_from (compose_deactivate_at (map to_compact_jws proofs.deactivate_proofs)) 0
        core.did_unique_suffixes

  unfoldable pub compose_anchored_deactivate_operation_models :
      Option CoreProofFile → Result (List AnchoredOperation)
  compose_anchored_deactivate_operation_models = compose_deactivates core.deactivate_did_suffixes

  unfoldable pub compose_update_at :
      ProvisionalIndexFile → List Text → Option (List Delta) → ℕ → Text → Result AnchoredOperation
  compose_update_at provisional update_proofs update_deltas i suffix = do
    reference ← item_or_throw (get_elem? provisional.update_references i)
    ok (
        anchored update suffix (length core.did_unique_suffixes + i) (
          request (codes "update") suffix reference.reveal_value (proof_at update_proofs i)
            (delta_at update_deltas i)))

  unfoldable pub compose_updates :
      ProvisionalIndexFile
      → List Text
      → Option ProvisionalProofFile
      → Option (List Delta)
      → Result (List AnchoredOperation)
  compose_updates provisional [] provisional_proof_file chunk_file = ok []
  compose_updates provisional (suffix ∷ suffixes) provisional_proof_file chunk_file = do
    proofs ← item_or_throw provisional_proof_file
    compose_from
        (compose_update_at provisional (map to_compact_jws proofs.update_proofs) (
          slice_from (length core.create_did_suffixes + length core.recover_did_suffixes)
            chunk_file))
        0 (suffix ∷ suffixes)

  unfoldable pub compose_anchored_update_operation_models :
      Option ProvisionalIndexFile
      → Option ProvisionalProofFile
      → Option (List Delta)
      → Result (List AnchoredOperation)
  compose_anchored_update_operation_models none provisional_proof_file chunk_file = ok []
  compose_anchored_update_operation_models (some provisional) provisional_proof_file chunk_file =
      compose_updates provisional provisional.did_unique_suffixes provisional_proof_file chunk_file

  unfoldable pub compose_anchored_operation_models :
      Option ProvisionalIndexFile
      → Option CoreProofFile
      → Option ProvisionalProofFile
      → Option (List Delta)
      → Result (List AnchoredOperation)
  compose_anchored_operation_models provisional core_proof_file provisional_proof_file chunk_file =
      do
        creates ← compose_anchored_create_operation_models chunk_file
        recovers ← compose_anchored_recover_operation_models core_proof_file chunk_file
        deactivates ← compose_anchored_deactivate_operation_models core_proof_file
        updates ←
            compose_anchored_update_operation_models provisional provisional_proof_file chunk_file
        ok (creates ++ recovers ++ deactivates ++ updates)
