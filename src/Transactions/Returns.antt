-- ===== src/Transactions/Returns.antt =====
-- When the processing of a transaction returns: always, but for a batch that mixes deactivates with
-- creates or recovers.
use sidetree_js.Prelude.{
  ℕ, zero, suc, ◌+◌, ◌≤◌, ◌<◌, ◌≡◌, refl, ap, ◌∙◌, ◌⊎◌, inl, inr, Option, none, some, List, [], ◌∷◌,
  ◌++◌, map, arith, length, get_elem?,
}
use sidetree_js.Prelude.Text.{Text}
use sidetree_js.Errors.{Result, ok, err, ◌>>=◌}
use sidetree_js.Json.{Json}
use sidetree_js.Operation.{Delta, AnchoredOperation}
use sidetree_js.Ledger.{Transaction}
use sidetree_js.Files.CoreIndex.{CoreIndexFile, suffix_of}
use sidetree_js.Files.Proofs.{CoreProofFile, ProvisionalProofFile}
use sidetree_js.Files.Provisional.{ProvisionalIndexFile}
use sidetree_js.Files.Suffixes.{IsCoreIndex, IsProvisionalIndex}
use sidetree_js.Transactions.Compose.{
  item_or_throw, compose_from, compose_create_at, compose_anchored_create_operation_models,
  compose_recover_at, compose_recovers, compose_anchored_recover_operation_models,
  compose_deactivate_at, compose_deactivates, compose_anchored_deactivate_operation_models,
  compose_update_at, compose_updates, compose_anchored_update_operation_models,
  compose_anchored_operation_models,
}
use sidetree_js.Transactions.Composition.{length-map}

abbrev pub Returns {ℓ} : {A : Type ℓ} → Result A → Type ℓ
Returns {A = A} result = (a : A) × (result ≡ ok a)

item-Returns :
    {A : Type 0} (xs : List A) (i : ℕ) → i < length xs → Returns (item_or_throw (get_elem? xs i))
unfolding item_or_throw
item-Returns [] i h = absurd (omega (arith, h))
item-Returns (x ∷ xs) zero h = (x, refl)
item-Returns (x ∷ xs) (suc i) h = item-Returns xs i (omega (arith, h))

then-Returns :
    {V W : Type 0} (first : Result V) (next : V → W)
    → Returns first
    → Returns (first >>= λ v. ok (next v))
then-Returns (ok v) next r = (next v, refl)
then-Returns (err e) next (v, h) = absurd (cc (h))

-- A loop that returns at each index below a size returns within it.
compose_from-Returns :
    (compose : ℕ → Text → Result AnchoredOperation) (size : ℕ)
    → ((i : ℕ) (s : Text) → i < size → Returns (compose i s))
    → (i : ℕ) (ss : List Text) → i + length ss ≤ size
    → Returns (compose_from compose i ss)
unfolding compose_from
compose_from-Returns compose size each i [] h = ([], refl)
compose_from-Returns compose size each i (s ∷ ss) h =
    let (x, one) = each i s (omega (arith, h)) in
    let (xs, later) = compose_from-Returns compose size each (suc i) ss (omega (arith, h)) in
    (x ∷ xs, rw (one, later) refl)

-- The batch has no deactivate, or nothing else in its core index file.
abbrev pub IsUnmixed : CoreIndexFile → Type 0
IsUnmixed core =
    (core.deactivate_did_suffixes ≡ []) ⊎ (core.did_unique_suffixes ≡ core.deactivate_did_suffixes)

-- The proofs of the updates are there if there are any.
abbrev pub HasUpdateProofs : Option ProvisionalIndexFile → Option ProvisionalProofFile → Type 0
HasUpdateProofs none proof_file = Unit
HasUpdateProofs (some provisional) proof_file =
    IsProvisionalIndex provisional × (proof_file ≡ none → provisional.did_unique_suffixes ≡ [])

module _ (stringify : Json → Text) (transaction : Transaction) (core : CoreIndexFile)
    (valid : IsCoreIndex core) where
  creates-Returns :
      (chunk_file : Option (List Delta))
      → Returns (compose_anchored_create_operation_models stringify transaction core chunk_file)
  unfolding compose_anchored_create_operation_models compose_create_at
  creates-Returns chunk_file =
      compose_from-Returns _ (length core.model.create_suffix_data)
        (λ i s inside.
          then-Returns (item_or_throw (get_elem? core.model.create_suffix_data i)) _
            (item-Returns core.model.create_suffix_data i inside))
        0 core.create_did_suffixes (omega (arith, valid.creates))

  recovers-Returns :
      (ss : List Text) (proof_file : Option CoreProofFile) (chunk_file : Option (List Delta))
      → ss ≡ core.recover_did_suffixes
      → (proof_file ≡ none → ss ≡ [])
      → Returns (compose_recovers stringify transaction core ss proof_file chunk_file)
  unfolding compose_recovers compose_recover_at item_or_throw
  recovers-Returns [] proof_file chunk_file same present = ([], refl)
  recovers-Returns (s ∷ ss) none chunk_file same present = absurd (let e = present refl in cc (e))
  recovers-Returns (s ∷ ss) (some proofs) chunk_file same present =
      let count =
        ap length (same ∙ valid.recovers) ∙ length-map suffix_of core.model.recover_references in
      compose_from-Returns _ (length core.model.recover_references)
        (λ i t inside.
          then-Returns (item_or_throw (get_elem? core.model.recover_references i)) _
            (item-Returns core.model.recover_references i inside))
        0 (s ∷ ss) (omega (arith, count))

  deactivates-Returns :
      (ss : List Text) (proof_file : Option CoreProofFile)
      → (ss ≡ []) ⊎ (core.did_unique_suffixes ≡ core.deactivate_did_suffixes)
      → (proof_file ≡ none → ss ≡ [])
      → Returns (compose_deactivates stringify transaction core ss proof_file)
  unfolding compose_deactivates compose_deactivate_at item_or_throw
  deactivates-Returns [] proof_file unmixed present = ([], refl)
  deactivates-Returns (s ∷ ss) none unmixed present = absurd (let e = present refl in cc (e))
  deactivates-Returns (s ∷ ss) (some proofs) (inl empty) present = absurd (cc (empty))
  deactivates-Returns (s ∷ ss) (some proofs) (inr alone) present =
      let count =
        ap length (alone ∙ valid.deactivates)
        ∙ length-map suffix_of core.model.deactivate_references in
      compose_from-Returns _ (length core.model.deactivate_references)
        (λ i t inside.
          then-Returns (item_or_throw (get_elem? core.model.deactivate_references i)) _
            (item-Returns core.model.deactivate_references i inside))
        0 core.did_unique_suffixes (omega (arith, count))

  updates-Returns :
      (provisional : ProvisionalIndexFile) (ss : List Text)
      (proof_file : Option ProvisionalProofFile) (chunk_file : Option (List Delta))
      → ss ≡ map suffix_of provisional.update_references
      → (proof_file ≡ none → ss ≡ [])
      → Returns (compose_updates stringify transaction core provisional ss proof_file chunk_file)
  unfolding compose_updates compose_update_at item_or_throw
  updates-Returns provisional [] proof_file chunk_file same present = ([], refl)
  updates-Returns provisional (s ∷ ss) none chunk_file same present =
      absurd (let e = present refl in cc (e))
  updates-Returns provisional (s ∷ ss) (some proofs) chunk_file same present =
      let count = ap length same ∙ length-map suffix_of provisional.update_references in
      compose_from-Returns _ (length provisional.update_references)
        (λ i t inside.
          then-Returns (item_or_throw (get_elem? provisional.update_references i)) _
            (item-Returns provisional.update_references i inside))
        0 (s ∷ ss) (omega (arith, count))

  all_updates-Returns :
      (provisional : Option ProvisionalIndexFile) (proof_file : Option ProvisionalProofFile)
      (chunk_file : Option (List Delta))
      → HasUpdateProofs provisional proof_file
      → Returns (
          compose_anchored_update_operation_models stringify transaction core provisional proof_file
            chunk_file)
  unfolding compose_anchored_update_operation_models
  all_updates-Returns none proof_file chunk_file proofs = ([], refl)
  all_updates-Returns (some provisional) proof_file chunk_file (is_index, present) =
      updates-Returns provisional provisional.did_unique_suffixes proof_file chunk_file
        is_index.suffixes present

  -- The composition of a batch that is not mixed returns, if the proof files are there that the
  -- index files ask for.
  pub compose_anchored_operation_models-Returns :
      (provisional : Option ProvisionalIndexFile) (core_proof_file : Option CoreProofFile)
      (proof_file : Option ProvisionalProofFile) (chunk_file : Option (List Delta))
      → IsUnmixed core
      → (core_proof_file ≡ none
          → (core.recover_did_suffixes ≡ []) × (core.deactivate_did_suffixes ≡ []))
      → HasUpdateProofs provisional proof_file
      → Returns (
          compose_anchored_operation_models stringify transaction core provisional core_proof_file
            proof_file chunk_file)
  unfolding compose_anchored_operation_models compose_anchored_recover_operation_models
      compose_anchored_deactivate_operation_models
  compose_anchored_operation_models-Returns provisional core_proof_file proof_file chunk_file
        unmixed present proofs =
      let (creates, hc) = creates-Returns chunk_file in
      let (recovers, hr) =
        recovers-Returns core.recover_did_suffixes core_proof_file chunk_file refl
          (λ e. (present e).0) in
      let (deactivates, hd) =
        deactivates-Returns core.deactivate_did_suffixes core_proof_file unmixed
          (λ e. (present e).1) in
      let (updates, hu) = all_updates-Returns provisional proof_file chunk_file proofs in
      (creates ++ recovers ++ deactivates ++ updates, rw (hc, hr, hd, hu) refl)
