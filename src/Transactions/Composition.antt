-- ===== src/Transactions/Composition.antt =====
-- The operations that are composed of a batch: the creates, recovers, deactivates and updates in turn.
use mathlib.Core.Path.{subst}
use sidetree_js.Prelude.{
  ℕ, zero, suc, ◌+◌, ◌≤◌, ◌<◌, ◌≡◌, refl, sym, ap, ◌∙◌, ◌≢◌, Option, none, some, List, [], ◌∷◌,
  ◌++◌, map, arith, length, get_elem?, length-append,
}
use sidetree_js.Prelude.Text.{Text}
use sidetree_js.Errors.{ok, >>=-eq-ok, ok-injective}
use sidetree_js.Json.{Json}
use sidetree_js.Operation.{Delta, AnchoredOperation}
use sidetree_js.Ledger.{Transaction}
use sidetree_js.Files.CoreIndex.{CoreIndexFile, suffix_of}
use sidetree_js.Files.Proofs.{CoreProofFile, ProvisionalProofFile}
use sidetree_js.Files.Provisional.{ProvisionalIndexFile}
use sidetree_js.Files.Suffixes.{IsCoreIndex, length-eq-zero}
use sidetree_js.Transactions.Compose.{
  item_or_throw, compose_create_at, compose_anchored_create_operation_models, compose_recover_at,
  compose_recovers, compose_anchored_recover_operation_models, compose_deactivate_at,
  compose_deactivates, compose_anchored_deactivate_operation_models, compose_update_at,
  compose_updates, compose_anchored_update_operation_models, compose_anchored_operation_models,
}
use sidetree_js.Transactions.Runs.{
  IsAt, IsRun, IsRun-append, compose_from-IsRun, compose_from-bound,
}

pub length-map : {A B : Type 0} (f : A → B) (xs : List A) → length (map f xs) ≡ length xs
length-map f [] = refl
length-map f (x ∷ xs) = ap suc (length-map f xs)

item-bound :
    {A : Type 0} (xs : List A) (i : ℕ) (x : A)
    → item_or_throw (get_elem? xs i) ≡ ok x
    → i < length xs
unfolding item_or_throw
item-bound [] i x h = cc
item-bound (y ∷ ys) zero x h = omega arith
item-bound (y ∷ ys) (suc i) x h = omega (arith, item-bound ys i x h)

abbrev pub update_suffixes : Option ProvisionalIndexFile → List Text
update_suffixes none = []
update_suffixes (some provisional) = provisional.did_unique_suffixes

module _ (stringify : Json → Text) (transaction : Transaction) (core : CoreIndexFile) where
  creates-IsRun :
      (chunk_file : Option (List Delta)) (xs : List AnchoredOperation)
      → compose_anchored_create_operation_models stringify transaction core chunk_file ≡ ok xs
      → IsRun transaction 0 core.create_did_suffixes xs
  unfolding compose_anchored_create_operation_models compose_create_at
  creates-IsRun chunk_file xs h =
      compose_from-IsRun transaction _ 0
        (λ i s x one.
          (let (content, item, h1) =
              >>=-eq-ok (item_or_throw (get_elem? core.model.create_suffix_data i)) _ one in
            subst (IsAt transaction (0 + i) s) (ok-injective h1)
              (record { at_index = omega arith; of_did = refl; of_number = refl; of_time = refl })))
        0 core.create_did_suffixes xs h

  recovers-IsRun :
      (proof_file : Option CoreProofFile) (chunk_file : Option (List Delta)) (ss : List Text)
      (xs : List AnchoredOperation)
      → compose_recovers stringify transaction core ss proof_file chunk_file ≡ ok xs
      → IsRun transaction (length core.create_did_suffixes) ss xs
  unfolding compose_recovers compose_recover_at
  recovers-IsRun proof_file chunk_file [] xs h = rw (← ok-injective h) tt
  recovers-IsRun proof_file chunk_file (s ∷ ss) xs h =
      let (proofs, present, h1) = >>=-eq-ok (item_or_throw proof_file) _ h in
      subst (λ n. IsRun transaction n (s ∷ ss) xs) (omega arith)
        (compose_from-IsRun transaction _ (length core.create_did_suffixes)
          (λ i s x one.
            (let (reference, item, h2) =
                >>=-eq-ok (item_or_throw (get_elem? core.model.recover_references i)) _ one in
              subst (IsAt transaction (length core.create_did_suffixes + i) s) (ok-injective h2)
                (record { at_index = refl; of_did = refl; of_number = refl; of_time = refl })))
          0 (s ∷ ss) xs h1)

  -- Where there is a deactivate, the loop over all the suffixes returns only if there is nothing
  -- else.
  deactivates-IsRun :
      (proof_file : Option CoreProofFile) (s : Text) (ss : List Text) (xs : List AnchoredOperation)
      → compose_deactivates stringify transaction core (s ∷ ss) proof_file ≡ ok xs
      → (length core.did_unique_suffixes ≤ length core.model.deactivate_references)
        × IsRun transaction
            (length core.create_did_suffixes + length core.recover_did_suffixes)
            core.did_unique_suffixes
            xs
  unfolding compose_deactivates compose_deactivate_at
  deactivates-IsRun proof_file s ss xs h =
      let (proofs, present, h1) = >>=-eq-ok (item_or_throw proof_file) _ h in
      let base = length core.create_did_suffixes + length core.recover_did_suffixes in
      (
        omega (
          arith,
          compose_from-bound transaction _ (length core.model.deactivate_references)
              (λ i s x one.
                (let (reference, item, h2) =
                    >>=-eq-ok (item_or_throw (get_elem? core.model.deactivate_references i)) _
                      one in
                  item-bound core.model.deactivate_references i reference item))
              0 core.did_unique_suffixes xs (omega arith) h1,
        ),
        subst (λ n. IsRun transaction n core.did_unique_suffixes xs) (omega arith)
            (compose_from-IsRun transaction _ base
              (λ i s x one.
                (let (reference, item, h2) =
                    >>=-eq-ok (item_or_throw (get_elem? core.model.deactivate_references i)) _
                      one in
                  subst (IsAt transaction (base + i) s) (ok-injective h2)
                    (record { at_index = refl; of_did = refl; of_number = refl; of_time = refl })))
              0 core.did_unique_suffixes xs h1),
      )

  updates-IsRun :
      (provisional : ProvisionalIndexFile) (proof_file : Option ProvisionalProofFile)
      (chunk_file : Option (List Delta)) (ss : List Text) (xs : List AnchoredOperation)
      → compose_updates stringify transaction core provisional ss proof_file chunk_file ≡ ok xs
      → IsRun transaction (length core.did_unique_suffixes) ss xs
  unfolding compose_updates compose_update_at
  updates-IsRun provisional proof_file chunk_file [] xs h = rw (← ok-injective h) tt
  updates-IsRun provisional proof_file chunk_file (s ∷ ss) xs h =
      let (proofs, present, h1) = >>=-eq-ok (item_or_throw proof_file) _ h in
      subst (λ n. IsRun transaction n (s ∷ ss) xs) (omega arith)
        (compose_from-IsRun transaction _ (length core.did_unique_suffixes)
          (λ i s x one.
            (let (reference, item, h2) =
                >>=-eq-ok (item_or_throw (get_elem? provisional.update_references i)) _ one in
              subst (IsAt transaction (length core.did_unique_suffixes + i) s) (ok-injective h2)
                (record { at_index = refl; of_did = refl; of_number = refl; of_time = refl })))
          0 (s ∷ ss) xs h1)

  all_updates-IsRun :
      (provisional : Option ProvisionalIndexFile) (proof_file : Option ProvisionalProofFile)
      (chunk_file : Option (List Delta)) (xs : List AnchoredOperation)
      → compose_anchored_update_operation_models stringify transaction core provisional proof_file
          chunk_file
        ≡ ok xs
      → IsRun transaction (length core.did_unique_suffixes) (update_suffixes provisional) xs
  unfolding compose_anchored_update_operation_models
  all_updates-IsRun none proof_file chunk_file xs h = rw (← ok-injective h) tt
  all_updates-IsRun (some provisional) proof_file chunk_file xs h =
      updates-IsRun provisional proof_file chunk_file provisional.did_unique_suffixes xs h

  -- A core index file whose suffixes are no more than its deactivates has nothing else.
  alone_of_bound :
      IsCoreIndex core
      → length core.did_unique_suffixes ≤ length core.model.deactivate_references
      → (core.create_did_suffixes ≡ []) × (core.recover_did_suffixes ≡ [])
  alone_of_bound valid bound =
      let creates = core.create_did_suffixes in
      let recovers = core.recover_did_suffixes in
      let deactivates = core.deactivate_did_suffixes in
      let all = ap length valid.all_suffixes in
      let two = length-append (creates ++ recovers) deactivates in
      let one = length-append creates recovers in
      let references =
        ap length valid.deactivates ∙ length-map suffix_of core.model.deactivate_references in
      (length-eq-zero creates (omega arith), length-eq-zero recovers (omega arith))

  nothing_run : (index : ℕ) (xs : List AnchoredOperation) → IsRun transaction index [] xs → xs ≡ []
  nothing_run index [] r = refl
  nothing_run index (x ∷ xs) r = absurd r

  -- the operations of the core index file
  core-IsRun :
      (deactivated : List Text) (proof_file : Option CoreProofFile)
      (chunk_file : Option (List Delta)) (creates recovers deactivates : List AnchoredOperation)
      → IsCoreIndex core
      → core.deactivate_did_suffixes ≡ deactivated
      → IsRun transaction 0 core.create_did_suffixes creates
      → IsRun transaction (length core.create_did_suffixes) core.recover_did_suffixes recovers
      → compose_deactivates stringify transaction core deactivated proof_file ≡ ok deactivates
      → IsRun transaction 0 core.did_unique_suffixes (creates ++ recovers ++ deactivates)
  unfolding compose_deactivates
  core-IsRun [] proof_file chunk_file creates recovers deactivates valid none_left rc rr h =
      subst (λ ds. IsRun transaction 0 core.did_unique_suffixes (creates ++ recovers ++ ds))
        (ok-injective h)
        (subst (λ ss. IsRun transaction 0 ss (creates ++ recovers ++ []))
          (sym (
            valid.all_suffixes
            ∙ ap (λ ds. core.create_did_suffixes ++ core.recover_did_suffixes ++ ds) none_left))
          (IsRun-append transaction 0
            (0 + length (core.create_did_suffixes ++ core.recover_did_suffixes))
            (core.create_did_suffixes ++ core.recover_did_suffixes) [] (creates ++ recovers) []
            (IsRun-append transaction 0 (length core.create_did_suffixes) core.create_did_suffixes
              core.recover_did_suffixes creates recovers rc (omega arith) rr)
            refl tt))
  core-IsRun (s ∷ ss) proof_file chunk_file creates recovers deactivates valid some_left rc rr h =
      let (bound, run) = deactivates-IsRun proof_file s ss deactivates h in
      let (no_creates, no_recovers) = alone_of_bound valid bound in
      let c = ap length no_creates in
      let r = ap length no_recovers in
      let nothing =
        nothing_run 0 creates (subst (λ cs. IsRun transaction 0 cs creates) no_creates rc) in
      let nothing' = nothing_run (length core.create_did_suffixes) recovers (
        subst (λ rs. IsRun transaction (length core.create_did_suffixes) rs recovers) no_recovers
          rr) in
      subst (λ xs. IsRun transaction 0 core.did_unique_suffixes (xs ++ deactivates))
        (sym (ap (λ xs. xs ++ recovers) nothing ∙ nothing'))
        (subst (λ n. IsRun transaction n core.did_unique_suffixes deactivates) (omega arith) run)

  -- The operations that are composed of valid files are one for each DID suffix of the core index
  -- file and then of the provisional index file, numbered from 0 in that order, with the number and
  -- the time of the transaction.
  pub compose_anchored_operation_models-IsRun :
      (provisional : Option ProvisionalIndexFile) (core_proof_file : Option CoreProofFile)
      (proof_file : Option ProvisionalProofFile) (chunk_file : Option (List Delta))
      (xs : List AnchoredOperation)
      → IsCoreIndex core
      → compose_anchored_operation_models stringify transaction core provisional core_proof_file
          proof_file chunk_file
        ≡ ok xs
      → IsRun transaction 0 (core.did_unique_suffixes ++ update_suffixes provisional) xs
  unfolding compose_anchored_operation_models compose_anchored_recover_operation_models
      compose_anchored_deactivate_operation_models
  compose_anchored_operation_models-IsRun provisional core_proof_file proof_file chunk_file xs valid
        h =
      let (creates, hc, h1) =
        >>=-eq-ok (compose_anchored_create_operation_models stringify transaction core chunk_file) _
          h in
      let (recovers, hr, h2) =
        >>=-eq-ok
          (compose_anchored_recover_operation_models stringify transaction core core_proof_file
            chunk_file)
          _ h1 in
      let (deactivates, hd, h3) =
        >>=-eq-ok
          (compose_anchored_deactivate_operation_models stringify transaction core core_proof_file)
          _ h2 in
      let (updates, hu, h4) =
        >>=-eq-ok
          (compose_anchored_update_operation_models stringify transaction core provisional
            proof_file chunk_file)
          _ h3 in
      subst (λ xs. IsRun transaction 0 (core.did_unique_suffixes ++ update_suffixes provisional) xs)
        (ok-injective h4)
        (IsRun-append transaction 0 (length core.did_unique_suffixes) core.did_unique_suffixes
          (update_suffixes provisional) (creates ++ recovers ++ deactivates) updates
          (core-IsRun core.deactivate_did_suffixes core_proof_file chunk_file creates recovers
            deactivates valid refl (creates-IsRun chunk_file creates hc)
            (recovers-IsRun core_proof_file chunk_file core.recover_did_suffixes recovers hr) hd)
          (omega arith) (all_updates-IsRun provisional proof_file chunk_file updates hu))

  mixed-throws :
      (ss : List Text) (core_proof_file : Option CoreProofFile) (xs : List AnchoredOperation)
      → IsCoreIndex core
      → 0 < length ss
      → 0 < length core.create_did_suffixes + length core.recover_did_suffixes
      → compose_deactivates stringify transaction core ss core_proof_file ≢ ok xs
  mixed-throws [] core_proof_file xs valid some_left mixed h = absurd (omega (arith, some_left))
  mixed-throws (s ∷ ss) core_proof_file xs valid some_left mixed h =
      let (bound, run) = deactivates-IsRun core_proof_file s ss xs h in
      let (no_creates, no_recovers) = alone_of_bound valid bound in
      let c = ap length no_creates in let r = ap length no_recovers in omega arith

  -- A batch that has a deactivate and also a create or a recover is never composed: the loop over
  -- the deactivates runs over all the suffixes of the core index file, and reads past the end.
  pub compose_anchored_operation_models-mixed :
      (provisional : Option ProvisionalIndexFile) (core_proof_file : Option CoreProofFile)
      (proof_file : Option ProvisionalProofFile) (chunk_file : Option (List Delta))
      → IsCoreIndex core
      → 0 < length core.deactivate_did_suffixes
      → 0 < length core.create_did_suffixes + length core.recover_did_suffixes
      → (xs : List AnchoredOperation)
      → compose_anchored_operation_models stringify transaction core provisional core_proof_file
          proof_file chunk_file
        ≢ ok xs
  unfolding compose_anchored_operation_models compose_anchored_deactivate_operation_models
  compose_anchored_operation_models-mixed provisional core_proof_file proof_file chunk_file valid
        some_left mixed xs h =
      let (creates, hc, h1) =
        >>=-eq-ok (compose_anchored_create_operation_models stringify transaction core chunk_file) _
          h in
      let (recovers, hr, h2) =
        >>=-eq-ok
          (compose_anchored_recover_operation_models stringify transaction core core_proof_file
            chunk_file)
          _ h1 in
      let (deactivates, hd, h3) =
        >>=-eq-ok
          (compose_anchored_deactivate_operation_models stringify transaction core core_proof_file)
          _ h2 in
      mixed-throws core.deactivate_did_suffixes core_proof_file deactivates valid some_left mixed hd
