-- ===== src/Operation/Resolver/Denial.antt =====
-- Operations of others that keep `resolve` from an answer.
use mathlib.Core.List.{Memᴰ}
use sidetree_js.Prelude.{
  ℕ, zero, suc, ◌<◌, ◌≡◌, refl, inl, inr, none, some, List, [], ◌∷◌, ◌++◌, arith, ◌==◌, Bool-cases,
}
use sidetree_js.Errors.{Failure, ok, err, Result-cases}
use sidetree_js.Crypto.{CryptoLib}
use sidetree_js.Operation.{DidState, AnchoredOperation}
use sidetree_js.Prelude.Text.{Text}
use sidetree_js.Prelude.JsMap
use sidetree_js.Operation.Resolver.{
  Processors, OperationMap, Commitment, get_operations, sort_by_number, insert_by_number,
  apply_operation, apply_first_valid_operation, apply_operations, apply_create_operation,
  commit_value, construct_map_from, construct_map, push_operation, categorize_operations_by_type,
  resolve_from, resolve,
}
use sidetree_js.Operation.Resolver.Tables.{
  is_create, is_recover, is_deactivate, of_type, categorize-eq-filter,
}

module _ (processors : Processors) (lib : CryptoLib) where
  construct_map_from-throws :
      (os : List AnchoredOperation) (m : OperationMap) (o : AnchoredOperation) (e : Failure)
      → Memᴰ o os
      → commit_value processors lib o ≡ err e
      → (e' : Failure) × (construct_map_from processors lib m os ≡ err e')
  unfolding construct_map_from
  construct_map_from-throws [] m o e x h = elim x [ ]
  construct_map_from-throws (p ∷ ps) m o e (Memᴰ.head same) h = (e, ground arith)
  construct_map_from-throws (p ∷ ps) m o e (Memᴰ.tail later) h =
      elim (Result-cases (commit_value processors lib p)) [
        | inl (e', thrown) ↦ (e', ground arith)
        | inr (c, returned) ↦
            let (e', rest) = construct_map_from-throws ps (push_operation c p m) o e later h in
            (e', ground arith)
      ]

  -- A recovery or a deactivation in the store from which no commitment can be computed, as when its
  -- reveal value is refused by the parser, makes `resolve` throw for a DID that was created.
  pub resolve-throws :
      (fuel : ℕ) (operations : List AnchoredOperation) (s : DidState) (o : AnchoredOperation)
      (e : Failure)
      → apply_create_operation processors (of_type is_create operations) ≡ some s
      → Memᴰ o (of_type is_recover operations ++ of_type is_deactivate operations)
      → commit_value processors lib o ≡ err e
      → (e' : Failure) × (resolve processors lib fuel operations ≡ some (err e'))
  unfolding resolve resolve_from construct_map
  resolve-throws fuel operations s o e created listed bad =
      let (e', thrown) = construct_map_from-throws _ [] o e listed bad in
      let created' : apply_create_operation processors
            (categorize_operations_by_type operations).create_operations
          ≡ some s =
        rw (categorize-eq-filter operations) created in
      let thrown' : construct_map_from processors lib [] (
            (categorize_operations_by_type operations).recover_operations
            ++ (categorize_operations_by_type operations).deactivate_operations)
          ≡ err e' =
        rw (categorize-eq-filter operations) thrown in
      (e', ground arith)

-- An update or recovery that leads from a commitment back to it, whatever else the state is.
abbrev pub Restarts : Processors → Commitment → Text → AnchoredOperation → Type 0
Restarts processors commitment c o =
    (t : DidState)
    → commitment t ≡ some c
    → (t' : DidState) × (apply_operation processors o (some t) ≡ some t')
      × (t'.last_operation_transaction_number ≡ o.transaction_number)
      × (commitment t' ≡ some c)

module _ (processors : Processors) (commitment : Commitment) (c : Text) (a b : AnchoredOperation)
    (restarts_a : Restarts processors commitment c a)
    (restarts_b : Restarts processors commitment c b)
    (earlier : a.transaction_number < b.transaction_number) where
  -- one of the two is always applied
  one_restarts :
      (s : DidState)
      → commitment s ≡ some c
      → (t : DidState) × (apply_first_valid_operation processors (sort_by_number (a ∷ b ∷ [])) s s
          ≡ ok (some t))
        × (commitment t ≡ some c)
  unfolding apply_first_valid_operation sort_by_number insert_by_number
  one_restarts s h =
      let (s1, applied_a, last_a, again_a) = restarts_a s h in
      let (s2, applied_b, last_b, again_b) = restarts_b s1 again_a in
      elim (Bool-cases
        (s1.last_operation_transaction_number == s.last_operation_transaction_number)) [
          | inl same ↦ (s2, ground arith, again_b)
          | inr differs ↦ (s1, ground arith, again_a)
        ]

  -- Two operations that lead from a commitment back to it, of different transactions, keep the loop
  -- that follows the commitment from ever ending.
  pub apply_operations-endless :
      (m : OperationMap) (s : DidState) (fuel : ℕ)
      → JsMap.get c m ≡ some (a ∷ b ∷ [])
      → commitment s ≡ some c
      → apply_operations processors commitment fuel m s ≡ none
  unfolding apply_operations get_operations
  apply_operations-endless m s zero found h = refl
  apply_operations-endless m s (suc fuel) found h =
      let (t, applied, again) = one_restarts s h in
      let rest = apply_operations-endless m t fuel found again in ground arith
