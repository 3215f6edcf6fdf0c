-- ===== src/Operation/Resolver/Reuse.antt =====
-- A controller that signs two updates which commit to the key that they reveal.
use sidetree_js.Prelude.{ℕ, ◌<◌, ◌≡◌, refl, ap, true, none, some, [], ◌∷◌, arith}
use sidetree_js.Prelude.Text.{Text, text_eq_refl}
use sidetree_js.Prelude.JsMap
use sidetree_js.Errors.{ok}
use sidetree_js.Crypto.{CryptoLib}
use sidetree_js.Crypto.Multihash.{canonicalize_and_verify_double_hash}
use sidetree_js.Operation.{
  update, DidState, AnchoredOperation, Delta, UpdateOperation, OperationParser,
}
use sidetree_js.Operation.Processor.{with_delta, is_matching_delta}
use sidetree_js.Operation.Processor.Authorization.{IsAccepted, apply_of_IsAccepted}
use sidetree_js.Operation.Resolver.{
  update_commitment, recovery_commitment, apply_operation, commit_value, construct_map,
  construct_map_from, push_operation, resolve_updates,
}
use sidetree_js.Operation.Resolver.Denial.{Restarts, apply_operations-endless}
use sidetree_js.Operation.Resolver.Node.{node}

module _ (lib : CryptoLib) (parser : OperationParser) (c : Text) where
  -- A valid update that reveals the key of a commitment and commits to the same key again.
  pub record ReusesCommitment (model : AnchoredOperation) : Type 0 where
    pub is_update : model.type ≡ update
    pub operation : UpdateOperation
    pub parsed : parser.parse_update model.operation_buffer ≡ ok operation
    pub reveals : canonicalize_and_verify_double_hash lib operation.update_key (some c) ≡ true
    pub signature : parser.verify_signature operation.signed_data_jws operation.update_key ≡ ok true
    pub delta : Delta
    pub has_delta : operation.delta ≡ some delta
    pub matches : is_matching_delta lib parser delta operation.delta_hash ≡ ok true
    pub recommits : delta.update_commitment ≡ c
    pub listed : commit_value (node lib parser) lib model ≡ ok c

  ReusesCommitment-Restarts :
      (model : AnchoredOperation)
      → ReusesCommitment model
      → Restarts (node lib parser) update_commitment c model
  unfolding with_delta apply_operation
  ReusesCommitment-Restarts model r t h =
      let t' =
        with_delta (record t { last_operation_transaction_number = model.transaction_number })
          r.delta in
      let accepted : IsAccepted lib parser model t t' model.type = rw r.is_update (record {
        operation = r.operation;
        parsed = r.parsed;
        signed = record { reveals = rw h r.reveals; signature = r.signature };
        delta = r.delta;
        has_delta = r.has_delta;
        matches = r.matches;
        result = refl;
      }) in
      let applied = apply_of_IsAccepted lib parser model t t' accepted in
      (t', ground arith, refl, ap some r.recommits)

  map_of_two :
      (a b : AnchoredOperation)
      → commit_value (node lib parser) lib a ≡ ok c
      → commit_value (node lib parser) lib b ≡ ok c
      → construct_map (node lib parser) lib (a ∷ b ∷ []) ≡ ok ((c, a ∷ b ∷ []) ∷ [])
  unfolding construct_map construct_map_from push_operation JsMap.get JsMap.set
  map_of_two a b ha hb = ground (arith, text_eq_refl c)

  -- Two valid updates of different transactions that reveal the key of a commitment and commit to
  -- the same commitment again keep `resolve` from ever ending for a DID that stands at the
  -- commitment and is not deactivated: with these as the updates of the DID, the loop over the
  -- updates runs out of every number of rounds.
  pub resolve_updates-endless :
      (a b : AnchoredOperation) (s : DidState) (r : Text) (fuel : ℕ)
      → ReusesCommitment a
      → ReusesCommitment b
      → a.transaction_number < b.transaction_number
      → update_commitment s ≡ some c
      → recovery_commitment s ≡ some r
      → resolve_updates (node lib parser) lib fuel (a ∷ b ∷ []) s ≡ none
  unfolding resolve_updates JsMap.get
  resolve_updates-endless a b s r fuel ra rb earlier h active =
      let built = map_of_two a b ra.listed rb.listed in
      let endless =
        apply_operations-endless (node lib parser) update_commitment c a b
          (ReusesCommitment-Restarts a ra) (ReusesCommitment-Restarts b rb) earlier
          ((c, a ∷ b ∷ []) ∷ []) s fuel (rw (text_eq_refl c) refl) h in
      ground arith
