-- ===== src/Operation/Processor/Authorization.antt =====
-- Who may change a DID state: the operations that `apply` accepts.
use sidetree_js.Prelude.{
  ◌≡◌, refl, ◌⊎◌, inl, inr, Bool, true, Option, none, some, arith, Bool-cases,
}
use sidetree_js.Prelude.Text.{Text}
use sidetree_js.Errors.{Result, ok, >>=-eq-ok}
use sidetree_js.Json.{Json}
use sidetree_js.Crypto.{CryptoLib}
use sidetree_js.Crypto.Multihash.{canonicalize_and_verify_double_hash}
use sidetree_js.Operation.{
  OperationType, create, update, recover, deactivate, other, DidState, AnchoredOperation, Delta,
  Jws, UpdateOperation, RecoverOperation, DeactivateOperation, OperationParser,
}
use sidetree_js.Operation.Processor.{
  initial_state, initial_state, if_verified, with_delta, is_matching_delta, start_from_delta,
  apply_create_operation, update_from_delta, apply_update_operation, apply_recover_operation,
  apply_deactivate_operation, apply_to_state, apply,
}

if_verified_cases :
    (valid_key : Bool) (signature : Result Bool) (s s' : DidState) (rest : Result DidState)
    → if_verified valid_key signature s rest ≡ ok s'
    → (s' ≡ s) ⊎ ((valid_key ≡ true) × (signature ≡ ok true) × (rest ≡ ok s'))
unfolding if_verified
if_verified_cases valid_key signature s s' rest h = ground arith

module _ (lib : CryptoLib) (parser : OperationParser) (model : AnchoredOperation)
    (s s' : DidState) where
  -- A key that hashes to the commitment of the state, and its signature.
  pub record IsSigned (key : Json) (jws : Jws) (commitment : Option Text) : Type 0 where
    pub reveals : canonicalize_and_verify_double_hash lib key commitment ≡ true
    pub signature : parser.verify_signature jws key ≡ ok true

  pub record IsUpdated : Type 0 where
    pub operation : UpdateOperation
    pub parsed : parser.parse_update model.operation_buffer ≡ ok operation
    pub signed :
        IsSigned operation.update_key operation.signed_data_jws s.next_update_commitment_hash
    pub delta : Delta
    pub has_delta : operation.delta ≡ some delta
    pub matches : is_matching_delta lib parser delta operation.delta_hash ≡ ok true
    pub result :
        s'
        ≡ with_delta
            (record s { last_operation_transaction_number = model.transaction_number })
            delta

  pub record IsRecovered : Type 0 where
    pub operation : RecoverOperation
    pub parsed : parser.parse_recover model.operation_buffer ≡ ok operation
    pub signed :
        IsSigned operation.recovery_key operation.signed_data_jws s.next_recovery_commitment_hash
    pub result :
        start_from_delta lib parser
          (initial_state operation.recovery_commitment model.transaction_number)
          operation.delta
          operation.delta_hash
        ≡ ok s'

  pub record IsDeactivated : Type 0 where
    pub operation : DeactivateOperation
    pub parsed : parser.parse_deactivate model.operation_buffer ≡ ok operation
    pub signed :
        IsSigned operation.recovery_key operation.signed_data_jws s.next_recovery_commitment_hash
    pub result : s' ≡ record s {
      next_recovery_commitment_hash = none;
      next_update_commitment_hash = none;
      last_operation_transaction_number = model.transaction_number;
    }

  -- What an operation that is accepted has shown, by its type.
  abbrev pub IsAccepted : OperationType → Type 0
  IsAccepted create = ⊥
  IsAccepted update = IsUpdated
  IsAccepted recover = IsRecovered
  IsAccepted deactivate = IsDeactivated
  IsAccepted other = ⊥

  update_from_delta_cases :
      (delta : Option Delta) (delta_hash : Text)
      → update_from_delta lib parser model s delta delta_hash ≡ ok s'
      → (s' ≡ s)
        ⊎ ((d : Delta) × (delta ≡ some d)
            × (is_matching_delta lib parser d delta_hash ≡ ok true)
            × (s'
                ≡ with_delta
                    (record s { last_operation_transaction_number = model.transaction_number })
                    d))
  unfolding update_from_delta
  update_from_delta_cases none delta_hash h = ground arith
  update_from_delta_cases (some d) delta_hash h =
      let (matching, matches, h1) = >>=-eq-ok (is_matching_delta lib parser d delta_hash) _ h in
      elim (Bool-cases matching) [
        | inl yes_matching ↦ inr (d, refl, ground arith, ground arith)
        | inr no_matching ↦ inl (ground arith)
      ]

  update_cases : apply_update_operation lib parser model s ≡ ok s' → (s' ≡ s) ⊎ IsUpdated
  unfolding apply_update_operation
  update_cases h =
      let (operation, parsed, h1) = >>=-eq-ok (parser.parse_update model.operation_buffer) _ h in
      elim (if_verified_cases _ _ s s' _ h1) [
        | inl same ↦ inl same
        | inr (reveals, signature, h2) ↦
            elim (update_from_delta_cases operation.delta operation.delta_hash h2) [
              | inl same ↦ inl same
              | inr (delta, has_delta, matches, result) ↦ inr (record {
                operation = operation;
                parsed = parsed;
                signed = record { reveals = reveals; signature = signature };
                delta = delta;
                has_delta = has_delta;
                matches = matches;
                result = result;
              })
            ]
      ]

  recover_cases : apply_recover_operation lib parser model s ≡ ok s' → (s' ≡ s) ⊎ IsRecovered
  unfolding apply_recover_operation
  recover_cases h =
      let (operation, parsed, h1) = >>=-eq-ok (parser.parse_recover model.operation_buffer) _ h in
      elim (if_verified_cases _ _ s s' _ h1) [
        | inl same ↦ inl same
        | inr (reveals, signature, h2) ↦ inr (record {
          operation = operation;
          parsed = parsed;
          signed = record { reveals = reveals; signature = signature };
          result = h2;
        })
      ]

  deactivate_cases :
      apply_deactivate_operation lib parser model s ≡ ok s' → (s' ≡ s) ⊎ IsDeactivated
  unfolding apply_deactivate_operation
  deactivate_cases h =
      let (operation, parsed, h1) =
        >>=-eq-ok (parser.parse_deactivate model.operation_buffer) _ h in
      elim (if_verified_cases _ _ s s' _ h1) [
        | inl same ↦ inl same
        | inr (reveals, signature, h2) ↦ inr (record {
          operation = operation;
          parsed = parsed;
          signed = record { reveals = reveals; signature = signature };
          result = ground arith;
        })
      ]

  apply_to_state_cases :
      (type : OperationType)
      → apply_to_state lib parser type model s ≡ ok (some s')
      → (s' ≡ s) ⊎ IsAccepted type
  unfolding apply_to_state apply_create_operation
  apply_to_state_cases create h = ground arith
  apply_to_state_cases update h = ground (arith, update_cases)
  apply_to_state_cases recover h = ground (arith, recover_cases)
  apply_to_state_cases deactivate h = ground (arith, deactivate_cases)
  apply_to_state_cases other h = cc

  -- `apply` leaves a DID state as it is, unless the operation is an update, a recovery or a
  -- deactivation whose key hashes to the commitment of the state, whose signature is valid under
  -- that key and, for an update, whose delta hashes to the signed hash; the new state is then the
  -- one that the operation describes.
  pub apply-IsAccepted :
      apply lib parser model (some s) ≡ ok (some s') → (s' ≡ s) ⊎ IsAccepted model.type
  unfolding apply
  apply-IsAccepted h = apply_to_state_cases model.type h

  accepted_applies :
      (type : OperationType)
      → IsAccepted type
      → apply_to_state lib parser type model s ≡ ok (some s')
  unfolding apply_to_state apply_update_operation apply_recover_operation apply_deactivate_operation
      if_verified update_from_delta
  accepted_applies create a = absurd a
  accepted_applies update a =
      rw (a.parsed, a.signed.reveals, a.signed.signature, a.has_delta, a.matches, a.result) refl
  accepted_applies recover a = rw (a.parsed, a.signed.reveals, a.signed.signature, a.result) refl
  accepted_applies deactivate a = rw (a.parsed, a.signed.reveals, a.signed.signature, a.result) refl
  accepted_applies other a = absurd a

  -- An update, a recovery or a deactivation that parses, whose key hashes to the commitment of the
  -- state, whose signature is valid under that key and, for an update, whose delta hashes to the
  -- signed hash, is applied by `apply`, with the state that the operation describes as the result.
  pub apply_of_IsAccepted : IsAccepted model.type → apply lib parser model (some s) ≡ ok (some s')
  unfolding apply
  apply_of_IsAccepted a = accepted_applies model.type a
