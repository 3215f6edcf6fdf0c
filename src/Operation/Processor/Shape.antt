-- ===== src/Operation/Processor/Shape.antt =====
-- What `apply` keeps: a DID state stays one, its transaction number is that of the operation that
-- was applied last, deactivation is final, and its document stays well formed.
use sidetree_js.Prelude.{
  ◌≡◌, refl, ap, ◌∙◌, ◌⊎◌, inl, inr, true, Option, none, some, arith, Bool-cases,
}
use sidetree_js.Prelude.Text.{Text}
use sidetree_js.Errors.{ok, >>=-eq-ok}
use sidetree_js.Json.{Json}
use sidetree_js.Crypto.{CryptoLib}
use sidetree_js.Crypto.Multihash.{canonicalize_and_verify_double_hash}
use sidetree_js.Operation.{
  OperationType, create, update, recover, deactivate, other, DidState, AnchoredOperation, Delta,
  OperationParser,
}
use sidetree_js.Operation.Processor.{with_delta, is_matching_delta, start_from_delta, apply}
use sidetree_js.Operation.Processor.Authorization.{IsAccepted, apply-IsAccepted}

-- A state that no operation can follow.
pub record IsDeactivatedState (s : DidState) : Type 0 where
  pub no_recovery : s.next_recovery_commitment_hash ≡ none
  pub no_update : s.next_update_commitment_hash ≡ none

last-with_delta :
    (s : DidState) (d : Delta)
    → (with_delta s d).last_operation_transaction_number ≡ s.last_operation_transaction_number
unfolding with_delta
last-with_delta s d = refl

recovery-with_delta :
    (s : DidState) (d : Delta)
    → (with_delta s d).next_recovery_commitment_hash ≡ s.next_recovery_commitment_hash
unfolding with_delta
recovery-with_delta s d = refl

pub not_revealed :
    (lib : CryptoLib) (key : Json) (commitment : Option Text)
    → commitment ≡ none
    → canonicalize_and_verify_double_hash lib key commitment ≡ true
    → ⊥
unfolding canonicalize_and_verify_double_hash
not_revealed lib key none e h = cc
not_revealed lib key (some c) e h = cc

module _ (lib : CryptoLib) (parser : OperationParser) where
  -- a start is the bare state, or that state with the delta
  pub start_from_delta_cases :
      (s s' : DidState) (delta : Option Delta) (delta_hash : Text)
      → start_from_delta lib parser s delta delta_hash ≡ ok s'
      → (s' ≡ s) ⊎ ((d : Delta) × (delta ≡ some d) × (s' ≡ with_delta s d))
  unfolding start_from_delta
  start_from_delta_cases s s' none delta_hash h = ground arith
  start_from_delta_cases s s' (some d) delta_hash h =
      let (matching, matches, h1) = >>=-eq-ok (is_matching_delta lib parser d delta_hash) _ h in
      elim (Bool-cases matching) [
        | inl same ↦ inr (d, refl, ground arith)
        | inr differs ↦ inl (ground arith)
      ]

  last-start_from_delta :
      (s s' : DidState) (delta : Option Delta) (delta_hash : Text)
      → start_from_delta lib parser s delta delta_hash ≡ ok s'
      → s'.last_operation_transaction_number ≡ s.last_operation_transaction_number
  last-start_from_delta s s' delta delta_hash h =
      elim (start_from_delta_cases s s' delta delta_hash h) [
        | inl e ↦ ap (λ (t : DidState). t.last_operation_transaction_number) e
        | inr (d, has, e) ↦
            ap (λ (t : DidState). t.last_operation_transaction_number) e ∙ last-with_delta s d
      ]

  pub recovery-start_from_delta :
      (s s' : DidState) (delta : Option Delta) (delta_hash : Text)
      → start_from_delta lib parser s delta delta_hash ≡ ok s'
      → s'.next_recovery_commitment_hash ≡ s.next_recovery_commitment_hash
  recovery-start_from_delta s s' delta delta_hash h =
      elim (start_from_delta_cases s s' delta delta_hash h) [
        | inl e ↦ ap (λ (t : DidState). t.next_recovery_commitment_hash) e
        | inr (d, has, e) ↦
            ap (λ (t : DidState). t.next_recovery_commitment_hash) e ∙ recovery-with_delta s d
      ]

  module _ (model : AnchoredOperation) (s s' : DidState) where
    last_of_accepted :
        (type : OperationType)
        → IsAccepted lib parser model s s' type
        → s'.last_operation_transaction_number ≡ model.transaction_number
    last_of_accepted create a = absurd a
    last_of_accepted update a =
        ap (λ (t : DidState). t.last_operation_transaction_number) a.result
        ∙ last-with_delta _ a.delta
    last_of_accepted recover a = last-start_from_delta _ s' _ _ a.result
    last_of_accepted deactivate a =
        ap (λ (t : DidState). t.last_operation_transaction_number) a.result
    last_of_accepted other a = absurd a

    -- An operation that changes a DID state leaves its transaction number there.
    pub apply-transaction_number :
        apply lib parser model (some s) ≡ ok (some s')
        → (s' ≡ s) ⊎ (s'.last_operation_transaction_number ≡ model.transaction_number)
    apply-transaction_number h = elim (apply-IsAccepted lib parser model s s' h) [
      | inl same ↦ inl same
      | inr a ↦ inr (last_of_accepted model.type a)
    ]

    final_of_accepted :
        (type : OperationType) → IsDeactivatedState s → IsAccepted lib parser model s s' type → ⊥
    unfolding canonicalize_and_verify_double_hash
    final_of_accepted create f a = a
    final_of_accepted update f a = not_revealed lib _ _ f.no_update a.signed.reveals
    final_of_accepted recover f a = not_revealed lib _ _ f.no_recovery a.signed.reveals
    final_of_accepted deactivate f a = not_revealed lib _ _ f.no_recovery a.signed.reveals
    final_of_accepted other f a = a

    -- Deactivation is final: no operation changes a deactivated state.
    pub apply-IsDeactivatedState :
        IsDeactivatedState s → apply lib parser model (some s) ≡ ok (some s') → s' ≡ s
    apply-IsDeactivatedState f h = elim (apply-IsAccepted lib parser model s s' h) [
      | inl same ↦ same
      | inr a ↦ absurd (final_of_accepted model.type f a)
    ]
