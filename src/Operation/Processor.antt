-- ===== src/Operation/Processor.antt =====
-- packages/core/src/OperationProcessor.ts: one anchored operation on a DID state.
pub mod Authorization
pub mod Shape
pub mod Documents
use sidetree_js.Prelude.{
  ℕ, zero, suc, ◌+◌, ◌-◌, ◌*◌, ◌/◌, ◌%◌, ◌≤◌, ◌<◌, max, ◌≡◌, refl, sym, ap, ◌∙◌, ◌≢◌, ◌↔◌, ◌⊎◌, inl,
  inr, Bool, true, false, not, ◌&&◌, ◌||◌, Option, none, some, List, [], ◌∷◌, ◌++◌, map, append-nil,
  append_assoc, arith, ltb, leb, ◌==◌, if◌then◌else◌, ltb→lt, leb→le, ==_iff, Bool-cases,
  Option-cases, length, get_elem?, take, drop, filter, length-append, All, All-append, All-filter,
}
use sidetree_js.Prelude.Text.{
  Text, codes, text_eq, text_eq_sound, text_eq_refl, text_eq_iff, member, Distinct,
}
use sidetree_js.Errors.{
  ErrorCode, Failure, sidetree, unexpected, Result, ok, err, ◌>>=◌, ◌>>◌, throw_if, >>=-eq-ok,
}
use sidetree_js.Errors.{
  operation_processor_create_operation_does_not_have_reveal_value,
  operation_processor_unknown_operation_type,
}
use sidetree_js.Document.{Document, Patch, empty_document}
use sidetree_js.Document.Composer.{apply_patches}
use sidetree_js.Crypto.{CryptoLib}
use sidetree_js.Crypto.Multihash.{
  decode_as_buffer, canonicalize_and_verify_double_hash, verify_encoded_multihash_for_content,
}
use sidetree_js.Operation.{
  OperationType, create, update, recover, deactivate, other, DidState, AnchoredOperation, Delta,
  OperationParser,
}

-- The `try` around `applyPatches`: when a patch throws, the document stays as it was.
unfoldable pub patched_or_unchanged : Document → List Patch → Document
patched_or_unchanged document patches = elim (apply_patches document patches) [
  | ok document' ↦ document'
  | err e ↦ document
]

-- The state after a delta: its commitment is taken whether or not its patches apply.
unfoldable pub with_delta : DidState → Delta → DidState
with_delta state delta = record state {
  next_update_commitment_hash = some delta.update_commitment;
  document = patched_or_unchanged state.document delta.patches;
}

-- `newDidState` of a create and of a recovery, before its delta
abbrev pub initial_state : Text → ℕ → DidState
initial_state recovery_commitment transaction_number = record {
  document = empty_document;
  next_recovery_commitment_hash = some recovery_commitment;
  next_update_commitment_hash = none;
  last_operation_transaction_number = transaction_number;
}

-- The two checks with which an update, a recovery and a deactivation begin: of the key's hash, then,
-- if that is right, of the signature. Where one fails the state is returned as it was.
unfoldable pub if_verified : Bool → Result Bool → DidState → Result DidState → Result DidState
if_verified is_valid_key signature state rest =
    if not is_valid_key
    then ok state
    else do signature_is_valid ← signature; if not signature_is_valid then ok state else rest

module _ (lib : CryptoLib) (parser : OperationParser) where
  -- `isMatchingDelta`
  unfoldable pub is_matching_delta : Delta → Text → Result Bool
  is_matching_delta delta delta_hash = do
    payload ← lib.canonicalize delta.content
    ok (verify_encoded_multihash_for_content lib payload delta_hash)

  -- The end of a create and of a recovery, which work on an empty document.
  unfoldable pub start_from_delta : DidState → Option Delta → Text → Result DidState
  start_from_delta state none delta_hash = ok state
  start_from_delta state (some delta) delta_hash = do
    matching ← is_matching_delta delta delta_hash
    ok (if matching then with_delta state delta else state)

  unfoldable pub apply_create_operation :
      AnchoredOperation → Option DidState → Result (Option DidState)
  apply_create_operation model (some state) = ok (some state)
  apply_create_operation model none = do
    operation ← parser.parse_create model.operation_buffer
    state ←
        start_from_delta (initial_state operation.recovery_commitment model.transaction_number)
          operation.delta operation.delta_hash
    ok (some state)

  -- The delta of an update, after the key and the signature were verified.
  unfoldable pub update_from_delta :
      AnchoredOperation → DidState → Option Delta → Text → Result DidState
  update_from_delta model state none delta_hash = ok state
  update_from_delta model state (some delta) delta_hash = do
    matching ← is_matching_delta delta delta_hash
    ok (
        if matching
        then with_delta
            (record state { last_operation_transaction_number = model.transaction_number }) delta
        else state)

  unfoldable pub apply_update_operation : AnchoredOperation → DidState → Result DidState
  apply_update_operation model state = do
    operation ← parser.parse_update model.operation_buffer
    if_verified
        (canonicalize_and_verify_double_hash lib operation.update_key
          state.next_update_commitment_hash)
        (parser.verify_signature operation.signed_data_jws operation.update_key) state
        (update_from_delta model state operation.delta operation.delta_hash)

  unfoldable pub apply_recover_operation : AnchoredOperation → DidState → Result DidState
  apply_recover_operation model state = do
    operation ← parser.parse_recover model.operation_buffer
    if_verified
        (canonicalize_and_verify_double_hash lib operation.recovery_key
          state.next_recovery_commitment_hash)
        (parser.verify_signature operation.signed_data_jws operation.recovery_key) state
        (start_from_delta (initial_state operation.recovery_commitment model.transaction_number)
          operation.delta operation.delta_hash)

  unfoldable pub apply_deactivate_operation : AnchoredOperation → DidState → Result DidState
  apply_deactivate_operation model state = do
    operation ← parser.parse_deactivate model.operation_buffer
    if_verified
        (canonicalize_and_verify_double_hash lib operation.recovery_key
          state.next_recovery_commitment_hash)
        (parser.verify_signature operation.signed_data_jws operation.recovery_key) state
        (ok (record state {
          next_recovery_commitment_hash = none;
          next_update_commitment_hash = none;
          last_operation_transaction_number = model.transaction_number;
        }))

  -- `apply` by the type of the operation, on a DID state
  unfoldable pub apply_to_state :
      OperationType → AnchoredOperation → DidState → Result (Option DidState)
  apply_to_state create model state = apply_create_operation model (some state)
  apply_to_state update model state = do
    state' ← apply_update_operation model state
    ok (some state')
  apply_to_state recover model state = do
    state' ← apply_recover_operation model state
    ok (some state')
  apply_to_state deactivate model state = do
    state' ← apply_deactivate_operation model state
    ok (some state')
  apply_to_state other model state = err (sidetree operation_processor_unknown_operation_type)

  -- `apply` without a DID state: only a create is applied
  unfoldable pub apply_to_nothing : OperationType → AnchoredOperation → Result (Option DidState)
  apply_to_nothing create model = apply_create_operation model none
  apply_to_nothing update model = ok none
  apply_to_nothing recover model = ok none
  apply_to_nothing deactivate model = ok none
  apply_to_nothing other model = ok none

  unfoldable pub apply : AnchoredOperation → Option DidState → Result (Option DidState)
  apply model none = apply_to_nothing model.type model
  apply model (some state) = apply_to_state model.type model state

  unfoldable pub reveal_value_of : OperationType → AnchoredOperation → Result Text
  reveal_value_of create model =
      err (sidetree operation_processor_create_operation_does_not_have_reveal_value)
  reveal_value_of _ model = do
    reveal_value ← parser.parse_reveal_value model.operation_buffer
    decode_as_buffer lib reveal_value

  unfoldable pub get_multihash_reveal_value : AnchoredOperation → Result Text
  get_multihash_reveal_value model = reveal_value_of model.type model
