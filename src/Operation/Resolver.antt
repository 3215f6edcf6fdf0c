-- ===== src/Operation/Resolver.antt =====
-- packages/core/src/Resolver.ts: the state of a DID from the operations that the store has for it.
-- `Processors` is what the resolver calls of the version manager and its processors. A `while` loop
-- takes fuel, and `none` says that it was not enough.
pub mod Tables
pub mod Steps
pub mod Derivation
pub mod Loops
pub mod Node
pub mod Termination
pub mod Denial
pub mod Reuse
use sidetree_js.Prelude.{
  ℕ, zero, suc, ◌+◌, ◌-◌, ◌*◌, ◌/◌, ◌%◌, ◌≤◌, ◌<◌, max, ◌≡◌, refl, sym, ap, ◌∙◌, ◌≢◌, ◌↔◌, ◌⊎◌, inl,
  inr, Bool, true, false, not, ◌&&◌, ◌||◌, Option, none, some, List, [], ◌∷◌, ◌++◌, map, append-nil,
  append_assoc, arith, ltb, leb, ◌==◌, if◌then◌else◌, ltb→lt, leb→le, ==_iff, Bool-cases,
  Option-cases, length, get_elem?, take, drop, filter, length-append, All, All-append, All-filter,
}
use sidetree_js.Prelude.Text.{
  Text, codes, text_eq, text_eq_sound, text_eq_refl, text_eq_iff, member, Distinct,
}
use sidetree_js.Prelude.JsMap
use sidetree_js.Errors.{
  ErrorCode, Failure, sidetree, unexpected, Result, ok, err, ◌>>=◌, ◌>>◌, throw_if, >>=-eq-ok,
}
use sidetree_js.Crypto.{CryptoLib}
use sidetree_js.Crypto.Multihash.{hash_then_encode}
use sidetree_js.Operation.{
  OperationType, create, update, recover, deactivate, other, DidState, AnchoredOperation,
}

-- `IOperationProcessor`
pub record Processor : Type 0 where
  pub apply : AnchoredOperation → Option DidState → Result (Option DidState)
  pub get_multihash_reveal_value : AnchoredOperation → Result Text

-- `versionManager.getOperationProcessor`, at a blockchain time
abbrev pub Processors : Type 0
Processors = ℕ → Result Processor

-- `{ createOperations, recoverOperations, updateOperations, deactivateOperations }`
pub record OperationsByType : Type 0 where
  pub create_operations : List AnchoredOperation
  pub recover_operations : List AnchoredOperation
  pub update_operations : List AnchoredOperation
  pub deactivate_operations : List AnchoredOperation

-- One round of the loop of `categorizeOperationsByType`.
unfoldable pub push_by_type :
    OperationType → AnchoredOperation → OperationsByType → OperationsByType
push_by_type create o t = record t { create_operations = t.create_operations ++ o ∷ [] }
push_by_type recover o t = record t { recover_operations = t.recover_operations ++ o ∷ [] }
push_by_type update o t = record t { update_operations = t.update_operations ++ o ∷ [] }
push_by_type deactivate o t = record t { deactivate_operations = t.deactivate_operations ++ o ∷ [] }
push_by_type other o t = record t { deactivate_operations = t.deactivate_operations ++ o ∷ [] }

unfoldable pub categorize_from : OperationsByType → List AnchoredOperation → OperationsByType
categorize_from t [] = t
categorize_from t (o ∷ os) = categorize_from (push_by_type o.type o t) os

unfoldable pub categorize_operations_by_type : List AnchoredOperation → OperationsByType
categorize_operations_by_type os =
    categorize_from
      (record {
        create_operations = [];
        recover_operations = [];
        update_operations = [];
        deactivate_operations = [];
      })
      os

-- `operations.sort((a, b) => a.transactionNumber - b.transactionNumber)`, which is stable
unfoldable pub insert_by_number :
    AnchoredOperation → List AnchoredOperation → List AnchoredOperation
insert_by_number o [] = o ∷ []
insert_by_number o (p ∷ ps) =
    if leb o.transaction_number p.transaction_number then o ∷ p ∷ ps else p ∷ insert_by_number o ps

unfoldable pub sort_by_number : List AnchoredOperation → List AnchoredOperation
sort_by_number [] = []
sort_by_number (o ∷ os) = insert_by_number o (sort_by_number os)

-- the commitment that a loop follows
abbrev pub Commitment : Type 0
Commitment = DidState → Option Text

abbrev pub recovery_commitment : Commitment
recovery_commitment s = s.next_recovery_commitment_hash

abbrev pub update_commitment : Commitment
update_commitment s = s.next_update_commitment_hash

abbrev pub OperationMap : Type 0
OperationMap = List (Text × List AnchoredOperation)

-- `map.get(hash!)`, where the hash may be `undefined`, which is no key
unfoldable pub get_operations : Option Text → OperationMap → Option (List AnchoredOperation)
get_operations none m = none
get_operations (some c) m = JsMap.get c m

-- `map.get(commitValue)!.push(operation)` or `map.set(commitValue, [operation])`
unfoldable pub push_operation : Text → AnchoredOperation → OperationMap → OperationMap
push_operation c o m = elim (JsMap.get c m) [
  | some os ↦ JsMap.set c (os ++ o ∷ []) m
  | none ↦ JsMap.set c (o ∷ []) m
]

module _ (processors : Processors) where
  -- `applyOperation`: what throws leaves the state as it was
  unfoldable pub apply_operation : AnchoredOperation → Option DidState → Option DidState
  apply_operation operation state =
      elim (do processor ← processors operation.transaction_time; processor.apply operation state) [
        | ok state' ↦ state'
        | err e ↦ state
      ]

  unfoldable pub apply_create_operation : List AnchoredOperation → Option DidState
  apply_create_operation [] = none
  apply_create_operation (o ∷ os) = elim (apply_operation o none) [
    | some state ↦ some state
    | none ↦ apply_create_operation os
  ]

  -- `applyFirstValidOperation`, from the state that the loop has reached; reading a field of
  -- `undefined` throws
  unfoldable pub apply_first_valid_operation :
      List AnchoredOperation → DidState → DidState → Result (Option DidState)
  apply_first_valid_operation [] original state = ok none
  apply_first_valid_operation (o ∷ os) original state = elim (apply_operation o (some state)) [
    | none ↦ err unexpected
    | some state' ↦
        let rest = apply_first_valid_operation os original state' in
        if state'.last_operation_transaction_number == original.last_operation_transaction_number
        then rest
        else ok (some state')
  ]

  -- `applyRecoverAndDeactivateOperations` and `applyUpdateOperations`: the same loop over another
  -- commitment. The first also stops where the new commitment is `undefined`, which is no key.
  unfoldable pub apply_operations :
      Commitment → ℕ → OperationMap → DidState → Option (Result DidState)
  apply_operations commitment zero m state = none
  apply_operations commitment (suc fuel) m state = elim (get_operations (commitment state) m) [
    | none ↦ some (ok state)
    | some operations ↦ elim (apply_first_valid_operation (sort_by_number operations) state state) [
      | err e ↦ some (err e)
      | ok none ↦ some (ok state)
      | ok (some state') ↦ apply_operations commitment fuel m state'
    ]
  ]

  module _ (lib : CryptoLib) where
    -- The key of an operation in the lookup map: the hash of the hash that it reveals.
    unfoldable pub commit_value : AnchoredOperation → Result Text
    commit_value operation = do
      processor ← processors operation.transaction_time
      reveal_value ← processor.get_multihash_reveal_value operation
      decoded ← lib.multihash_decode reveal_value
      hash_then_encode lib decoded.1 decoded.0

    unfoldable pub construct_map_from : OperationMap → List AnchoredOperation → Result OperationMap
    construct_map_from m [] = ok m
    construct_map_from m (o ∷ os) = do
      c ← commit_value o
      construct_map_from (push_operation c o m) os

    -- `constructCommitValueToOperationLookupMap`
    unfoldable pub construct_map : List AnchoredOperation → Result OperationMap
    construct_map os = construct_map_from [] os

    -- The rest of `resolve` once the recoveries and deactivations are applied.
    unfoldable pub resolve_updates :
        ℕ → List AnchoredOperation → DidState → Option (Result (Option DidState))
    resolve_updates fuel updates state = elim (recovery_commitment state) [
      | none ↦ some (ok (some state))
      | some c ↦ elim (construct_map updates) [
        | err e ↦ some (err e)
        | ok m ↦ elim (apply_operations update_commitment fuel m state) [
          | none ↦ none
          | some (err e) ↦ some (err e)
          | some (ok state') ↦ some (ok (some state'))
        ]
      ]
    ]

    unfoldable pub resolve_from :
        ℕ → OperationsByType → DidState → Option (Result (Option DidState))
    resolve_from fuel t state =
        elim (construct_map (t.recover_operations ++ t.deactivate_operations)) [
          | err e ↦ some (err e)
          | ok m ↦ elim (apply_operations recovery_commitment fuel m state) [
            | none ↦ none
            | some (err e) ↦ some (err e)
            | some (ok state') ↦ resolve_updates fuel t.update_operations state'
          ]
        ]

    -- `resolve`, on the operations that `operationStore.get` returned
    unfoldable pub resolve : ℕ → List AnchoredOperation → Option (Result (Option DidState))
    resolve fuel operations =
        let t = categorize_operations_by_type operations in
        elim (apply_create_operation t.create_operations) [
          | none ↦ some (ok none)
          | some state ↦ resolve_from fuel t state
        ]
