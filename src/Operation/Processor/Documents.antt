-- ===== src/Operation/Processor/Documents.antt =====
-- The document of a DID state stays well formed, whatever operations are applied.
use sidetree_js.Prelude.{◌≡◌, refl, inl, inr, Option, none, some, List, arith, All}
use sidetree_js.Prelude.Text.{Text}
use sidetree_js.Errors.{ok, >>=-eq-ok}
use sidetree_js.Document.{Document, Patch, empty_document}
use sidetree_js.Document.Composer.Refinement.{IsWellFormed, IsValidPatch, apply_patches-Refines}
use sidetree_js.Crypto.{CryptoLib}
use sidetree_js.Operation.{
  OperationType, create, update, recover, deactivate, other, DidState, AnchoredOperation, Delta,
  CreateOperation, UpdateOperation, RecoverOperation, OperationParser,
}
use sidetree_js.Operation.Processor.{
  initial_state, patched_or_unchanged, with_delta, start_from_delta, apply_create_operation,
  apply_to_nothing, apply,
}
use sidetree_js.Operation.Processor.Authorization.{IsAccepted, apply-IsAccepted}
use sidetree_js.Operation.Processor.Shape.{start_from_delta_cases}

abbrev pub IsValidDelta : Option Delta → Type 0
IsValidDelta none = Unit
IsValidDelta (some d) = All IsValidPatch d.patches

-- The parsers return a delta only if its patches passed `validateDocumentPatches`.
pub record HasValidDeltas (parser : OperationParser) : Type 0 where
  pub of_create :
      (b : Text) (o : CreateOperation) → parser.parse_create b ≡ ok o → IsValidDelta o.delta
  pub of_update :
      (b : Text) (o : UpdateOperation) → parser.parse_update b ≡ ok o → IsValidDelta o.delta
  pub of_recover :
      (b : Text) (o : RecoverOperation) → parser.parse_recover b ≡ ok o → IsValidDelta o.delta

abbrev pub HasGoodDocument : DidState → Type 0
HasGoodDocument s = IsWellFormed s.document

IsWellFormed-empty : IsWellFormed empty_document
IsWellFormed-empty = record { distinct_keys = tt; distinct_services = tt }

patched_or_unchanged-IsWellFormed :
    (d : Document) (ps : List Patch)
    → IsWellFormed d
    → All IsValidPatch ps
    → IsWellFormed (patched_or_unchanged d ps)
unfolding patched_or_unchanged
patched_or_unchanged-IsWellFormed d ps w v =
    let (d', e, r) = apply_patches-Refines d ps w v in rw (e, patched_or_unchanged) r.well_formed

with_delta-HasGoodDocument :
    (s : DidState) (d : Delta)
    → HasGoodDocument s
    → All IsValidPatch d.patches
    → HasGoodDocument (with_delta s d)
unfolding with_delta
with_delta-HasGoodDocument s d w v = patched_or_unchanged-IsWellFormed s.document d.patches w v

module _ (lib : CryptoLib) (parser : OperationParser) (valid : HasValidDeltas parser) where
  start_from_delta-HasGoodDocument :
      (s s' : DidState) (delta : Option Delta) (delta_hash : Text)
      → HasGoodDocument s
      → IsValidDelta delta
      → start_from_delta lib parser s delta delta_hash ≡ ok s'
      → HasGoodDocument s'
  start_from_delta-HasGoodDocument s s' delta delta_hash w v h =
      elim (start_from_delta_cases lib parser s s' delta delta_hash h) [
        | inl e ↦ rw e w
        | inr (d, has, e) ↦ rw e (with_delta-HasGoodDocument s d w (rw has at v))
      ]

  module _ (model : AnchoredOperation) (s' : DidState) where
    create-HasGoodDocument :
        apply_create_operation lib parser model none ≡ ok (some s') → HasGoodDocument s'
    unfolding apply_create_operation
    create-HasGoodDocument h =
        let (operation, parsed, h1) = >>=-eq-ok (parser.parse_create model.operation_buffer) _ h in
        let (s, started, h2) =
          >>=-eq-ok
            (start_from_delta lib parser
              (initial_state operation.recovery_commitment model.transaction_number) operation.delta
              operation.delta_hash)
            _ h1 in
        start_from_delta-HasGoodDocument
          (initial_state operation.recovery_commitment model.transaction_number) s' operation.delta
          operation.delta_hash IsWellFormed-empty
          (valid.of_create model.operation_buffer operation parsed) (ground arith)

    accepted-HasGoodDocument :
        (type : OperationType) (s : DidState)
        → HasGoodDocument s
        → IsAccepted lib parser model s s' type
        → HasGoodDocument s'
    accepted-HasGoodDocument create s w a = absurd a
    accepted-HasGoodDocument update s w a = rw a.result (
        with_delta-HasGoodDocument _ a.delta w
          (rw a.has_delta at (valid.of_update model.operation_buffer a.operation a.parsed)))
    accepted-HasGoodDocument recover s w a =
        start_from_delta-HasGoodDocument _ s' _ _ IsWellFormed-empty
          (valid.of_recover model.operation_buffer a.operation a.parsed) a.result
    accepted-HasGoodDocument deactivate s w a = rw a.result w
    accepted-HasGoodDocument other s w a = absurd a

    nothing-HasGoodDocument :
        (type : OperationType)
        → apply_to_nothing lib parser type model ≡ ok (some s')
        → HasGoodDocument s'
    unfolding apply_to_nothing
    nothing-HasGoodDocument create h = create-HasGoodDocument h
    nothing-HasGoodDocument update h = cc
    nothing-HasGoodDocument recover h = cc
    nothing-HasGoodDocument deactivate h = cc
    nothing-HasGoodDocument other h = cc

-- From a well-formed document, or none, `apply` leads to a well-formed document, if the parsers
-- return only deltas whose patches were validated.
pub apply-HasGoodDocument :
    (lib : CryptoLib) (parser : OperationParser) (valid : HasValidDeltas parser)
    (model : AnchoredOperation) (o : Option DidState) (s' : DidState)
    → ((s : DidState) → o ≡ some s → HasGoodDocument s)
    → apply lib parser model o ≡ ok (some s')
    → HasGoodDocument s'
unfolding apply
apply-HasGoodDocument lib parser valid model none s' w h =
    nothing-HasGoodDocument lib parser valid model s' model.type h
apply-HasGoodDocument lib parser valid model (some s) s' w h =
    elim (apply-IsAccepted lib parser model s s' h) [
      | inl same ↦ rw same (w s refl)
      | inr a ↦ accepted-HasGoodDocument lib parser valid model s' model.type s (w s refl) a
    ]
