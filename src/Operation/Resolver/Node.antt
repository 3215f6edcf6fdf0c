-- ===== src/Operation/Resolver/Node.antt =====
-- The resolver over the operation processor of packages/core/src/OperationProcessor.ts, at every
-- blockchain time.
use mathlib.Core.Path.{subst}
use sidetree_js.Prelude.{ℕ, ◌≡◌, ◌⊎◌, inl, inr, none, some, List, arith}
use sidetree_js.Errors.{ok}
use sidetree_js.Crypto.{CryptoLib}
use sidetree_js.Operation.{DidState, AnchoredOperation, OperationParser}
use sidetree_js.Operation.Processor
use sidetree_js.Operation.Processor.Documents.{
  HasValidDeltas, HasGoodDocument, apply-HasGoodDocument,
}
use sidetree_js.Operation.Resolver.{Processors, apply_operation, resolve}
use sidetree_js.Operation.Resolver.Steps.{Steps, here, next}
use sidetree_js.Operation.Resolver.Derivation.{resolve-IsDerived}

abbrev pub node : CryptoLib → OperationParser → Processors
node lib parser time = ok (record {
  apply = Processor.apply lib parser;
  get_multihash_reveal_value = Processor.get_multihash_reveal_value lib parser;
})

module _ (lib : CryptoLib) (parser : OperationParser) where
  -- `applyOperation` applies the operation, or leaves the state where applying it throws.
  pub apply_operation_cases :
      (o : AnchoredOperation) (t t' : DidState)
      → apply_operation (node lib parser) o (some t) ≡ some t'
      → (t' ≡ t) ⊎ (Processor.apply lib parser o (some t) ≡ ok (some t'))
  unfolding apply_operation
  apply_operation_cases o t t' h = ground arith

  apply_operation-created :
      (o : AnchoredOperation) (t' : DidState)
      → apply_operation (node lib parser) o none ≡ some t'
      → Processor.apply lib parser o none ≡ ok (some t')
  unfolding apply_operation
  apply_operation-created o t' h = ground arith

  module _ (valid : HasValidDeltas parser) (Q : AnchoredOperation → Type 0) where
    Steps-HasGoodDocument :
        {s t : DidState} → HasGoodDocument s → Steps (node lib parser) Q s t → HasGoodDocument t
    Steps-HasGoodDocument g here = g
    Steps-HasGoodDocument g (next {t} {u} r o q e) =
        let before = Steps-HasGoodDocument g r in
        elim (apply_operation_cases o t u e) [
          | inl same ↦ rw same before
          | inr applied ↦
              apply-HasGoodDocument lib parser valid o (some t) u
                (λ v same. let equal : t ≡ v = ground arith in subst HasGoodDocument equal before)
                applied
        ]

  -- The document of a resolved state uses no id for two keys or for two services, if the parsers
  -- return only deltas whose patches were validated.
  pub resolve-HasGoodDocument :
      (fuel : ℕ) (operations : List AnchoredOperation) (result : DidState)
      → HasValidDeltas parser
      → resolve (node lib parser) lib fuel operations ≡ some (ok (some result))
      → HasGoodDocument result
  resolve-HasGoodDocument fuel operations result valid h =
      let d = resolve-IsDerived (node lib parser) lib fuel operations result h in
      let created =
        apply-HasGoodDocument lib parser valid d.create_operation none d.created
          (λ s e. absurd (grind arith))
          (apply_operation-created d.create_operation d.created d.by_create) in
      Steps-HasGoodDocument valid _ (Steps-HasGoodDocument valid _ created d.by_recoveries)
        d.by_updates
