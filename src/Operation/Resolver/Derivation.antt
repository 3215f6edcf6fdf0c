-- ===== src/Operation/Resolver/Derivation.antt =====
-- Where a resolved state comes from: a create operation, then recoveries and deactivations, then
-- updates, all of them operations of the store.
use mathlib.Core.List.{Memᴰ}
use mathlib.Core.Path.{subst}
use sidetree_js.Prelude.{
  ℕ, ◌≡◌, sym, inl, inr, Bool, true, ◌||◌, none, some, List, [], ◌∷◌, ◌++◌, arith, Bool-cases,
  Option-cases, filter, All, All-append, All-filter, All-of_mem,
}
use sidetree_js.Errors.{ok, Result-cases}
use sidetree_js.Crypto.{CryptoLib}
use sidetree_js.Operation.{OperationType, DidState, AnchoredOperation}
use sidetree_js.Operation.Resolver.{
  Processors, recovery_commitment, update_commitment, OperationMap, OperationsByType,
  apply_operation, apply_create_operation, apply_operations, construct_map, resolve_updates,
  resolve_from, resolve, categorize_operations_by_type,
}
use sidetree_js.Operation.Resolver.Tables.{
  is_create, is_recover, is_update, is_deactivate, of_type, categorize-eq-filter, reveals,
  construct_map-entry,
}
use sidetree_js.Operation.Resolver.Steps.{
  Steps, here, AllIn, apply_operations-Steps, apply_create_operation-created,
}

-- an operation of the store whose type passes a test
abbrev pub Stored : List AnchoredOperation → (OperationType → Bool) → AnchoredOperation → Type 0
Stored operations test o = Memᴰ o operations × (test o.type ≡ true)

All-of_type :
    (test : OperationType → Bool) (all os : List AnchoredOperation)
    → All (λ o. Memᴰ o all) os
    → All (Stored all test) (of_type test os)
All-of_type test all [] h = tt
All-of_type test all (o ∷ os) h = elim (Bool-cases (test o.type)) [
  | inl fits ↦ rw fits ((h.0, fits), All-of_type test all os h.1)
  | inr misfits ↦ rw misfits (All-of_type test all os h.1)
]

module _ (processors : Processors) (lib : CryptoLib) where
  pub construct_map-AllIn :
      (Q : AnchoredOperation → Type 0) (os : List AnchoredOperation) (m : OperationMap)
      → All Q os
      → construct_map processors lib os ≡ ok m
      → AllIn processors Q m
  construct_map-AllIn Q os m q h c found e =
      let same : found ≡ filter (reveals processors lib c) os =
        ground (arith, construct_map-entry processors lib os m c h) in
      rw same (All-filter Q (reveals processors lib c) os q)

  -- The history of a resolved state, in the order in which `resolve` builds it.
  pub record IsDerived (operations : List AnchoredOperation) (result : DidState) : Type 0 where
    pub create_operation : AnchoredOperation
    pub stored : Stored operations is_create create_operation
    pub created : DidState
    pub by_create : apply_operation processors create_operation none ≡ some created
    pub recovered : DidState
    pub by_recoveries :
        Steps processors
          (Stored operations (λ t. is_recover t || is_deactivate t))
          created
          recovered
    pub by_updates : Steps processors (Stored operations is_update) recovered result
    pub no_update_of_deactivated : recovery_commitment recovered ≡ none → result ≡ recovered

  resolve_updates-Steps :
      (Q : AnchoredOperation → Type 0) (fuel : ℕ) (updates : List AnchoredOperation)
      (s u : DidState)
      → All Q updates
      → resolve_updates processors lib fuel updates s ≡ some (ok (some u))
      → Steps processors Q s u × (recovery_commitment s ≡ none → u ≡ s)
  unfolding resolve_updates
  resolve_updates-Steps Q fuel updates s u q h = elim (Option-cases (recovery_commitment s)) [
    | inl deactivated ↦
        let same : s ≡ u = ground arith in (subst (Steps processors Q s) same here, λ d. sym same)
    | inr (c, active) ↦ elim (Result-cases (construct_map processors lib updates)) [
      | inl (e, thrown) ↦ absurd (grind arith)
      | inr (m, built) ↦ (
        apply_operations-Steps processors Q update_commitment fuel m s s u
            (construct_map-AllIn Q updates m q built) here (ground arith),
        λ d. cc,
      )
    ]
  ]

  -- Where the three loops of `resolve` end: the created state, and the recovered one.
  resolve_from-Steps :
      (Q R : AnchoredOperation → Type 0) (fuel : ℕ) (t : OperationsByType) (s u : DidState)
      → All Q (t.recover_operations ++ t.deactivate_operations)
      → All R t.update_operations
      → resolve_from processors lib fuel t s ≡ some (ok (some u))
      → (v : DidState) × Steps processors Q s v
        × Steps processors R v u
        × (recovery_commitment v ≡ none → u ≡ v)
  unfolding resolve_from
  resolve_from-Steps Q R fuel t s u q r h =
      elim (Result-cases
        (construct_map processors lib (t.recover_operations ++ t.deactivate_operations))) [
          | inl (e, thrown) ↦ absurd (grind arith)
          | inr (m, built) ↦
              elim (Option-cases (apply_operations processors recovery_commitment fuel m s)) [
                | inl exhausted ↦ absurd (grind arith)
                | inr (run, ran) ↦ elim (Result-cases run) [
                  | inl (e, thrown) ↦ absurd (grind arith)
                  | inr (v, recovered) ↦
                      let (updates, final) =
                        resolve_updates-Steps R fuel t.update_operations v u r (ground arith) in
                      (
                        v,
                        apply_operations-Steps processors Q recovery_commitment fuel m s s v
                            (construct_map-AllIn Q _ m q built) here (ground arith),
                        updates,
                        final,
                      )
                ]
              ]
        ]

weaken :
    (operations os : List AnchoredOperation) (test wider : OperationType → Bool)
    → ((t : OperationType) → test t ≡ true → wider t ≡ true)
    → All (Stored operations test) os
    → All (Stored operations wider) os
weaken operations [] test wider w h = tt
weaken operations (o ∷ os) test wider w h =
    ((h.0.0, w o.type h.0.1), weaken operations os test wider w h.1)

abbrev pub wider : OperationType → Bool
wider t = is_recover t || is_deactivate t

module _ (operations : List AnchoredOperation) where
  stored : (test : OperationType → Bool) → All (Stored operations test) (of_type test operations)
  stored test =
      All-of_type test operations operations
        (All-of_mem (λ o. Memᴰ o operations) operations (λ o m. m))

  creates-Stored :
      All (Stored operations is_create) (categorize_operations_by_type operations).create_operations
  creates-Stored = rw (categorize-eq-filter operations) (stored is_create)

  pub updates-Stored :
      All (Stored operations is_update) (categorize_operations_by_type operations).update_operations
  updates-Stored = rw (categorize-eq-filter operations) (stored is_update)

  pub recoveries-Stored : All (Stored operations wider) (
      (categorize_operations_by_type operations).recover_operations
      ++ (categorize_operations_by_type operations).deactivate_operations)
  recoveries-Stored = rw (categorize-eq-filter operations) (
      All-append (Stored operations wider) _ _
        (weaken operations _ is_recover wider (λ t e. ground arith) (stored is_recover))
        (weaken operations _ is_deactivate wider (λ t e. ground arith) (stored is_deactivate)))

-- A state that `resolve` returns was created by a stored create operation, and then changed by
-- stored recoveries and deactivations alone, and after these by stored updates alone; after a
-- deactivation no update was applied.
pub resolve-IsDerived :
    (processors : Processors) (lib : CryptoLib) (fuel : ℕ) (operations : List AnchoredOperation)
    (result : DidState)
    → resolve processors lib fuel operations ≡ some (ok (some result))
    → IsDerived processors lib operations result
unfolding resolve
resolve-IsDerived processors lib fuel operations result h =
    let t = categorize_operations_by_type operations in
    elim (Option-cases (apply_create_operation processors t.create_operations)) [
      | inl nothing ↦ absurd (grind arith)
      | inr (s, found) ↦
          let (o, q, e) =
            apply_create_operation-created processors (Stored operations is_create)
              t.create_operations s (creates-Stored operations) found in
          let (v, recoveries, updates, final) =
            resolve_from-Steps processors lib (Stored operations wider)
              (Stored operations is_update) fuel t s result (recoveries-Stored operations)
              (updates-Stored operations) (ground arith) in
          record {
            create_operation = o;
            stored = q;
            created = s;
            by_create = e;
            recovered = v;
            by_recoveries = recoveries;
            by_updates = updates;
            no_update_of_deactivated = final;
          }
    ]
