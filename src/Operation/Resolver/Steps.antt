-- ===== src/Operation/Resolver/Steps.antt =====
-- Runs of the resolver's loops, as sequences of applied operations.
use mathlib.Core.Path.{subst}
use sidetree_js.Prelude.{
  ℕ, zero, suc, ◌≡◌, inl, inr, Option, none, some, List, [], ◌∷◌, arith, leb, ◌==◌, Bool-cases,
  Option-cases, All,
}
use sidetree_js.Prelude.Text.{Text}
use sidetree_js.Prelude.JsMap
use sidetree_js.Errors.{ok, Result-cases}
use sidetree_js.Operation.{DidState, AnchoredOperation}
use sidetree_js.Operation.Resolver.{
  Processors, Commitment, OperationMap, get_operations, insert_by_number, sort_by_number,
  apply_operation, apply_create_operation, apply_first_valid_operation, apply_operations,
}

All-insert :
    (Q : AnchoredOperation → Type 0) (o : AnchoredOperation) (os : List AnchoredOperation)
    → Q o
    → All Q os
    → All Q (insert_by_number o os)
unfolding insert_by_number
All-insert Q o [] q h = (q, tt)
All-insert Q o (p ∷ ps) q h = elim (Bool-cases (leb o.transaction_number p.transaction_number)) [
  | inl before ↦ rw (before, insert_by_number) (q, h)
  | inr after ↦ rw (after, insert_by_number) (h.0, All-insert Q o ps q h.1)
]

pub All-sort :
    (Q : AnchoredOperation → Type 0) (os : List AnchoredOperation)
    → All Q os
    → All Q (sort_by_number os)
unfolding sort_by_number
All-sort Q [] h = tt
All-sort Q (o ∷ os) h = All-insert Q o (sort_by_number os) h.0 (All-sort Q os h.1)

module _ (processors : Processors) (Q : AnchoredOperation → Type 0) where
  -- The states that operations with a property lead to.
  pub data Steps (s : DidState) : DidState → Type 0 where
    here : Steps s s
    next :
        {t u : DidState}
        → Steps s t
        → (o : AnchoredOperation) → Q o
        → apply_operation processors o (some t) ≡ some u
        → Steps s u

  apply_first_valid-Steps :
      (os : List AnchoredOperation) (s original t u : DidState)
      → All Q os
      → Steps s t
      → apply_first_valid_operation processors os original t ≡ ok (some u)
      → Steps s u
  unfolding apply_first_valid_operation
  apply_first_valid-Steps [] s original t u q r h = absurd (grind arith)
  apply_first_valid-Steps (o ∷ os) s original t u q r h =
      elim (Option-cases (apply_operation processors o (some t))) [
        | inl nothing ↦ absurd (grind arith)
        | inr (t', applied) ↦
            elim (Bool-cases (
              t'.last_operation_transaction_number == original.last_operation_transaction_number)) [
                | inl same ↦
                    apply_first_valid-Steps os s original t' u q.1 (next r o q.0 applied)
                      (ground arith)
                | inr differs ↦
                    let same : t' ≡ u = ground arith in subst (Steps s) same (next r o q.0 applied)
              ]
      ]

  -- Every operation of the map has the property.
  abbrev pub AllIn : OperationMap → Type 0
  AllIn m = (c : Text) (os : List AnchoredOperation) → JsMap.get c m ≡ some os → All Q os

  pub get_operations-All :
      (m : OperationMap) (c : Option Text) (os : List AnchoredOperation)
      → AllIn m
      → get_operations c m ≡ some os
      → All Q os
  unfolding get_operations
  get_operations-All m none os a h = absurd (grind arith)
  get_operations-All m (some c) os a h = a c os h

  pub apply_operations-Steps :
      (commitment : Commitment) (fuel : ℕ) (m : OperationMap) (s t u : DidState)
      → AllIn m
      → Steps s t
      → apply_operations processors commitment fuel m t ≡ some (ok u)
      → Steps s u
  unfolding apply_operations
  apply_operations-Steps commitment zero m s t u a r h = absurd (grind arith)
  apply_operations-Steps commitment (suc fuel) m s t u a r h =
      elim (Option-cases (get_operations (commitment t) m)) [
        | inl nothing ↦ let same : t ≡ u = ground arith in subst (Steps s) same r
        | inr (os, found) ↦
            elim (Result-cases (apply_first_valid_operation processors (sort_by_number os) t t)) [
              | inl (e, thrown) ↦ absurd (grind arith)
              | inr (o, returned) ↦ elim (Option-cases o) [
                | inl stuck ↦ let same : t ≡ u = ground arith in subst (Steps s) same r
                | inr (t', applied) ↦
                    apply_operations-Steps commitment fuel m s t' u a
                      (apply_first_valid-Steps (sort_by_number os) s t t t'
                        (All-sort Q os (get_operations-All m (commitment t) os a found)) r
                        (ground arith))
                      (ground arith)
              ]
            ]
      ]

  pub apply_create_operation-created :
      (os : List AnchoredOperation) (s : DidState)
      → All Q os
      → apply_create_operation processors os ≡ some s
      → (o : AnchoredOperation) × Q o × (apply_operation processors o none ≡ some s)
  unfolding apply_create_operation
  apply_create_operation-created [] s q h = absurd (grind arith)
  apply_create_operation-created (o ∷ os) s q h =
      elim (Option-cases (apply_operation processors o none)) [
        | inl nothing ↦ apply_create_operation-created os s q.1 (ground arith)
        | inr (t, created) ↦ (o, q.0, ground arith)
      ]
