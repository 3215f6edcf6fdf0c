-- ===== src/Operation/Resolver/Loops.antt =====
-- The loops of `resolve` end, if commitments cannot go round in a circle.
use sidetree_js.Prelude.{
  ℕ, zero, suc, ◌≤◌, ◌<◌, ◌≡◌, refl, ◌⊎◌, inl, inr, false, Option, some, List, [], ◌∷◌, arith, ◌==◌,
  Bool-cases, Option-cases, All,
}
use sidetree_js.Prelude.Text.{Text}
use sidetree_js.Errors.{Result, ok, err, Result-cases}
use sidetree_js.Operation.{DidState, AnchoredOperation}
use sidetree_js.Operation.Resolver.{
  Processors, Commitment, OperationMap, get_operations, sort_by_number, apply_operation,
  apply_first_valid_operation, apply_operations,
}
use sidetree_js.Operation.Resolver.Steps.{AllIn, All-sort, get_operations-All}

moved :
    (t t' original : DidState)
    → t' ≡ t
    → t.last_operation_transaction_number ≡ original.last_operation_transaction_number
    → (t'.last_operation_transaction_number == original.last_operation_transaction_number) ≡ false
    → ⊥
moved t t' original same e differs = ground arith

module _ (processors : Processors) (commitment : Commitment) (rank : Option Text → ℕ) where
  -- An operation that leaves a state alone, or takes it to a commitment of lower rank.
  abbrev pub Lowers : AnchoredOperation → Type 0
  Lowers o =
      (t t' : DidState)
      → apply_operation processors o (some t) ≡ some t'
      → (t' ≡ t) ⊎ (rank (commitment t') < rank (commitment t))

  no_higher :
      {original : DidState} (t t' : DidState)
      → (t' ≡ t) ⊎ (rank (commitment t') < rank (commitment t))
      → rank (commitment t) ≤ rank (commitment original)
      → rank (commitment t') ≤ rank (commitment original)
  no_higher t t' (inl same) r = rw same r
  no_higher t t' (inr lower) r = omega arith

  -- a state that the loop accepts has a commitment of lower rank
  apply_first_valid-Lowers :
      (os : List AnchoredOperation) (original t u : DidState)
      → All Lowers os
      → rank (commitment t) ≤ rank (commitment original)
      → t.last_operation_transaction_number ≡ original.last_operation_transaction_number
      → apply_first_valid_operation processors os original t ≡ ok (some u)
      → rank (commitment u) < rank (commitment original)
  unfolding apply_first_valid_operation
  apply_first_valid-Lowers [] original t u q r e h = absurd (grind arith)
  apply_first_valid-Lowers (o ∷ os) original t u q r e h =
      elim (Option-cases (apply_operation processors o (some t))) [
        | inl nothing ↦ absurd (grind arith)
        | inr (t', applied) ↦
            elim (Bool-cases (
              t'.last_operation_transaction_number == original.last_operation_transaction_number)) [
                | inl same ↦
                    apply_first_valid-Lowers os original t' u q.1
                      (no_higher t t' (q.0 t t' applied) r) (ground arith) (ground arith)
                | inr differs ↦ elim (q.0 t t' applied) [
                  | inl unchanged ↦ absurd (moved t t' original unchanged e differs)
                  | inr lower ↦ let same : t' ≡ u = ground arith in rw (← same) (omega arith)
                ]
              ]
      ]

  -- With more fuel than the rank of the commitment at which it starts, the loop ends.
  pub apply_operations-total :
      (fuel : ℕ) (m : OperationMap) (s : DidState)
      → AllIn processors Lowers m
      → rank (commitment s) < fuel
      → (r : Result DidState) × (apply_operations processors commitment fuel m s ≡ some r)
  unfolding apply_operations
  apply_operations-total zero m s a h = absurd (omega arith)
  apply_operations-total (suc fuel) m s a h =
      elim (Option-cases (get_operations (commitment s) m)) [
        | inl nothing ↦ (ok s, ground arith)
        | inr (os, found) ↦
            elim (Result-cases (apply_first_valid_operation processors (sort_by_number os) s s)) [
              | inl (e, thrown) ↦ (err e, ground arith)
              | inr (o, returned) ↦ elim (Option-cases o) [
                | inl stuck ↦ (ok s, ground arith)
                | inr (s', applied) ↦
                    let all = get_operations-All processors Lowers m (commitment s) os a found in
                    let lower =
                      apply_first_valid-Lowers (sort_by_number os) s s s' (All-sort Lowers os all)
                        (omega arith) refl (ground arith) in
                    let (r, e) = apply_operations-total fuel m s' a (omega arith) in
                    (r, ground arith)
              ]
            ]
      ]
