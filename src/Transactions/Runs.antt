-- ===== src/Transactions/Runs.antt =====
-- The runs of operations that are composed: one for each DID suffix, numbered in their order.
use mathlib.Core.Path.{subst}
use sidetree_js.Prelude.{
  ℕ, suc, ◌+◌, ◌≤◌, ◌<◌, ◌≡◌, refl, ap, ◌∙◌, List, [], ◌∷◌, ◌++◌, map, arith, length,
}
use sidetree_js.Prelude.Text.{Text}
use sidetree_js.Errors.{Result, ok, >>=-eq-ok, ok-injective}
use sidetree_js.Operation.{AnchoredOperation}
use sidetree_js.Ledger.{Transaction}
use sidetree_js.Transactions.Compose.{compose_from}

abbrev pub did_of : AnchoredOperation → Text
did_of operation = operation.did_unique_suffix

module _ (transaction : Transaction) where
  -- an operation of the transaction, with an index and a suffix
  pub record IsAt (index : ℕ) (suffix : Text) (operation : AnchoredOperation) : Type 0 where
    pub at_index : operation.operation_index ≡ index
    pub of_did : operation.did_unique_suffix ≡ suffix
    pub of_number : operation.transaction_number ≡ transaction.transaction_number
    pub of_time : operation.transaction_time ≡ transaction.transaction_time

  -- Operations of the transaction for the given suffixes, with consecutive indices.
  abbrev pub IsRun : ℕ → List Text → List AnchoredOperation → Type 0
  IsRun index [] [] = Unit
  IsRun index [] (operation ∷ operations) = ⊥
  IsRun index (suffix ∷ suffixes) [] = ⊥
  IsRun index (suffix ∷ suffixes) (operation ∷ operations) =
      IsAt index suffix operation × IsRun (suc index) suffixes operations

  pub IsRun-append :
      (index next : ℕ) (ss ts : List Text) (xs ys : List AnchoredOperation)
      → IsRun index ss xs
      → next ≡ index + length ss
      → IsRun next ts ys
      → IsRun index (ss ++ ts) (xs ++ ys)
  IsRun-append index next [] ts [] ys r e q = subst (λ n. IsRun n ts ys) (e ∙ omega arith) q
  IsRun-append index next [] ts (x ∷ xs) ys r e q = absurd r
  IsRun-append index next (s ∷ ss) ts [] ys r e q = absurd r
  IsRun-append index next (s ∷ ss) ts (x ∷ xs) ys (a, r) e q =
      (a, IsRun-append (suc index) next ss ts xs ys r (e ∙ omega arith) q)

  pub dids_of_run :
      (index : ℕ) (ss : List Text) (xs : List AnchoredOperation)
      → IsRun index ss xs
      → map did_of xs ≡ ss
  dids_of_run index [] [] r = refl
  dids_of_run index [] (x ∷ xs) r = absurd r
  dids_of_run index (s ∷ ss) [] r = absurd r
  dids_of_run index (s ∷ ss) (x ∷ xs) (a, r) =
      let rest = dids_of_run (suc index) ss xs r in
      ap (λ t. t ∷ map did_of xs) a.of_did ∙ ap (λ ts. s ∷ ts) rest

  pub length_of_run :
      (index : ℕ) (ss : List Text) (xs : List AnchoredOperation)
      → IsRun index ss xs
      → length xs ≡ length ss
  length_of_run index [] [] r = refl
  length_of_run index [] (x ∷ xs) r = absurd r
  length_of_run index (s ∷ ss) [] r = absurd r
  length_of_run index (s ∷ ss) (x ∷ xs) (a, r) = ap suc (length_of_run (suc index) ss xs r)

  -- A loop that composes an operation for each suffix composes a run.
  pub compose_from-IsRun :
      (compose : ℕ → Text → Result AnchoredOperation) (base : ℕ)
      → ((i : ℕ) (s : Text) (x : AnchoredOperation) → compose i s ≡ ok x → IsAt (base + i) s x)
      → (i : ℕ) (ss : List Text) (xs : List AnchoredOperation) → compose_from compose i ss ≡ ok xs
      → IsRun (base + i) ss xs
  unfolding compose_from
  compose_from-IsRun compose base each i [] xs h = rw (← ok-injective h) tt
  compose_from-IsRun compose base each i (s ∷ ss) xs h =
      let (x, one, h1) = >>=-eq-ok (compose i s) _ h in
      let (rest, later, h2) = >>=-eq-ok (compose_from compose (suc i) ss) _ h1 in
      let r = compose_from-IsRun compose base each (suc i) ss rest later in
      rw (← ok-injective h2) (each i s x one, subst (λ n. IsRun n ss rest) (omega arith) r)

  -- A loop that reads an array at each index returns only if the array is as long.
  pub compose_from-bound :
      (compose : ℕ → Text → Result AnchoredOperation) (size : ℕ)
      → ((i : ℕ) (s : Text) (x : AnchoredOperation) → compose i s ≡ ok x → i < size)
      → (i : ℕ) (ss : List Text) (xs : List AnchoredOperation) → i ≤ size
      → compose_from compose i ss ≡ ok xs
      → i + length ss ≤ size
  unfolding compose_from
  compose_from-bound compose size each i [] xs bound h = omega (arith, bound)
  compose_from-bound compose size each i (s ∷ ss) xs bound h =
      let (x, one, h1) = >>=-eq-ok (compose i s) _ h in
      let (rest, later, h2) = >>=-eq-ok (compose_from compose (suc i) ss) _ h1 in
      let inside = each i s x one in
      omega
        (arith, compose_from-bound compose size each (suc i) ss rest (omega (arith, inside)) later)
