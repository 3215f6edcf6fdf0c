-- ===== src/Ledger/Selector.antt =====
-- packages/core/src/TransactionSelector.ts and ThroughputLimiter.ts: which transactions of a block the
-- node processes.
pub mod Queue
pub mod Limits
pub mod Ranking
use sidetree_js.Prelude.{
  ℕ, zero, suc, ◌+◌, ◌-◌, ◌*◌, ◌/◌, ◌%◌, ◌≤◌, ◌<◌, max, ◌≡◌, refl, sym, ap, ◌∙◌, ◌≢◌, ◌↔◌, ◌⊎◌, inl,
  inr, Bool, true, false, not, ◌&&◌, ◌||◌, Option, none, some, List, [], ◌∷◌, ◌++◌, map, append-nil,
  append_assoc, arith, ltb, leb, ◌==◌, if◌then◌else◌, ltb→lt, leb→le, ==_iff, Bool-cases,
  Option-cases, length, get_elem?, take, drop, filter, length-append, All, All-append, All-filter,
  All-of_mem,
}
use sidetree_js.Prelude.Text.{
  Text, codes, text_eq, text_eq_sound, text_eq_refl, text_eq_iff, member, Distinct,
}
use sidetree_js.Prelude.JsMap.{has, set}
use sidetree_js.Errors.{
  ErrorCode, Failure, sidetree, unexpected, Result, ok, err, ◌>>=◌, ◌>>◌, throw_if, >>=-eq-ok,
  Result-cases,
}
use sidetree_js.Errors.{transactions_not_in_same_block}
use sidetree_js.Parameters.{
  max_number_of_operations_per_transaction_time, max_number_of_transactions_per_transaction_time,
}
use sidetree_js.Ledger.{Transaction}
use sidetree_js.Ledger.AnchoredData.{AnchoredData, deserialize}
use sidetree_js.Ledger.Selector.Queue.{PriorityQueue}

-- `a.transactionFeePaid - b.transactionFeePaid || b.transactionNumber - a.transactionNumber` is
-- positive: a higher fee comes first, then the earlier transaction.
unfoldable pub comes_before : Transaction → Transaction → Bool
comes_before a b =
    ltb b.transaction_fee_paid a.transaction_fee_paid
    || ((a.transaction_fee_paid == b.transaction_fee_paid)
        && ltb a.transaction_number b.transaction_number)

unfoldable pub validate_transactions : List Transaction → ℕ → Result (Unit {0})
validate_transactions [] current_transaction_time = ok tt
validate_transactions (transaction ∷ transactions) current_transaction_time =
    if not (transaction.transaction_time == current_transaction_time)
    then err (sidetree transactions_not_in_same_block)
    else validate_transactions transactions current_transaction_time

-- `AnchoredDataSerializer.deserialize(anchorString).numberOfOperations`
unfoldable pub number_of_operations_in : Transaction → Result ℕ
number_of_operations_in transaction = do
  anchored ← deserialize transaction.anchor_string
  ok anchored.number_of_operations

-- what the `catch` of the two loops leaves
unfoldable pub add_operations : Result ℕ → ℕ → ℕ
add_operations (ok n) total = total + n
add_operations (err e) total = total

unfoldable pub count_operations : List Transaction → ℕ
count_operations [] = 0
count_operations (transaction ∷ transactions) =
    add_operations (number_of_operations_in transaction) (count_operations transactions)

-- The transactions already stored at the time, `undefined` when there is no list.
unfoldable pub get_number_of_operations_and_transactions_already_in_transaction_time :
    Option (List Transaction) → ℕ × ℕ
get_number_of_operations_and_transactions_already_in_transaction_time none = (0, 0)
get_number_of_operations_and_transactions_already_in_transaction_time (some transactions) =
    (count_operations transactions, length transactions)

-- The `try` of the loop: the operations seen and the transactions to return. A transaction that does
-- not deserialize is dropped, and one that is over the limit counts as seen.
unfoldable pub take_transaction :
    ℕ → ℕ → List Transaction → Transaction → Result ℕ → ℕ × List Transaction
take_transaction operations_left seen taken transaction (err e) = (seen, taken)
take_transaction operations_left seen taken transaction (ok n) =
    (seen + n, (if leb (seen + n) operations_left then taken ++ transaction ∷ [] else taken))

-- the condition of the loop, with the length of the queue
unfoldable pub goes_on : ℕ → ℕ → ℕ → ℕ → ℕ → Bool
goes_on operations_left transactions_left seen taken waiting =
    ltb taken transactions_left && ltb seen operations_left && ltb 0 waiting

module _ (queue : PriorityQueue) where
  -- The loop over the transactions, with the map from writer to transaction number.
  unfoldable pub enqueue_from : List (Text × ℕ) → List Transaction → queue.Queue → queue.Queue
  enqueue_from seen [] q = q
  enqueue_from seen (transaction ∷ transactions) q =
      let skipped = enqueue_from seen transactions q in
      let pushed =
        enqueue_from (set transaction.writer transaction.transaction_number seen) transactions
          (queue.push transaction q) in
      if has transaction.writer seen then skipped else pushed

  unfoldable pub enqueue_first_transaction_from_each_writer : List Transaction → queue.Queue
  enqueue_first_transaction_from_each_writer transactions = enqueue_from [] transactions queue.empty

  -- The loop over the queue, on fuel. Popping nothing from a queue that is not empty would throw.
  unfoldable pub get_highest_from :
      ℕ → ℕ → ℕ → ℕ → List Transaction → queue.Queue → Option (Result (List Transaction))
  get_highest_from zero operations_left transactions_left seen taken q = none
  get_highest_from (suc fuel) operations_left transactions_left seen taken q =
      elim (goes_on operations_left transactions_left seen (length taken) (queue.size q)) [
        | false ↦ some (ok taken)
        | true ↦ elim (queue.pop q) [
          | none ↦ some (err unexpected)
          | some (transaction, q') ↦
              let next =
                take_transaction operations_left seen taken transaction
                  (number_of_operations_in transaction) in
              get_highest_from fuel operations_left transactions_left next.0 next.1 q'
        ]
      ]

  -- `selectQualifiedTransactions`; the first argument is what the transaction store has at a time.
  unfoldable pub select_qualified_transactions :
      (ℕ → Option (List Transaction)) → ℕ → List Transaction → Option (Result (List Transaction))
  select_qualified_transactions stored fuel [] = some (ok [])
  select_qualified_transactions stored fuel (t ∷ ts) =
      elim (validate_transactions (t ∷ ts) t.transaction_time) [
        | err e ↦ some (err e)
        | ok u ↦
            let counted =
              get_number_of_operations_and_transactions_already_in_transaction_time
                (stored t.transaction_time) in
            get_highest_from fuel (max_number_of_operations_per_transaction_time - counted.0)
              (max_number_of_transactions_per_transaction_time - counted.1) 0 []
              (enqueue_first_transaction_from_each_writer (t ∷ ts))
      ]
