-- ===== src/Observer.antt =====
-- packages/core/src/Observer.ts: the transactions of the ledger on their way to the transaction
-- store, with packages/common/src/models/TransactionUnderProcessingModel.ts. The orders in which its
-- asynchronous parts run are in Steps.
pub mod Steps
pub mod Trimming
pub mod Progress
pub mod Rounds
use sidetree_js.Prelude.{
  ℕ, zero, suc, ◌+◌, ◌-◌, ◌*◌, ◌/◌, ◌%◌, ◌≤◌, ◌<◌, max, ◌≡◌, refl, sym, ap, ◌∙◌, ◌≢◌, ◌↔◌, ◌⊎◌, inl,
  inr, Bool, true, false, not, ◌&&◌, ◌||◌, Option, none, some, List, [], ◌∷◌, ◌++◌, map, append-nil,
  append_assoc, arith, ltb, leb, ◌==◌, if◌then◌else◌, ltb→lt, leb→le, ==_iff, Bool-cases,
  Option-cases, length, get_elem?, take, drop, filter, length-append, All, All-append, All-filter,
  All-of_mem, All-at_mem,
}
use sidetree_js.Prelude.Text.{Text}
use sidetree_js.Errors.{
  ErrorCode, Failure, sidetree, unexpected, Result, ok, err, ◌>>=◌, ◌>>◌, throw_if, >>=-eq-ok,
  Result-cases, ok-injective, throw_if-eq-ok, if-eq-ok,
}
use sidetree_js.Ledger.{Transaction}
use sidetree_js.Versions.{Version, get_implementation}

pub data TransactionProcessingStatus : Type 0 where
  error : TransactionProcessingStatus
  processing : TransactionProcessingStatus
  processed : TransactionProcessingStatus

pub record TransactionUnderProcessing : Type 0 where
  pub transaction : Transaction
  pub processing_status : TransactionProcessingStatus

unfoldable pub is_processing : TransactionProcessingStatus → Bool
is_processing processing = true
is_processing _ = false

unfoldable pub is_processed : TransactionProcessingStatus → Bool
is_processed processed = true
is_processed _ = false

unfoldable pub is_error : TransactionProcessingStatus → Bool
is_error error = true
is_error _ = false

-- The three stores of the observer, with what their interfaces promise: a transaction that was added
-- is found, also after others are added and after those later than a number at or past it are
-- removed. No number is an `undefined`, which removes all.
pub record Stores : Type 1 where
  pub TransactionStore : Type 0
  pub add_transaction : Transaction → TransactionStore → Result TransactionStore
  pub get_last_transaction : TransactionStore → Option Transaction
  pub remove_transactions_later_than : Option ℕ → TransactionStore → TransactionStore
  pub has_transaction : ℕ → TransactionStore → Bool
  pub UnresolvableStore : Type 0
  pub remove_unresolvable_transaction : Transaction → UnresolvableStore → UnresolvableStore
  pub remove_unresolvable_transactions_later_than : Option ℕ → UnresolvableStore → UnresolvableStore
  pub OperationStore : Type 0
  pub delete_operations : Option ℕ → OperationStore → OperationStore
  pub has-add :
      (t : Transaction) (s s' : TransactionStore)
      → add_transaction t s ≡ ok s'
      → has_transaction t.transaction_number s' ≡ true
  pub has-add_other :
      (n : ℕ) (t : Transaction) (s s' : TransactionStore)
      → add_transaction t s ≡ ok s'
      → has_transaction n s ≡ true
      → has_transaction n s' ≡ true
  pub has-remove :
      (n m : ℕ) (s : TransactionStore)
      → n ≤ m
      → has_transaction n s ≡ true
      → has_transaction n (remove_transactions_later_than (some m) s) ≡ true

pub record Observer (stores : Stores) : Type 0 where
  pub transactions_under_processing : List TransactionUnderProcessing
  pub transaction_store : stores.TransactionStore
  pub unresolvable_store : stores.UnresolvableStore
  pub operation_store : stores.OperationStore

-- `getCountOfTransactionsUnderProcessing`
unfoldable pub get_count_of_transactions_under_processing : List TransactionUnderProcessing → ℕ
get_count_of_transactions_under_processing ts =
    length (filter (λ t. is_processing t.processing_status) ts)

-- `hasErrorInTransactionProcessing`: whether `find` finds one
unfoldable pub has_error_in_transaction_processing : List TransactionUnderProcessing → Bool
has_error_in_transaction_processing [] = false
has_error_in_transaction_processing (t ∷ ts) =
    is_error t.processing_status || has_error_in_transaction_processing ts

-- `sort((a, b) => a.transactionNumber - b.transactionNumber)`, which is stable
unfoldable pub insert_transaction : Transaction → List Transaction → List Transaction
insert_transaction t [] = t ∷ []
insert_transaction t (u ∷ us) =
    if leb t.transaction_number u.transaction_number
    then t ∷ u ∷ us
    else u ∷ insert_transaction t us

unfoldable pub sort_transactions : List Transaction → List Transaction
sort_transactions [] = []
sort_transactions (t ∷ ts) = insert_transaction t (sort_transactions ts)

unfoldable pub start_processing : Transaction → TransactionUnderProcessing
start_processing t = record { transaction = t; processing_status = processing }

-- The object that `processTransaction` was given, by its place in the list.
unfoldable pub mark_processed :
    ℕ → List TransactionUnderProcessing → List TransactionUnderProcessing
mark_processed i [] = []
mark_processed zero (t ∷ ts) =
    record { transaction = t.transaction; processing_status = processed } ∷ ts
mark_processed (suc i) (t ∷ ts) = t ∷ mark_processed i ts

-- What is spliced off: nothing when adding threw.
unfoldable pub rest_or_all :
    List TransactionUnderProcessing
    → Option (List TransactionUnderProcessing)
    → List TransactionUnderProcessing
rest_or_all all none = all
rest_or_all all (some rest) = rest

module _ (stores : Stores) where
  -- what a version's `processTransaction` does to the operation store
  abbrev pub TransactionProcessor : Type 0
  TransactionProcessor = Transaction → stores.OperationStore → Result (stores.OperationStore × Bool)

  -- The loop over the qualified transactions: each is put in the list and its processing started.
  unfoldable pub fetch : List Transaction → Observer stores → Observer stores
  fetch qualified_transactions o = record {
    transactions_under_processing =
        o.transactions_under_processing
        ++ map start_processing (sort_transactions qualified_transactions);
    transaction_store = o.transaction_store;
    unresolvable_store = o.unresolvable_store;
    operation_store = o.operation_store;
  }

  -- The loop of `storeThenTrimConsecutiveTransactionsProcessed`: the transaction store and the rest of
  -- the list, which is none when adding threw.
  unfoldable pub store_consecutive :
      List TransactionUnderProcessing
      → stores.TransactionStore
      → stores.TransactionStore × Option (List TransactionUnderProcessing)
  store_consecutive [] s = (s, some [])
  store_consecutive (t ∷ ts) s = elim (is_processed t.processing_status) [
    | false ↦ (s, some (t ∷ ts))
    | true ↦ elim (stores.add_transaction t.transaction s) [
      | err e ↦ (s, none)
      | ok s' ↦ store_consecutive ts s'
    ]
  ]

  -- `storeThenTrimConsecutiveTransactionsProcessed`
  unfoldable pub store_then_trim : Observer stores → Observer stores
  store_then_trim o =
      let r = store_consecutive o.transactions_under_processing o.transaction_store in
      record {
        transactions_under_processing = rest_or_all o.transactions_under_processing r.1;
        transaction_store = r.0;
        unresolvable_store = o.unresolvable_store;
        operation_store = o.operation_store;
      }

  -- The `try` of `processTransaction`; what was not stored when it threw is not stored.
  unfoldable pub run_processor :
      Result (Option TransactionProcessor)
      → Transaction
      → stores.OperationStore
      → stores.OperationStore × Bool
  run_processor (err e) t s = (s, false)
  run_processor (ok none) t s = (s, false)
  run_processor (ok (some process)) t s = elim (process t s) [ ok r ↦ r | err e ↦ (s, false) ]

  module _ (versions : List Version) (processors : List (Text × TransactionProcessor)) where
    -- `processTransaction` but for the status
    unfoldable pub process_transaction : Transaction → Observer stores → Observer stores
    process_transaction t o =
        let r =
          run_processor (get_implementation versions processors t.transaction_time) t
            o.operation_store in
        record {
          transactions_under_processing = o.transactions_under_processing;
          transaction_store = o.transaction_store;
          unresolvable_store =
              (if r.1
                then stores.remove_unresolvable_transaction t o.unresolvable_store
                else o.unresolvable_store);
          operation_store = r.0;
        }

    -- `processTransaction` of the transaction at a place in the list, its status at the end included
    unfoldable pub finish_processing : ℕ → Transaction → Observer stores → Observer stores
    finish_processing i t o =
        let p = process_transaction t o in
        record {
          transactions_under_processing = mark_processed i p.transactions_under_processing;
          transaction_store = p.transaction_store;
          unresolvable_store = p.unresolvable_store;
          operation_store = p.operation_store;
        }

  -- `this.transactionsUnderProcessing = []` after an error
  unfoldable pub clear_transactions : Observer stores → Observer stores
  clear_transactions o = record {
    transactions_under_processing = [];
    transaction_store = o.transaction_store;
    unresolvable_store = o.unresolvable_store;
    operation_store = o.operation_store;
  }

  -- `revertInvalidTransactions`, with the number of the best known valid transaction
  unfoldable pub revert_invalid_transactions : Option ℕ → Observer stores → Observer stores
  revert_invalid_transactions best o = record {
    transactions_under_processing = o.transactions_under_processing;
    transaction_store = stores.remove_transactions_later_than best o.transaction_store;
    unresolvable_store =
        stores.remove_unresolvable_transactions_later_than best o.unresolvable_store;
    operation_store = stores.delete_operations best o.operation_store;
  }
