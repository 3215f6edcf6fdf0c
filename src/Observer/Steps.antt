-- ===== src/Observer/Steps.antt =====
-- packages/core/src/Observer.ts, `processTransactions`: the states that its loop and the processing of
-- transactions, which it does not wait for, reach in any order.
use sidetree_js.Prelude.{
  ℕ, ◌≡◌, Bool, true, false, Option, none, some, List, [], ◌++◌, leb, get_elem?, filter,
}
use sidetree_js.Prelude.Text.{Text}
use sidetree_js.Ledger.{Transaction}
use sidetree_js.Versions.{Version}
use sidetree_js.Observer.{
  TransactionUnderProcessing, Stores, Observer, get_count_of_transactions_under_processing,
  has_error_in_transaction_processing, is_processing, sort_transactions, TransactionProcessor,
  fetch, store_consecutive, store_then_trim, process_transaction, finish_processing,
  clear_transactions, revert_invalid_transactions,
}

-- Is a transaction kept when those later than the best known valid one are reverted?
unfoldable pub is_kept : Option ℕ → Transaction → Bool
is_kept none t = false
is_kept (some n) t = leb t.transaction_number n

module _ (stores : Stores) (versions : List Version)
    (processors : List (Text × TransactionProcessor stores)) where
  -- The states of the observer, each with the transactions that were fetched and qualified, in the
  -- order in which they were put in the list, but those that a reorganization has reverted. The loop
  -- goes on after `store_then_trim` only when nothing threw there, and waits until few enough
  -- transactions are under processing.
  pub data Reachable : Observer stores → List Transaction → Type 0 where
    -- a new process, on the stores as it finds them
    started :
        (s : stores.TransactionStore) (u : stores.UnresolvableStore) (d : stores.OperationStore)
        → Reachable
            (record {
              transactions_under_processing = [];
              transaction_store = s;
              unresolvable_store = u;
              operation_store = d;
            })
            []
    fetched :
        (o : Observer stores) (ts qualified : List Transaction)
        → Reachable o ts
        → Reachable (fetch stores qualified o) (ts ++ sort_transactions qualified)
    -- the processing of a transaction of the list ends
    finished :
        (o : Observer stores) (ts : List Transaction) (i : ℕ) (u : TransactionUnderProcessing)
        → Reachable o ts
        → get_elem? o.transactions_under_processing i ≡ some u
        → is_processing u.processing_status ≡ true
        → Reachable (finish_processing stores versions processors i u.transaction o) ts
    -- the processing of an unresolvable transaction ends
    retried :
        (o : Observer stores) (ts : List Transaction) (t : Transaction)
        → Reachable o ts
        → Reachable (process_transaction stores versions processors t o) ts
    trimmed :
        (o : Observer stores) (ts : List Transaction)
        → Reachable o ts
        → Reachable (store_then_trim stores o) ts
    cleared :
        (o : Observer stores) (ts : List Transaction)
        → Reachable o ts
        → has_error_in_transaction_processing o.transactions_under_processing ≡ true
        → get_count_of_transactions_under_processing o.transactions_under_processing ≡ 0
        → Reachable (clear_transactions stores (store_then_trim stores o)) ts
    reorganized :
        (o : Observer stores) (ts : List Transaction) (best : Option ℕ)
        (rest : List TransactionUnderProcessing)
        → Reachable o ts
        → get_count_of_transactions_under_processing o.transactions_under_processing ≡ 0
        → (store_consecutive stores o.transactions_under_processing o.transaction_store).1
          ≡ some rest
        → Reachable
            (revert_invalid_transactions stores best (store_then_trim stores o))
            (filter (is_kept best) ts)
