-- ===== src/Observer/Rounds.antt =====
-- packages/core/src/Observer.ts, `processTransactions`: one reading of the blockchain.
use sidetree_js.Prelude.{
  ℕ, ◌≡◌, refl, ap, ◌∙◌, Bool, true, false, Option, none, some, List, [], ◌∷◌, ◌++◌, map,
}
use sidetree_js.Prelude.Text.{Text}
use sidetree_js.Errors.{Failure, Result, ok, err, ◌>>=◌}
use sidetree_js.Ledger.{Transaction}
use sidetree_js.Ledger.Throughput.{Selectors, get_qualified_transactions}
use sidetree_js.Observer.{
  Stores, Observer, is_processed, start_processing, sort_transactions, fetch, store_consecutive,
  rest_or_all, store_then_trim,
}
use sidetree_js.Observer.Trimming.{
  transactions_of, transactions_of-start, store_consecutive-stop, store_consecutive-nil,
}

-- What `blockchain.read` gives or throws: transactions and whether there are more, the error by which
-- it says that its arguments are invalid, or another error.
pub data ReadResult : Type 0 where
  read_transactions : List Transaction → Bool → ReadResult
  invalid_transaction_number_or_time_hash : ReadResult
  read_failure : Failure → ReadResult

unfoldable pub cursor_transaction_number : Option Transaction → Option ℕ
cursor_transaction_number none = none
cursor_transaction_number (some t) = some t.transaction_number

unfoldable pub cursor_transaction_time_hash : Option Transaction → Option Text
cursor_transaction_time_hash none = none
cursor_transaction_time_hash (some t) = some t.transaction_time_hash

module _ (stores : Stores) (selectors : Selectors)
    (read : Option ℕ → Option Text → ReadResult) where
  -- The observer after a reading, whether there are more transactions, and whether the blockchain
  -- refused the cursor.
  unfoldable pub queue_transactions :
      ReadResult → Observer stores → Result (Observer stores × Bool × Bool)
  queue_transactions (read_transactions transactions more) o = do
    qualified ← get_qualified_transactions selectors transactions
    ok (fetch stores qualified o, more, false)
  queue_transactions invalid_transaction_number_or_time_hash o = do
    qualified ← get_qualified_transactions selectors []
    ok (fetch stores qualified o, false, true)
  queue_transactions (read_failure e) o = err e

  -- The body of the loop up to the check for a reorganization.
  unfoldable pub fetch_transactions : Observer stores → Result (Observer stores × Bool × Bool)
  fetch_transactions o =
      let cursor = stores.get_last_transaction o.transaction_store in
      queue_transactions
        (read (cursor_transaction_number cursor) (cursor_transaction_time_hash cursor)) o

  fetch_transactions-eq :
      (o : Observer stores) (transactions qualified : List Transaction) (more : Bool)
      → read
          (cursor_transaction_number (stores.get_last_transaction o.transaction_store))
          (cursor_transaction_time_hash (stores.get_last_transaction o.transaction_store))
        ≡ read_transactions transactions more
      → get_qualified_transactions selectors transactions ≡ ok qualified
      → fetch_transactions o ≡ ok (fetch stores qualified o, more, false)
  unfolding fetch_transactions queue_transactions
  fetch_transactions-eq o transactions qualified more r q = rw (r, q) refl

  -- Nothing is stored while all are under processing.
  store_consecutive-start :
      (ts : List Transaction) (s : stores.TransactionStore)
      → store_consecutive stores (map start_processing ts) s ≡ (s, some (map start_processing ts))
  unfolding start_processing is_processed
  store_consecutive-start [] s = store_consecutive-nil stores s
  store_consecutive-start (t ∷ ts) s =
      store_consecutive-stop stores (start_processing t) (map start_processing ts) s refl

  store_then_trim-fetch :
      (o : Observer stores) (qualified : List Transaction)
      → o.transactions_under_processing ≡ []
      → (stores.get_last_transaction
            (store_then_trim stores (fetch stores qualified o)).transaction_store
          ≡ stores.get_last_transaction o.transaction_store)
        × (transactions_of
              (store_then_trim stores (fetch stores qualified o)).transactions_under_processing
            ≡ sort_transactions qualified)
  unfolding store_then_trim fetch rest_or_all
  store_then_trim-fetch o qualified empty =
      let started = store_consecutive-start (sort_transactions qualified) o.transaction_store in
      rw (empty, started) (refl, transactions_of-start [] (sort_transactions qualified))

  -- A reading begins at the last transaction of the store: when the list is empty, the blockchain has
  -- transactions to give there, the choice of those that qualify does not throw, and none is processed
  -- before the next reading, that reading fetches them again, and the list has each one that
  -- qualifies twice.
  pub fetch_transactions-twice :
      (o : Observer stores) (transactions qualified : List Transaction) (more : Bool)
      → o.transactions_under_processing ≡ []
      → read
          (cursor_transaction_number (stores.get_last_transaction o.transaction_store))
          (cursor_transaction_time_hash (stores.get_last_transaction o.transaction_store))
        ≡ read_transactions transactions more
      → get_qualified_transactions selectors transactions ≡ ok qualified
      → (after : Observer stores) × ((fetch_transactions o
            >>= (λ r. fetch_transactions (store_then_trim stores r.0)))
          ≡ ok (after, more, false))
        × (transactions_of after.transactions_under_processing
            ≡ sort_transactions qualified ++ sort_transactions qualified)
  unfolding fetch
  fetch_transactions-twice o transactions qualified more empty r q =
      let between = store_then_trim stores (fetch stores qualified o) in
      let same = store_then_trim-fetch o qualified empty in
      (
        fetch stores qualified between,
        rw (fetch_transactions-eq o transactions qualified more r q)
            (fetch_transactions-eq between transactions qualified more (rw same.0 r) q),
        transactions_of-start between.transactions_under_processing (sort_transactions qualified)
            ∙ ap (λ l. l ++ sort_transactions qualified) same.1,
      )
