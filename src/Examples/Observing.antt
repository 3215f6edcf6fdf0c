-- ===== src/Examples/Observing.antt =====
-- The theorems on the observer at two transactions, the later of which is given first.
use mathlib.Core.Path.{subst}
use sidetree_js.Prelude.{
  ℕ, ◌≤◌, ◌≡◌, refl, Bool, true, false, ◌&&◌, ◌||◌, Option, none, some, List, [], ◌∷◌, ◌++◌, arith,
  leb, ◌==◌, get_elem?,
}
use sidetree_js.Prelude.Text.{Text, codes}
use sidetree_js.Errors.{ok, ◌>>=◌, ok-injective}
use sidetree_js.Ledger.{Transaction}
use sidetree_js.Ledger.Throughput
use sidetree_js.Ledger.Throughput.{Selectors, get_qualified_transactions}
use sidetree_js.Versions.{Version}
use sidetree_js.Observer
use sidetree_js.Observer.{
  Stores, Observer, TransactionProcessor, fetch, start_processing, sort_transactions,
  finish_processing, store_then_trim,
}
use sidetree_js.Observer.Steps.{Reachable}
use sidetree_js.Observer.Trimming.{transactions_of}
use sidetree_js.Observer.Progress.{IsOnTrack, reachable-IsOnTrack}
use sidetree_js.Observer.Rounds.{
  ReadResult, read_transactions, fetch_transactions, fetch_transactions-twice,
}

-- the numbers that are stored
abbrev insert : Transaction → (ℕ → Bool) → (ℕ → Bool)
insert t s = λ n. (n == t.transaction_number) || s n

abbrev remove : Option ℕ → (ℕ → Bool) → (ℕ → Bool)
remove none s = λ n. false
remove (some m) s = λ n. leb n m && s n

insert-has : (t : Transaction) (s : ℕ → Bool) → insert t s t.transaction_number ≡ true
insert-has t s = ground arith

insert-other : (n : ℕ) (t : Transaction) (s : ℕ → Bool) → s n ≡ true → insert t s n ≡ true
insert-other n t s h = ground arith

remove-has : (n m : ℕ) (s : ℕ → Bool) → n ≤ m → s n ≡ true → (leb n m && s n) ≡ true
remove-has n m s le h = ground arith

abbrev stores : Stores
stores = record {
  TransactionStore = ℕ → Bool;
  add_transaction = λ t s. ok (insert t s);
  get_last_transaction = λ s. none;
  remove_transactions_later_than = remove;
  has_transaction = λ n s. s n;
  UnresolvableStore = List Transaction;
  remove_unresolvable_transaction = λ t s. s;
  remove_unresolvable_transactions_later_than = λ n s. s;
  OperationStore = List Text;
  delete_operations = λ n s. s;
  has-add =
      λ t s s' e. subst (λ f. f t.transaction_number ≡ true) (ok-injective e) (insert-has t s);
  has-add_other = λ n t s s' e h. subst (λ f. f n ≡ true) (ok-injective e) (insert-other n t s h);
  has-remove = remove-has;
}

abbrev first : Transaction
first = record {
  transaction_number = 1;
  transaction_time = 9;
  transaction_time_hash = [];
  anchor_string = codes "1.a";
  transaction_fee_paid = 10;
  normalized_transaction_fee = none;
  writer = codes "w";
}

abbrev second : Transaction
second = record first { transaction_number = 2 }

abbrev versions : List Version
versions = record { starting_blockchain_time = 0; version = codes "v" } ∷ []

abbrev processors : List (Text × TransactionProcessor stores)
processors = (codes "v", λ t s. ok (t.anchor_string ∷ s, true)) ∷ []

abbrev at_start : Observer stores
at_start = record {
  transactions_under_processing = [];
  transaction_store = λ n. false;
  unresolvable_store = [];
  operation_store = [];
}

runs :
    (get_elem? (fetch stores (second ∷ first ∷ []) at_start).transactions_under_processing 0
      ≡ some (start_processing first))
    × (Observer.is_processing (start_processing first).processing_status ≡ true)
    × (get_qualified_transactions (λ n. ok (λ ts. ok ts)) (second ∷ first ∷ [])
        ≡ ok (second ∷ first ∷ []))
unfolding fetch start_processing sort_transactions Observer.insert_transaction
    Observer.is_processing Throughput.get_qualified_transactions Throughput.select_groups
    Throughput.group_by_time Throughput.group_from Throughput.is_new_time Throughput.push_last
runs = (refl, refl, refl)

abbrev after_first : Observer stores
after_first = store_then_trim stores (
    finish_processing stores versions processors 0 first
      (fetch stores (second ∷ first ∷ []) at_start))

reached :
    Reachable stores versions processors after_first ([] ++ sort_transactions (second ∷ first ∷ []))
unfolding start_processing
reached =
    Reachable.trimmed
      (finish_processing stores versions processors 0 first
        (fetch stores (second ∷ first ∷ []) at_start))
      ([] ++ sort_transactions (second ∷ first ∷ []))
      (Reachable.finished (fetch stores (second ∷ first ∷ []) at_start)
        ([] ++ sort_transactions (second ∷ first ∷ [])) 0 (start_processing first)
        (Reachable.fetched at_start [] (second ∷ first ∷ []) (Reachable.started (λ n. false) [] []))
        runs.0 runs.1)

reachable-IsOnTrack_example :
    IsOnTrack stores after_first ([] ++ sort_transactions (second ∷ first ∷ []))
reachable-IsOnTrack_example =
    reachable-IsOnTrack stores versions processors after_first
      ([] ++ sort_transactions (second ∷ first ∷ [])) reached

abbrev give_all : Selectors
give_all = λ n. ok (λ ts. ok ts)

abbrev read : Option ℕ → Option Text → ReadResult
read number hash = read_transactions (second ∷ first ∷ []) true

fetch_transactions-twice_example :
    (after : Observer stores) × ((fetch_transactions stores give_all read at_start
        >>= (λ r. fetch_transactions stores give_all read (store_then_trim stores r.0)))
      ≡ ok (after, true, false))
    × (transactions_of after.transactions_under_processing
        ≡ sort_transactions (second ∷ first ∷ []) ++ sort_transactions (second ∷ first ∷ []))
fetch_transactions-twice_example =
    fetch_transactions-twice stores give_all read at_start (second ∷ first ∷ [])
      (second ∷ first ∷ []) true refl refl runs.2
