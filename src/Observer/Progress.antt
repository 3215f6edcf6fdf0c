-- ===== src/Observer/Progress.antt =====
-- Over packages/core/src/Observer.ts: what becomes of the transactions that qualify.
use mathlib.Core.List.{Memᴰ}
use mathlib.Core.List.Memᴰ
use mathlib.Core.Path.{subst}
use sidetree_js.Prelude.{
  ℕ, zero, suc, ◌≡◌, refl, sym, ap, ◌⊎◌, inl, inr, Bool, true, false, Option, none, some, List, [],
  ◌∷◌, ◌++◌, map, arith, if◌then◌else◌, leb→le, Bool-cases, filter,
}
use sidetree_js.Prelude.Text.{Text}
use sidetree_js.Ledger.{Transaction}
use sidetree_js.Versions.{Version}
use sidetree_js.Observer.{
  TransactionUnderProcessing, Stores, Observer, get_count_of_transactions_under_processing,
  has_error_in_transaction_processing, is_error, start_processing, mark_processed,
  sort_transactions, TransactionProcessor, fetch, store_consecutive, rest_or_all, store_then_trim,
  process_transaction, finish_processing, revert_invalid_transactions,
}
use sidetree_js.Observer.Steps.{is_kept, Reachable}
use sidetree_js.Observer.Trimming.{
  transactions_of, transactions_of-start, has_error-tail, store_consecutive-rest,
  store_consecutive-IsKeptIn, store_consecutive-all,
}

-- No transaction stopped the others, each of the given ones is in the store or in the list, and the list
-- has no others.
pub record IsOnTrack (stores : Stores) (o : Observer stores) (ts : List Transaction) : Type 0 where
  pub no_error : has_error_in_transaction_processing o.transactions_under_processing ≡ false
  pub kept :
      (t : Transaction)
      → Memᴰ t ts
      → (stores.has_transaction t.transaction_number o.transaction_store ≡ true)
        ⊎ Memᴰ t (transactions_of o.transactions_under_processing)
  pub known :
      (t : Transaction) → Memᴰ t (transactions_of o.transactions_under_processing) → Memᴰ t ts

mem-filter :
    (t : Transaction) (p : Transaction → Bool) (ts : List Transaction)
    → Memᴰ t (filter p ts)
    → Memᴰ t ts × (p t ≡ true)
mem-filter t p [] m = elim m [ ]
mem-filter t p (x ∷ ts) m = elim (Bool-cases (p x)) [
  | inl fits ↦
      elim (Memᴰ.cases_cons
        (subst (λ b. Memᴰ t (if b then x ∷ filter p ts else filter p ts)) fits m)) [
          | inl same ↦ (Memᴰ.head same, subst (λ y. p y ≡ true) (sym same) fits)
          | inr later ↦ let r = mem-filter t p ts later in (Memᴰ.tail r.0, r.1)
        ]
  | inr misfits ↦
      let r =
        mem-filter t p ts
          (subst (λ b. Memᴰ t (if b then x ∷ filter p ts else filter p ts)) misfits m) in
      (Memᴰ.tail r.0, r.1)
]

has_error-start :
    (us : List TransactionUnderProcessing) (ts : List Transaction)
    → has_error_in_transaction_processing us ≡ false
    → has_error_in_transaction_processing (us ++ map start_processing ts) ≡ false
unfolding has_error_in_transaction_processing is_error start_processing
has_error-start [] [] h = refl
has_error-start [] (t ∷ ts) h = has_error-start [] ts h
has_error-start (u ∷ us) ts h = ground (arith, has_error-start us ts)

transactions_of-mark :
    (i : ℕ) (us : List TransactionUnderProcessing)
    → transactions_of (mark_processed i us) ≡ transactions_of us
unfolding mark_processed
transactions_of-mark i [] = refl
transactions_of-mark zero (u ∷ us) = refl
transactions_of-mark (suc i) (u ∷ us) = ap (λ l. u.transaction ∷ l) (transactions_of-mark i us)

has_error-mark :
    (i : ℕ) (us : List TransactionUnderProcessing)
    → has_error_in_transaction_processing us ≡ false
    → has_error_in_transaction_processing (mark_processed i us) ≡ false
unfolding mark_processed has_error_in_transaction_processing is_error
has_error-mark i [] h = refl
has_error-mark zero (u ∷ us) h = ground arith
has_error-mark (suc i) (u ∷ us) h = ground (arith, has_error-mark i us)

module _ (stores : Stores) (versions : List Version)
    (processors : List (Text × TransactionProcessor stores)) where
  store_then_trim-IsOnTrack :
      (o : Observer stores) (ts : List Transaction)
      → IsOnTrack stores o ts
      → IsOnTrack stores (store_then_trim stores o) ts
  unfolding store_then_trim
  store_then_trim-IsOnTrack o ts on = record {
    no_error =
        store_consecutive-rest stores (λ us. has_error_in_transaction_processing us ≡ false)
          (λ u us h. (has_error-tail u us h).1) o.transactions_under_processing o.transaction_store
          on.no_error;
    kept = λ t m. elim (on.kept t m) [
      | inl stored ↦ inl (
          (store_consecutive-IsKeptIn stores t o.transactions_under_processing
              o.transaction_store).0
            stored)
      | inr under ↦
          (store_consecutive-IsKeptIn stores t o.transactions_under_processing
              o.transaction_store).1
            under
    ];
    known = λ t.
        store_consecutive-rest stores (λ us. Memᴰ t (transactions_of us) → Memᴰ t ts)
          (λ u us h m. h (Memᴰ.tail m)) o.transactions_under_processing o.transaction_store
          (on.known t);
  }

  fetch-IsOnTrack :
      (o : Observer stores) (ts qualified : List Transaction)
      → IsOnTrack stores o ts
      → IsOnTrack stores (fetch stores qualified o) (ts ++ sort_transactions qualified)
  unfolding fetch
  fetch-IsOnTrack o ts qualified on =
      let us = o.transactions_under_processing in
      let new = sort_transactions qualified in
      record {
        no_error = has_error-start us new on.no_error;
        kept = λ t m.
            subst
              (λ l.
                (stores.has_transaction t.transaction_number o.transaction_store ≡ true) ⊎ Memᴰ t l)
              (sym (transactions_of-start us new))
              (elim (Memᴰ.append_cases ts m) [
                | inl old ↦ elim (on.kept t old) [
                  | inl stored ↦ inl stored
                  | inr under ↦ inr (Memᴰ.append_left new under)
                ]
                | inr added ↦ inr (Memᴰ.append_right (transactions_of us) added)
              ]);
        known = λ t m.
            elim (Memᴰ.append_cases (transactions_of us)
              (subst (Memᴰ t) (transactions_of-start us new) m)) [
                | inl under ↦ Memᴰ.append_left new (on.known t under)
                | inr added ↦ Memᴰ.append_right ts added
              ];
      }

  process_transaction-IsOnTrack :
      (o : Observer stores) (ts : List Transaction) (t : Transaction)
      → IsOnTrack stores o ts
      → IsOnTrack stores (process_transaction stores versions processors t o) ts
  unfolding process_transaction
  process_transaction-IsOnTrack o ts t on = record {
    no_error = on.no_error;
    kept = on.kept;
    known = on.known;
  }

  finish_processing-IsOnTrack :
      (o : Observer stores) (ts : List Transaction) (i : ℕ) (t : Transaction)
      → IsOnTrack stores o ts
      → IsOnTrack stores (finish_processing stores versions processors i t o) ts
  unfolding finish_processing process_transaction
  finish_processing-IsOnTrack o ts i t on =
      let us = o.transactions_under_processing in
      record {
        no_error = has_error-mark i us on.no_error;
        kept = λ u m.
            subst
              (λ l.
                (stores.has_transaction u.transaction_number o.transaction_store ≡ true) ⊎ Memᴰ u l)
              (sym (transactions_of-mark i us)) (on.kept u m);
        known = λ u m. on.known u (subst (Memᴰ u) (transactions_of-mark i us) m);
      }

  is_kept-has :
      (best : Option ℕ) (t : Transaction) (s : stores.TransactionStore)
      → is_kept best t ≡ true
      → stores.has_transaction t.transaction_number s ≡ true
      → stores.has_transaction t.transaction_number (stores.remove_transactions_later_than best s)
        ≡ true
  unfolding is_kept
  is_kept-has none t s k h = cc k
  is_kept-has (some n) t s k h =
      stores.has-remove t.transaction_number n s (leb→le t.transaction_number n k) h

  trimmed-all :
      (o : Observer stores) (rest : List TransactionUnderProcessing)
      → has_error_in_transaction_processing o.transactions_under_processing ≡ false
      → get_count_of_transactions_under_processing o.transactions_under_processing ≡ 0
      → (store_consecutive stores o.transactions_under_processing o.transaction_store).1 ≡ some rest
      → (store_then_trim stores o).transactions_under_processing ≡ []
  unfolding store_then_trim rest_or_all
  trimmed-all o rest h c e =
      rw e (
        store_consecutive-all stores o.transactions_under_processing rest o.transaction_store h c e)

  revert-IsOnTrack :
      (best : Option ℕ) (o : Observer stores) (ts : List Transaction)
      → o.transactions_under_processing ≡ []
      → IsOnTrack stores o ts
      → IsOnTrack stores (revert_invalid_transactions stores best o) (filter (is_kept best) ts)
  unfolding revert_invalid_transactions
  revert-IsOnTrack best o ts empty on = record {
    no_error = on.no_error;
    kept = λ t m.
        let r = mem-filter t (is_kept best) ts m in
        elim (on.kept t r.0) [
          | inl stored ↦ inl (is_kept-has best t o.transaction_store r.1 stored)
          | inr under ↦ inr under
        ];
    known = λ t m. elim (subst (λ us. Memᴰ t (transactions_of us)) empty m) [ ];
  }

  -- Of the transactions that were fetched, those that qualify are put in the list. In every state that
  -- the observer reaches, each transaction put there since it started and not reverted by a later
  -- reorganization is still in the list, or one of its number is in the transaction store; the list
  -- has only such transactions; and none has the status `error`. A reorganization reverts what is
  -- later than its best known valid transaction, and all where it knows none.
  pub reachable-IsOnTrack :
      (o : Observer stores) (ts : List Transaction)
      → Reachable stores versions processors o ts
      → IsOnTrack stores o ts
  unfolding has_error_in_transaction_processing
  reachable-IsOnTrack o ts (Reachable.started s u d) = record {
    no_error = refl;
    kept = λ t m. elim m [ ];
    known = λ t m. m;
  }
  reachable-IsOnTrack o ts (Reachable.fetched p us qualified r) =
      fetch-IsOnTrack p us qualified (reachable-IsOnTrack p us r)
  reachable-IsOnTrack o ts (Reachable.finished p us i u r at running) =
      finish_processing-IsOnTrack p us i u.transaction (reachable-IsOnTrack p us r)
  reachable-IsOnTrack o ts (Reachable.retried p us t r) =
      process_transaction-IsOnTrack p us t (reachable-IsOnTrack p us r)
  reachable-IsOnTrack o ts (Reachable.trimmed p us r) =
      store_then_trim-IsOnTrack p us (reachable-IsOnTrack p us r)
  reachable-IsOnTrack o ts (Reachable.cleared p us r failed none_left) =
      cc (failed, (reachable-IsOnTrack p us r).no_error)
  reachable-IsOnTrack o ts (Reachable.reorganized p us best rest r none_left stored) =
      let on = reachable-IsOnTrack p us r in
      revert-IsOnTrack best (store_then_trim stores p) us
        (trimmed-all p rest on.no_error none_left stored) (store_then_trim-IsOnTrack p us on)
