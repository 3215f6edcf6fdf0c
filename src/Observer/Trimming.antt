-- ===== src/Observer/Trimming.antt =====
-- Over packages/core/src/Observer.ts, `storeThenTrimConsecutiveTransactionsProcessed`: what is stored and
-- what is left in the list.
use mathlib.Core.List.{Memᴰ}
use mathlib.Core.List.Memᴰ
use mathlib.Core.Path.{subst}
use sidetree_js.Prelude.{
  ◌≡◌, refl, sym, ap, ◌∙◌, ◌⊎◌, inl, inr, true, false, Option, none, some, List, [], ◌∷◌, ◌++◌, map,
  arith, Bool-cases,
}
use sidetree_js.Errors.{Failure, ok, err, Result-cases}
use sidetree_js.Ledger.{Transaction}
use sidetree_js.Observer.{
  TransactionProcessingStatus, error, processing, processed, TransactionUnderProcessing, Stores,
  get_count_of_transactions_under_processing, has_error_in_transaction_processing, is_processing,
  is_processed, is_error, start_processing, store_consecutive, rest_or_all,
}

abbrev pub transactions_of : List TransactionUnderProcessing → List Transaction
transactions_of [] = []
transactions_of (u ∷ us) = u.transaction ∷ transactions_of us

pub transactions_of-start :
    (us : List TransactionUnderProcessing) (ts : List Transaction)
    → transactions_of (us ++ map start_processing ts) ≡ transactions_of us ++ ts
unfolding start_processing
transactions_of-start [] [] = refl
transactions_of-start [] (t ∷ ts) = ap (λ l. t ∷ l) (transactions_of-start [] ts)
transactions_of-start (u ∷ us) ts = ap (λ l. u.transaction ∷ l) (transactions_of-start us ts)

status-cases :
    (s : TransactionProcessingStatus)
    → is_processed s ≡ false
    → (is_processing s ≡ true) ⊎ (is_error s ≡ true)
unfolding is_processed is_processing is_error
status-cases error h = inr refl
status-cases processing h = inl refl
status-cases processed h = ground arith

pub has_error-tail :
    (u : TransactionUnderProcessing) (us : List TransactionUnderProcessing)
    → has_error_in_transaction_processing (u ∷ us) ≡ false
    → (is_error u.processing_status ≡ false) × (has_error_in_transaction_processing us ≡ false)
unfolding has_error_in_transaction_processing
has_error-tail u us h = ground arith

count-processing :
    (u : TransactionUnderProcessing) (us : List TransactionUnderProcessing)
    → get_count_of_transactions_under_processing (u ∷ us) ≡ 0
    → (is_processing u.processing_status ≡ false)
      × (get_count_of_transactions_under_processing us ≡ 0)
unfolding get_count_of_transactions_under_processing
count-processing u us h = elim (Bool-cases (is_processing u.processing_status)) [
  | inl waiting ↦ ground (arith, waiting)
  | inr done ↦ ground (arith, done)
]

widen :
    (P : List TransactionUnderProcessing → Type 0) (u : TransactionUnderProcessing)
    (us : List TransactionUnderProcessing) (rest : Option (List TransactionUnderProcessing))
    → P (u ∷ us)
    → P (rest_or_all us rest)
    → P (rest_or_all (u ∷ us) rest)
unfolding rest_or_all
widen P u us none all p = all
widen P u us (some rest) all p = p

module _ (stores : Stores) where
  pub store_consecutive-nil :
      (s : stores.TransactionStore) → store_consecutive stores [] s ≡ (s, some [])
  unfolding store_consecutive
  store_consecutive-nil s = refl

  pub store_consecutive-stop :
      (u : TransactionUnderProcessing) (us : List TransactionUnderProcessing)
      (s : stores.TransactionStore)
      → is_processed u.processing_status ≡ false
      → store_consecutive stores (u ∷ us) s ≡ (s, some (u ∷ us))
  unfolding store_consecutive
  store_consecutive-stop u us s h = rw (store_consecutive, h) refl

  store_consecutive-add :
      (u : TransactionUnderProcessing) (us : List TransactionUnderProcessing)
      (s s' : stores.TransactionStore)
      → is_processed u.processing_status ≡ true
      → stores.add_transaction u.transaction s ≡ ok s'
      → store_consecutive stores (u ∷ us) s ≡ store_consecutive stores us s'
  unfolding store_consecutive
  store_consecutive-add u us s s' h e = rw (store_consecutive, h, e) refl

  store_consecutive-throw :
      (u : TransactionUnderProcessing) (us : List TransactionUnderProcessing)
      (s : stores.TransactionStore) (f : Failure)
      → is_processed u.processing_status ≡ true
      → stores.add_transaction u.transaction s ≡ err f
      → store_consecutive stores (u ∷ us) s ≡ (s, none)
  unfolding store_consecutive
  store_consecutive-throw u us s f h e = rw (store_consecutive, h, e) refl

  -- The three ways of the loop at an element, by which the lemmas below are proved.
  store_consecutive-elim :
      (P : List TransactionUnderProcessing
        → stores.TransactionStore
        → stores.TransactionStore × Option (List TransactionUnderProcessing)
        → Type 0)
      → ((s : stores.TransactionStore) → P [] s (s, some []))
      → ((us : List TransactionUnderProcessing) (s : stores.TransactionStore) → P us s (s, some us))
      → ((us : List TransactionUnderProcessing) (s : stores.TransactionStore) → P us s (s, none))
      → ((u : TransactionUnderProcessing) (us : List TransactionUnderProcessing)
            (s s' : stores.TransactionStore)
            (r : stores.TransactionStore × Option (List TransactionUnderProcessing))
          → stores.add_transaction u.transaction s ≡ ok s'
          → P us s' r
          → P (u ∷ us) s r)
      → (us : List TransactionUnderProcessing) (s : stores.TransactionStore)
      → P us s (store_consecutive stores us s)
  store_consecutive-elim P end stop throw add [] s =
      subst (P [] s) (sym (store_consecutive-nil s)) (end s)
  store_consecutive-elim P end stop throw add (u ∷ us) s =
      elim (Bool-cases (is_processed u.processing_status)) [
        | inr waiting ↦
            subst (P (u ∷ us) s) (sym (store_consecutive-stop u us s waiting)) (stop (u ∷ us) s)
        | inl done ↦ elim (Result-cases (stores.add_transaction u.transaction s)) [
          | inl (f, threw) ↦
              subst (P (u ∷ us) s) (sym (store_consecutive-throw u us s f done threw))
                (throw (u ∷ us) s)
          | inr (s', added) ↦
              subst (P (u ∷ us) s) (sym (store_consecutive-add u us s s' done added)) (
                add u us s s' (store_consecutive stores us s') added
                  (store_consecutive-elim P end stop throw add us s'))
        ]
      ]

  -- What holds of the list and of its tails holds of what is left of it.
  pub store_consecutive-rest :
      (P : List TransactionUnderProcessing → Type 0)
      → ((u : TransactionUnderProcessing) (us : List TransactionUnderProcessing)
          → P (u ∷ us)
          → P us)
      → (us : List TransactionUnderProcessing) (s : stores.TransactionStore) → P us
      → P (rest_or_all us (store_consecutive stores us s).1)
  unfolding rest_or_all
  store_consecutive-rest P tail =
      store_consecutive-elim (λ us s r. P us → P (rest_or_all us r.1)) (λ s h. h) (λ us s h. h)
        (λ us s h. h) (λ u us s s' r added below h. widen P u us r.1 h (below (tail u us h)))

  -- Storing loses nothing of the store, and a transaction of the list is stored or left in it.
  abbrev pub IsKeptIn :
      Transaction
      → List TransactionUnderProcessing
      → stores.TransactionStore
      → stores.TransactionStore × Option (List TransactionUnderProcessing)
      → Type 0
  IsKeptIn t us s r =
      (stores.has_transaction t.transaction_number s ≡ true
        → stores.has_transaction t.transaction_number r.0 ≡ true)
      × (Memᴰ t (transactions_of us)
          → (stores.has_transaction t.transaction_number r.0 ≡ true)
            ⊎ Memᴰ t (transactions_of (rest_or_all us r.1)))

  pub store_consecutive-IsKeptIn :
      (t : Transaction) (us : List TransactionUnderProcessing) (s : stores.TransactionStore)
      → IsKeptIn t us s (store_consecutive stores us s)
  unfolding rest_or_all
  store_consecutive-IsKeptIn t =
      store_consecutive-elim (IsKeptIn t) (λ s. (λ h. h, λ m. inr m)) (λ us s. (λ h. h, λ m. inr m))
        (λ us s. (λ h. h, λ m. inr m))
        (λ u us s s' r added below. (
          λ h. below.0 (stores.has-add_other t.transaction_number u.transaction s s' added h),
          λ m. elim (Memᴰ.cases_cons m) [
            | inl same ↦ inl (
                below.0 (
                  subst (λ x. stores.has_transaction x.transaction_number s' ≡ true) (sym same)
                    (stores.has-add u.transaction s s' added)))
            | inr later ↦ elim (below.1 later) [
              | inl stored ↦ inl stored
              | inr rest ↦ inr (widen (λ l. Memᴰ t (transactions_of l)) u us r.1 m rest)
            ]
          ],
        ))

  -- When none is under processing and none is an error, all are stored or adding one threw.
  pub store_consecutive-all :
      (us rest : List TransactionUnderProcessing) (s : stores.TransactionStore)
      → has_error_in_transaction_processing us ≡ false
      → get_count_of_transactions_under_processing us ≡ 0
      → (store_consecutive stores us s).1 ≡ some rest
      → rest ≡ []
  store_consecutive-all [] rest s h c e = cc (e, store_consecutive-nil s)
  store_consecutive-all (u ∷ us) rest s h c e =
      elim (Bool-cases (is_processed u.processing_status)) [
        | inr waiting ↦ elim (status-cases u.processing_status waiting) [
          | inl running ↦ cc (running, (count-processing u us c).0)
          | inr failed ↦ cc (failed, (has_error-tail u us h).0)
        ]
        | inl done ↦ elim (Result-cases (stores.add_transaction u.transaction s)) [
          | inl (f, threw) ↦ cc (e, ap (λ r. r.1) (store_consecutive-throw u us s f done threw))
          | inr (s', added) ↦
              store_consecutive-all us rest s' (has_error-tail u us h).1 (count-processing u us c).1
                (sym (ap (λ r. r.1) (store_consecutive-add u us s s' done added)) ∙ e)
        ]
      ]
