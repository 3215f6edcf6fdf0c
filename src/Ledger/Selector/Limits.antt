-- ===== src/Ledger/Selector/Limits.antt =====
-- The transactions that are selected keep to the limits of a block.
use mathlib.Core.List.{Perm, perm_middle}
use mathlib.Core.List.Perm
use mathlib.Core.Path.{subst}
use sidetree_js.Prelude.{
  ℕ, zero, suc, ◌+◌, ◌-◌, ◌≤◌, ◌<◌, ◌≡◌, refl, sym, ap, ◌∙◌, ◌⊎◌, inl, inr, Bool, true, false, ◌||◌,
  Option, some, List, [], ◌∷◌, ◌++◌, append-nil, append_assoc, arith, leb, if◌then◌else◌,
  Bool-cases, Option-cases, length, length-append, All,
}
use sidetree_js.Prelude.Text.{Text, text_eq, text_eq_iff}
use sidetree_js.Errors.{Result, ok, err, Result-cases}
use sidetree_js.Prelude.JsMap.{has, set}
use sidetree_js.Parameters.{
  max_number_of_operations_per_transaction_time, max_number_of_transactions_per_transaction_time,
}
use sidetree_js.Ledger.{Transaction}
use sidetree_js.Ledger.Selector.{
  comes_before, validate_transactions, number_of_operations_in, add_operations, count_operations,
  get_number_of_operations_and_transactions_already_in_transaction_time, take_transaction, goes_on,
  enqueue_from, enqueue_first_transaction_from_each_writer, get_highest_from,
  select_qualified_transactions,
}
use sidetree_js.Ledger.Selector.Queue.{PriorityQueue, IsPriorityQueue}

-- The first transaction of each writer, less the writers seen.
abbrev pub firsts : (Text → Bool) → List Transaction → List Transaction
firsts seen [] = []
firsts seen (t ∷ ts) =
    if seen t.writer then firsts seen ts else (t ∷ firsts (λ w. text_eq t.writer w || seen w) ts)

-- A choice within limits on operations and transactions from the transactions that there are.
pub record IsChoice (operations_left transactions_left : ℕ) (available chosen : List Transaction)
    : Type 0 where
  pub within_operations : count_operations chosen ≤ operations_left
  pub within_transactions : length chosen ≤ transactions_left
  pub rest : List Transaction
  pub from_available : Perm (chosen ++ rest) available

count-append :
    (ts us : List Transaction)
    → count_operations (ts ++ us) ≡ count_operations ts + count_operations us
unfolding count_operations add_operations
count-append [] us = omega arith
count-append (t ∷ ts) us = elim (Result-cases (number_of_operations_in t)) [
  | inl (e, fails) ↦ rw fails (count-append ts us)
  | inr (n, reads) ↦ rw reads (omega (arith, count-append ts us))
]

-- What one round of the loop leaves of the limits.
record Taken (operations_left transactions_left seen : ℕ) (taken : List Transaction) : Type 0 where
  seen_all : count_operations taken ≤ seen
  few_operations : count_operations taken ≤ operations_left
  few_transactions : length taken ≤ transactions_left

count-one :
    (t : Transaction) (n : ℕ) → number_of_operations_in t ≡ ok n → count_operations (t ∷ []) ≡ n
unfolding count_operations add_operations
count-one t n reads = rw reads (omega arith)

take-Taken :
    (operations_left transactions_left seen : ℕ) (taken : List Transaction) (t : Transaction)
    (r : Result ℕ)
    → number_of_operations_in t ≡ r
    → length taken < transactions_left
    → Taken operations_left transactions_left seen taken
    → Taken operations_left transactions_left
        (take_transaction operations_left seen taken t r).0
        (take_transaction operations_left seen taken t r).1
unfolding take_transaction
take-Taken ol tl seen taken t (err e) reads room i = i
take-Taken ol tl seen taken t (ok n) reads room i = elim (Bool-cases (leb (seen + n) ol)) [
  | inl fits ↦
      (let counted = count-append taken (t ∷ []) in
        let one = count-one t n reads in
        rw fits (record {
          seen_all = omega (arith, counted, one, i.seen_all);
          few_operations = ground (arith, counted, one, i.seen_all);
          few_transactions = omega (arith, length-append taken (t ∷ []));
        }))
  | inr over ↦ rw over (record {
    seen_all = omega (arith, i.seen_all);
    few_operations = i.few_operations;
    few_transactions = i.few_transactions;
  })
]

pub take_cases :
    (operations_left seen : ℕ) (taken : List Transaction) (t : Transaction) (r : Result ℕ)
    → ((take_transaction operations_left seen taken t r).1 ≡ taken)
      ⊎ ((take_transaction operations_left seen taken t r).1 ≡ taken ++ t ∷ [])
unfolding take_transaction
take_cases ol seen taken t (err e) = inl refl
take_cases ol seen taken t (ok n) = ground arith

goes_room : (ol tl seen taken waiting : ℕ) → goes_on ol tl seen taken waiting ≡ true → taken < tl
unfolding goes_on
goes_room ol tl seen taken waiting h = ground arith

goes_waiting :
    (ol tl seen taken waiting : ℕ) → goes_on ol tl seen taken waiting ≡ true → 0 < waiting
unfolding goes_on
goes_waiting ol tl seen taken waiting h = ground arith

has-set : (k j : Text) (v : ℕ) (m : List (Text × ℕ)) → has j (set k v m) ≡ (text_eq k j || has j m)
unfolding has set
has-set k j v [] = refl
has-set k j v ((i, w) ∷ m) =
    ground (arith, text_eq_iff i k, text_eq_iff i j, text_eq_iff k j, has-set k j v m)

module _ (queue : PriorityQueue) (laws : IsPriorityQueue queue comes_before) where
  -- one transaction moves from the queue to the choice, or to the rest
  kept_or_dropped :
      (taken : List Transaction) (t : Transaction) (q q' : queue.Queue)
      (next chosen rest : List Transaction)
      → queue.pop q ≡ some (t, q')
      → (next ≡ taken) ⊎ (next ≡ taken ++ t ∷ [])
      → Perm (chosen ++ rest) (next ++ laws.contents q')
      → (rest' : List Transaction) × Perm (chosen ++ rest') (taken ++ laws.contents q)
  kept_or_dropped taken t q q' next chosen rest popped (inl dropped) p = (
    t ∷ rest,
    Perm.trans (perm_middle chosen rest) (
        Perm.trans (Perm.cons t (rw (← dropped) p)) (
          Perm.trans (Perm.symm (perm_middle taken (laws.contents q')))
            (Perm.append_left taken (Perm.symm (laws.pop-contents t q q' popped))))),
  )
  kept_or_dropped taken t q q' next chosen rest popped (inr kept) p = (
    rest,
    Perm.trans (rw (sym (append_assoc taken (t ∷ []) (laws.contents q'))) (rw (← kept) p))
        (Perm.append_left taken (Perm.symm (laws.pop-contents t q q' popped))),
  )

  -- The loop returns a choice within the limits, from what was taken and what is in the queue.
  get_highest-IsChoice :
      (fuel ol tl seen : ℕ) (taken : List Transaction) (q : queue.Queue)
      → queue.size q < fuel
      → Taken ol tl seen taken
      → (chosen : List Transaction) × (get_highest_from queue fuel ol tl seen taken q
          ≡ some (ok chosen))
        × IsChoice ol tl (taken ++ laws.contents q) chosen
  unfolding get_highest_from
  get_highest-IsChoice zero ol tl seen taken q h i = absurd (omega arith)
  get_highest-IsChoice (suc fuel) ol tl seen taken q h i =
      elim (Bool-cases (goes_on ol tl seen (length taken) (queue.size q))) [
        | inr stops ↦ (
          taken,
          rw (get_highest_from, stops) refl,
          record {
            within_operations = i.few_operations;
            within_transactions = i.few_transactions;
            rest = laws.contents q;
            from_available = Perm.refl _;
          },
        )
        | inl goes ↦ elim (Option-cases (queue.pop q)) [
          | inl nothing ↦ absurd (
              omega (
                arith,
                goes_waiting ol tl seen (length taken) (queue.size q) goes,
                laws.pop-none q nothing,
              ))
          | inr ((t, q'), popped) ↦
              (let read = number_of_operations_in t in
                let next = take_transaction ol seen taken t read in
                let (chosen, run, c) =
                  get_highest-IsChoice fuel ol tl next.0 next.1 q'
                    (omega (arith, laws.pop-size t q q' popped))
                    (take-Taken ol tl seen taken t read refl
                      (goes_room ol tl seen (length taken) (queue.size q) goes) i) in
                let (rest, perm) =
                  kept_or_dropped taken t q q' next.1 chosen c.rest popped
                    (take_cases ol seen taken t read) c.from_available in
                (
                  chosen,
                  rw (get_highest_from, goes, popped) run,
                  record {
                    within_operations = c.within_operations;
                    within_transactions = c.within_transactions;
                    rest = rest;
                    from_available = perm;
                  },
                ))
        ]
      ]

  -- The queue holds the first transaction of each writer.
  enqueue_from-contents :
      (m : List (Text × ℕ)) (seen : Text → Bool) (ts : List Transaction) (q : queue.Queue)
      → ((w : Text) → has w m ≡ seen w)
      → Perm (laws.contents (enqueue_from queue m ts q)) (firsts seen ts ++ laws.contents q)
  unfolding enqueue_from
  enqueue_from-contents m seen [] q h = Perm.refl _
  enqueue_from-contents m seen (t ∷ ts) q h = elim (Bool-cases (has t.writer m)) [
    | inl known ↦
        rw (enqueue_from, known, sym (h t.writer) ∙ known) (enqueue_from-contents m seen ts q h)
    | inr new ↦
        (let pushed = set t.writer t.transaction_number m in
          let seen' = λ (w : Text). text_eq t.writer w || seen w in
          let agree : (w : Text) → has w pushed ≡ seen' w = λ w.
            has-set t.writer w t.transaction_number m ∙ ap (λ b. text_eq t.writer w || b) (h w) in
          rw (enqueue_from, new, sym (h t.writer) ∙ new)
            (Perm.trans (enqueue_from-contents pushed seen' ts (queue.push t q) agree) (
              Perm.trans (Perm.append_left (firsts seen' ts) (laws.contents-push t q))
                (perm_middle (firsts seen' ts) (laws.contents q)))))
  ]

  enqueue_from-size :
      (m : List (Text × ℕ)) (ts : List Transaction) (q : queue.Queue)
      → queue.size (enqueue_from queue m ts q) ≤ length ts + queue.size q
  unfolding enqueue_from
  enqueue_from-size m [] q = omega arith
  enqueue_from-size m (t ∷ ts) q =
      let pushed = set t.writer t.transaction_number m in
      ground (
        arith,
        enqueue_from-size m ts q,
        enqueue_from-size pushed ts (queue.push t q),
        laws.size-push t q,
      )

validate-eq-ok :
    (ts : List Transaction) (time : ℕ)
    → All (λ (u : Transaction). u.transaction_time ≡ time) ts
    → validate_transactions ts time ≡ ok tt
unfolding validate_transactions
validate-eq-ok [] time h = refl
validate-eq-ok (t ∷ ts) time h = ground (arith, validate-eq-ok ts time h.1)

pub select_valid :
    (queue : PriorityQueue) (stored : ℕ → Option (List Transaction)) (fuel : ℕ) (t : Transaction)
    (ts : List Transaction)
    → validate_transactions (t ∷ ts) t.transaction_time ≡ ok tt
    → select_qualified_transactions queue stored fuel (t ∷ ts)
      ≡ get_highest_from queue fuel
          (max_number_of_operations_per_transaction_time
            - (get_number_of_operations_and_transactions_already_in_transaction_time
                (stored t.transaction_time)).0)
          (max_number_of_transactions_per_transaction_time
            - (get_number_of_operations_and_transactions_already_in_transaction_time
                (stored t.transaction_time)).1)
          0
          []
          (enqueue_first_transaction_from_each_writer queue (t ∷ ts))
unfolding select_qualified_transactions
select_valid queue stored fuel t ts valid = rw (select_qualified_transactions, valid) refl

-- Transactions of one time: with more fuel than there are transactions, the selection returns a
-- choice from the first transaction of each writer, whose operations and whose number are within
-- what the transactions stored at that time leave of the limits of a block.
pub select-IsChoice :
    (queue : PriorityQueue) (laws : IsPriorityQueue queue comes_before)
    (stored : ℕ → Option (List Transaction)) (fuel : ℕ) (t : Transaction) (ts : List Transaction)
    → All (λ (u : Transaction). u.transaction_time ≡ t.transaction_time) ts
    → suc (length ts) < fuel
    → (chosen : List Transaction) × (select_qualified_transactions queue stored fuel (t ∷ ts)
        ≡ some (ok chosen))
      × IsChoice
          (max_number_of_operations_per_transaction_time
            - (get_number_of_operations_and_transactions_already_in_transaction_time
                (stored t.transaction_time)).0)
          (max_number_of_transactions_per_transaction_time
            - (get_number_of_operations_and_transactions_already_in_transaction_time
                (stored t.transaction_time)).1)
          (firsts (λ w. false) (t ∷ ts))
          chosen
unfolding enqueue_first_transaction_from_each_writer count_operations has
select-IsChoice queue laws stored fuel t ts same enough =
    let counted =
      get_number_of_operations_and_transactions_already_in_transaction_time
        (stored t.transaction_time) in
    let q = enqueue_from queue [] (t ∷ ts) queue.empty in
    let filled =
      enqueue_from-contents queue laws [] (λ w. false) (t ∷ ts) queue.empty (λ w. refl) in
    let (chosen, run, c) =
      get_highest-IsChoice queue laws fuel
        (max_number_of_operations_per_transaction_time - counted.0)
        (max_number_of_transactions_per_transaction_time - counted.1) 0 [] q
        (omega (arith, enqueue_from-size queue laws [] (t ∷ ts) queue.empty, laws.size-empty))
        (record {
          seen_all = omega arith;
          few_operations = omega arith;
          few_transactions = omega arith;
        }) in
    (
      chosen,
      select_valid queue stored fuel t ts (validate-eq-ok (t ∷ ts) t.transaction_time (refl, same))
          ∙ run,
      record {
        within_operations = c.within_operations;
        within_transactions = c.within_transactions;
        rest = c.rest;
        from_available = Perm.trans c.from_available (
            subst (λ k. Perm (laws.contents q) k)
              (ap (λ k. firsts (λ w. false) (t ∷ ts) ++ k) laws.contents-empty ∙ append-nil _)
              filled);
      },
    )
