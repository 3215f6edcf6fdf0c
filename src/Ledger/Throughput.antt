-- ===== src/Ledger/Throughput.antt =====
-- packages/core/src/ThroughputLimiter.ts: the transactions of each time are selected apart.
pub mod Grouping
use sidetree_js.Prelude.{
  ℕ, zero, suc, ◌+◌, ◌-◌, ◌*◌, ◌/◌, ◌%◌, ◌≤◌, ◌<◌, max, ◌≡◌, refl, sym, ap, ◌∙◌, ◌≢◌, ◌↔◌, ◌⊎◌, inl,
  inr, Bool, true, false, not, ◌&&◌, ◌||◌, Option, none, some, List, [], ◌∷◌, ◌++◌, map, append-nil,
  append_assoc, arith, ltb, leb, ◌==◌, if◌then◌else◌, ltb→lt, leb→le, ==_iff, Bool-cases,
  Option-cases, length, get_elem?, take, drop, filter, length-append, All, All-append, All-filter,
  All-of_mem,
}
use sidetree_js.Errors.{
  ErrorCode, Failure, sidetree, unexpected, Result, ok, err, ◌>>=◌, ◌>>◌, throw_if, >>=-eq-ok,
  Result-cases,
}
use sidetree_js.Ledger.{Transaction}

-- `groups[groups.length - 1].push(transaction)`, where there is a group
unfoldable pub push_last : List (List Transaction) → Transaction → List (List Transaction)
push_last [] t = []
push_last (g ∷ []) t = (g ++ t ∷ []) ∷ []
push_last (g ∷ h ∷ gs) t = g ∷ push_last (h ∷ gs) t

-- `transaction.transactionTime !== currentTransactionTime`, where the time may be `undefined`
unfoldable pub is_new_time : Option ℕ → ℕ → Bool
is_new_time none time = true
is_new_time (some current) time = not (time == current)

-- The first loop, with its two variables.
unfoldable pub group_from :
    Option ℕ → List (List Transaction) → List Transaction → List (List Transaction)
group_from current groups [] = groups
group_from current groups (t ∷ ts) =
    let opened = group_from (some t.transaction_time) (push_last (groups ++ [] ∷ []) t) ts in
    let continued = group_from current (push_last groups t) ts in
    if is_new_time current t.transaction_time then opened else continued

unfoldable pub group_by_time : List Transaction → List (List Transaction)
group_by_time transactions = group_from none [] transactions

-- `getTransactionSelector`, which may throw, and `selectQualifiedTransactions`
abbrev pub Selectors : Type 0
Selectors = ℕ → Result (List Transaction → Result (List Transaction))

-- The second loop. An empty group has no first transaction.
unfoldable pub select_groups : Selectors → List (List Transaction) → Result (List Transaction)
select_groups get_transaction_selector [] = ok []
select_groups get_transaction_selector ([] ∷ groups) = err unexpected
select_groups get_transaction_selector ((t ∷ ts) ∷ groups) = do
  select ← get_transaction_selector t.transaction_time
  chosen ← select (t ∷ ts)
  rest ← select_groups get_transaction_selector groups
  ok (chosen ++ rest)

unfoldable pub get_qualified_transactions : Selectors → List Transaction → Result (List Transaction)
get_qualified_transactions get_transaction_selector transactions =
    select_groups get_transaction_selector (group_by_time transactions)
