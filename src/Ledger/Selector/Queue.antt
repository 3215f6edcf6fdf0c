-- ===== src/Ledger/Selector/Queue.antt =====
-- The package `priorityqueue`, as packages/core/src/TransactionSelector.ts calls it: a queue made with
-- a comparator, `push`, `pop` and `length`.
use mathlib.Core.List.{Perm}
use sidetree_js.Prelude.{ℕ, suc, ◌≡◌, Bool, false, Option, none, some, List, [], ◌∷◌, All}
use sidetree_js.Ledger.{Transaction}

pub record PriorityQueue : Type 1 where
  pub Queue : Type 0
  pub empty : Queue
  pub push : Transaction → Queue → Queue
  pub pop : Queue → Option (Transaction × Queue)
  pub size : Queue → ℕ

-- What its documentation promises: a queue holds what was pushed and not popped, and `pop` gives an
-- element that no other comes before.
pub record IsPriorityQueue (queue : PriorityQueue) (comes_before : Transaction → Transaction → Bool)
    : Type 0 where
  pub contents : queue.Queue → List Transaction
  pub contents-empty : contents queue.empty ≡ []
  pub contents-push :
      (t : Transaction) (q : queue.Queue) → Perm (contents (queue.push t q)) (t ∷ contents q)
  pub size-empty : queue.size queue.empty ≡ 0
  pub size-push :
      (t : Transaction) (q : queue.Queue) → queue.size (queue.push t q) ≡ suc (queue.size q)
  pub pop-none : (q : queue.Queue) → queue.pop q ≡ none → queue.size q ≡ 0
  pub pop-size :
      (t : Transaction) (q q' : queue.Queue)
      → queue.pop q ≡ some (t, q')
      → queue.size q ≡ suc (queue.size q')
  pub pop-contents :
      (t : Transaction) (q q' : queue.Queue)
      → queue.pop q ≡ some (t, q')
      → Perm (contents q) (t ∷ contents q')
  pub pop-first :
      (t : Transaction) (q q' : queue.Queue)
      → queue.pop q ≡ some (t, q')
      → All (λ u. comes_before u t ≡ false) (contents q')
