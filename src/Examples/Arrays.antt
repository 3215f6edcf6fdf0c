-- ===== src/Examples/Arrays.antt =====
-- The theorems on arrays and on the throughput limiter at concrete inputs.
use sidetree_js.Prelude.{
  ℕ, zero, suc, ◌≤◌, ◌≡◌, refl, ◌↔◌, true, false, Option, none, some, List, [], ◌∷◌, arith, ltb,
  if◌then◌else◌, get_elem?,
}
use sidetree_js.Prelude.Text.{codes, Distinct}
use sidetree_js.Errors.{ok}
use sidetree_js.Arrays.{
  Sign, negative, zero_, positive, binary_search, has_duplicates, are_mutually_exclusive,
}
use sidetree_js.Arrays.Search.{IsSortedFor, IsAnswer, binary_search-IsAnswer}
use sidetree_js.Arrays.Duplicates.{Apart, has_duplicates_iff, are_mutually_exclusive_iff}
use sidetree_js.Ledger.{Transaction}
use sidetree_js.Ledger.Throughput.{Selectors, group_by_time, get_qualified_transactions}
use sidetree_js.Ledger.Throughput.Grouping.{
  concat, AreGroups, AreChosen, Selects, group_by_time-AreGroups,
  get_qualified_transactions-AreChosen,
}

abbrev by_number : ℕ → ℕ → Sign
by_number a b = if ltb a b then negative else if ltb b a then positive else zero_

-- positions of three numbers
ascending :
    (i j x y : ℕ)
    → i ≤ j
    → get_elem? (2 ∷ 5 ∷ 9 ∷ []) i ≡ some x
    → get_elem? (2 ∷ 5 ∷ 9 ∷ []) j ≡ some y
    → x ≤ y
ascending zero zero x y h e f = grind arith
ascending zero (suc zero) x y h e f = grind arith
ascending zero (suc (suc zero)) x y h e f = grind arith
ascending zero (suc (suc (suc j))) x y h e f = absurd (cc f)
ascending (suc i) zero x y h e f = absurd (omega arith)
ascending (suc zero) (suc zero) x y h e f = grind arith
ascending (suc zero) (suc (suc zero)) x y h e f = grind arith
ascending (suc zero) (suc (suc (suc j))) x y h e f = absurd (cc f)
ascending (suc (suc i)) (suc zero) x y h e f = absurd (omega arith)
ascending (suc (suc zero)) (suc (suc zero)) x y h e f = grind arith
ascending (suc (suc zero)) (suc (suc (suc j))) x y h e f = absurd (cc f)
ascending (suc (suc (suc i))) (suc (suc j)) x y h e f = absurd (cc e)

numbers-IsSortedFor : IsSortedFor by_number 5 (2 ∷ 5 ∷ 9 ∷ [])
numbers-IsSortedFor = record {
  after_greater = λ i j x y h e f g. ground (arith, ascending i j x y h e f);
  before_smaller = λ i j x y h e f g. ground (arith, ascending i j x y h e f);
}

binary_search-IsAnswer_example :
    (answer : Option ℕ) × (binary_search by_number 5 (2 ∷ 5 ∷ 9 ∷ []) ≡ some answer)
    × IsAnswer by_number 5 (2 ∷ 5 ∷ 9 ∷ []) answer
binary_search-IsAnswer_example =
    binary_search-IsAnswer by_number 5 (2 ∷ 5 ∷ 9 ∷ []) numbers-IsSortedFor

has_duplicates_iff_example :
    (has_duplicates (codes "a" ∷ codes "b" ∷ []) ≡ false) ↔ Distinct (codes "a" ∷ codes "b" ∷ [])
has_duplicates_iff_example = has_duplicates_iff (codes "a" ∷ codes "b" ∷ [])

are_mutually_exclusive_iff_example :
    (are_mutually_exclusive (codes "a" ∷ []) (codes "b" ∷ []) ≡ true)
    ↔ Apart (codes "a" ∷ []) (codes "b" ∷ [])
are_mutually_exclusive_iff_example = are_mutually_exclusive_iff (codes "a" ∷ []) (codes "b" ∷ [])

abbrev at : ℕ → Transaction
at time = record {
  transaction_number = time;
  transaction_time = time;
  transaction_time_hash = [];
  anchor_string = codes "3.a";
  transaction_fee_paid = 10;
  normalized_transaction_fee = none;
  writer = codes "w";
}

abbrev all_selected : Selectors
all_selected time = ok (λ ts. ok ts)

all_selected-Selects : Selects all_selected
all_selected-Selects t ts g = ((λ us. ok us), t ∷ ts, refl, refl)

group_by_time-AreGroups_example :
    AreGroups (at 1 ∷ at 1 ∷ at 2 ∷ []) (group_by_time (at 1 ∷ at 1 ∷ at 2 ∷ []))
group_by_time-AreGroups_example = group_by_time-AreGroups (at 1 ∷ at 1 ∷ at 2 ∷ [])

get_qualified_transactions-AreChosen_example :
    (groups : List (List Transaction)) × (choices : List (List Transaction)) × AreGroups
      (at 1 ∷ at 1 ∷ at 2 ∷ [])
      groups
    × AreChosen all_selected groups choices
    × (get_qualified_transactions all_selected (at 1 ∷ at 1 ∷ at 2 ∷ []) ≡ ok (concat choices))
get_qualified_transactions-AreChosen_example =
    get_qualified_transactions-AreChosen all_selected (at 1 ∷ at 1 ∷ at 2 ∷ []) all_selected-Selects
