-- ===== src/Examples/Selection.antt =====
-- The theorem on the selection of transactions at a concrete block.
use sidetree_js.Prelude.{ℕ, ◌-◌, ◌≡◌, refl, false, Option, none, some, List, [], ◌∷◌, arith}
use sidetree_js.Prelude.Text.{codes}
use sidetree_js.Errors.{ok}
use sidetree_js.Ledger.{Transaction}
use sidetree_js.Ledger.Selector
use sidetree_js.Ledger.AnchoredData
use sidetree_js.Prelude.JsMap
use sidetree_js.Ledger.Selector.Limits.{firsts, IsChoice, select-IsChoice}
use sidetree_js.Examples.ToyQueue.{toy_queue, toy_queue-IsPriorityQueue}

abbrev cheap : Transaction
cheap = record {
  transaction_number = 1;
  transaction_time = 9;
  transaction_time_hash = [];
  anchor_string = codes "3.a";
  transaction_fee_paid = 10;
  normalized_transaction_fee = none;
  writer = codes "w";
}

abbrev dear : Transaction
dear = record cheap { transaction_number = 2; transaction_fee_paid = 20; writer = codes "v" }

abbrev stored : ℕ → Option (List Transaction)
stored time = some (cheap ∷ [])

select-IsChoice_example :
    (chosen : List Transaction) × (Selector.select_qualified_transactions toy_queue stored 3
        (cheap ∷ dear ∷ [])
      ≡ some (ok chosen))
    × IsChoice
        (600000
          - (Selector.get_number_of_operations_and_transactions_already_in_transaction_time
              (stored 9)).0)
        (300
          - (Selector.get_number_of_operations_and_transactions_already_in_transaction_time
              (stored 9)).1)
        (firsts (λ w. false) (cheap ∷ dear ∷ []))
        chosen
select-IsChoice_example =
    select-IsChoice toy_queue toy_queue-IsPriorityQueue stored 3 cheap (dear ∷ []) (refl, tt)
      (omega arith)
