-- ===== src/Ledger/Fee.antt =====
-- packages/core/src/FeeManager.ts: the fee of a transaction. The amounts are integers below 2 ^ 53,
-- which JavaScript's numbers have exactly; the fees for each operation are rounded as it rounds them.
use sidetree_js.Prelude.{ℕ, ltb, leb, if◌then◌else◌}
use sidetree_js.Errors.{sidetree, Result, ok, err, ◌>>◌, throw_if}
use sidetree_js.Errors.{
  operation_count_less_than_zero, transaction_fee_paid_invalid,
  transaction_fee_paid_less_than_normalized_fee,
}
use sidetree_js.Parameters.{normalized_fee_to_per_operation_fee_multiplier}
use sidetree_js.Ledger.Doubles.{Double, integer, times, over, less}

-- `feePerOperation`, and `expectedFeePerOperation`
unfoldable pub fee_per_operation : ℕ → Double
fee_per_operation normalized_fee =
    times (integer normalized_fee) normalized_fee_to_per_operation_fee_multiplier

unfoldable pub compute_minimum_transaction_fee : ℕ → ℕ → Result Double
compute_minimum_transaction_fee normalized_fee number_of_operations =
    let fee_for_all_operations =
      times (fee_per_operation normalized_fee) (integer number_of_operations) in
    if leb number_of_operations 0
    then err (sidetree operation_count_less_than_zero)
    else ok (
        if less fee_for_all_operations (integer normalized_fee)
        then integer normalized_fee
        else fee_for_all_operations)

unfoldable pub verify_transaction_fee_and_throw_on_error : ℕ → ℕ → ℕ → Result (Unit {0})
verify_transaction_fee_and_throw_on_error transaction_fee_paid number_of_operations normalized_fee =
    do
      throw_if (leb number_of_operations 0) operation_count_less_than_zero
      throw_if (ltb transaction_fee_paid normalized_fee)
          transaction_fee_paid_less_than_normalized_fee
      throw_if
          (less (over (integer transaction_fee_paid) (integer number_of_operations))
            (fee_per_operation normalized_fee))
          transaction_fee_paid_invalid
