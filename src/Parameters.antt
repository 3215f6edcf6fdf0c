-- ===== src/Parameters.antt =====
-- packages/common/src/util/parameters.ts
use sidetree_js.Prelude.{ℕ, List, [], ◌∷◌}
use sidetree_js.Ledger.Doubles.{Double, round}

abbrev pub max_operations_per_batch : ℕ
max_operations_per_batch = 10000

abbrev pub max_number_of_operations_per_transaction_time : ℕ
max_number_of_operations_per_transaction_time = 600000

abbrev pub max_number_of_transactions_per_transaction_time : ℕ
max_number_of_transactions_per_transaction_time = 300

abbrev pub max_number_of_operations_for_no_value_time_lock : ℕ
max_number_of_operations_for_no_value_time_lock = 100

-- the double nearest to 0.001
unfoldable pub normalized_fee_to_per_operation_fee_multiplier : Double
normalized_fee_to_per_operation_fee_multiplier = round 1 1000

abbrev pub value_time_lock_amount_multiplier : ℕ
value_time_lock_amount_multiplier = 60000

abbrev pub hash_algorithms_in_multihash_code : List ℕ
hash_algorithms_in_multihash_code = 18 ∷ []

abbrev pub max_cas_uri_length : ℕ
max_cas_uri_length = 100

abbrev pub max_core_index_file_size_in_bytes : ℕ
max_core_index_file_size_in_bytes = 1000000

abbrev pub max_provisional_index_file_size_in_bytes : ℕ
max_provisional_index_file_size_in_bytes = 1000000

abbrev pub max_proof_file_size_in_bytes : ℕ
max_proof_file_size_in_bytes = 2500000

abbrev pub max_chunk_file_size_in_bytes : ℕ
max_chunk_file_size_in_bytes = 10000000

abbrev pub max_delta_size_in_bytes : ℕ
max_delta_size_in_bytes = 2000

abbrev pub max_writer_lock_id_in_bytes : ℕ
max_writer_lock_id_in_bytes = 200
