-- ===== src/Examples/Components.antt =====
-- The theorems on documents, hashes and the ledger at concrete inputs.
use sidetree_js.Prelude.{◌*◌, ℕ, ◌≤◌, ◌≡◌, refl, ◌↔◌, ◌⊎◌, true, some, [], ◌∷◌}
use sidetree_js.Prelude.Text.{Text, codes, member, Distinct}
use sidetree_js.Errors.{Result, ok}
use sidetree_js.Document.{Document, add_services, add_public_keys, empty_document}
use sidetree_js.Document.Composer
use sidetree_js.Document.Composer.Upsert.{upsert_all, add_services-eq-upsert_all}
use sidetree_js.Document.Composer.Refinement.{
  IsWellFormed, Refines, view, patched_all, apply_patches-Refines,
}
use sidetree_js.Crypto.Multihash
use sidetree_js.Crypto.Commitment.{
  verify_encoded_multihash_iff, verify_double_hash-hash_then_encode,
}
use sidetree_js.Ledger.AnchoredData
use sidetree_js.Ledger.AnchoredData.{AnchoredData}
use sidetree_js.Ledger.AnchoredData.RoundTrip.{IsAnchorable, deserialize_iff}
use sidetree_js.Ledger.Fee
use sidetree_js.Ledger.Doubles
use sidetree_js.Parameters
use sidetree_js.Errors.{
  sidetree, err, transaction_fee_paid_invalid,
  value_time_lock_verifier_invalid_number_of_operations,
}
use sidetree_js.Prelude.Text.{text_eq}
use sidetree_js.Ledger.Lock
use sidetree_js.Ledger.Lock.{ValueTimeLock, VersionMetadata, Allows, verify_lock_amount_iff}
use sidetree_js.Examples.ToyCrypto.{toy, toy-IsCryptoLib, encode}
use sidetree_js.Examples.ToyDid.{a_key, a_service}

one-Distinct : (k : Text) → Distinct (k ∷ [])
unfolding member
one-Distinct k = (refl, tt)

empty_IsWellFormed : IsWellFormed empty_document
empty_IsWellFormed = record { distinct_keys = tt; distinct_services = tt }

apply_patches-Refines_example :
    (d : Document) × (Composer.apply_patches empty_document
        (add_public_keys (a_key ∷ []) ∷ add_services (a_service ∷ []) ∷ [])
      ≡ ok d)
    × Refines d (
        patched_all
          (view empty_document)
          (add_public_keys (a_key ∷ []) ∷ add_services (a_service ∷ []) ∷ []))
apply_patches-Refines_example =
    apply_patches-Refines empty_document
      (add_public_keys (a_key ∷ []) ∷ add_services (a_service ∷ []) ∷ []) empty_IsWellFormed
      (one-Distinct (codes "k"), (one-Distinct (codes "s"), tt))

add_services-eq-upsert_all_example :
    Composer.put_services
      (Composer.index_services (a_service ∷ []) 0 [])
      (a_service ∷ [])
      (a_service ∷ [])
    ≡ upsert_all (a_service ∷ []) (a_service ∷ [])
add_services-eq-upsert_all_example =
    add_services-eq-upsert_all (a_service ∷ []) (a_service ∷ []) (one-Distinct (codes "s"))
      (one-Distinct (codes "s"))

verify_encoded_multihash_iff_example :
    (Multihash.verify_encoded_multihash_for_content toy (5 ∷ []) (encode (18 ∷ 1 ∷ 5 ∷ [])) ≡ true)
    ↔ ((algorithm : ℕ) × (Multihash.hash_then_encode toy (5 ∷ []) algorithm
          ≡ ok (encode (18 ∷ 1 ∷ 5 ∷ []))))
verify_encoded_multihash_iff_example =
    verify_encoded_multihash_iff toy toy-IsCryptoLib (5 ∷ []) (encode (18 ∷ 1 ∷ 5 ∷ []))

hash_run : Multihash.hash_as_non_multihash_buffer toy (7 ∷ []) 18 ≡ ok (1 ∷ 7 ∷ [])
unfolding Multihash.hash_as_non_multihash_buffer
hash_run = refl

commitment_run : Multihash.hash_then_encode toy (1 ∷ 7 ∷ []) 18 ≡ ok (encode (18 ∷ 1 ∷ 1 ∷ 7 ∷ []))
unfolding Multihash.hash_then_encode Multihash.hash Multihash.hash_as_non_multihash_buffer
commitment_run = refl

verify_double_hash-hash_then_encode_example :
    Multihash.verify_double_hash toy (7 ∷ []) (encode (18 ∷ 1 ∷ 1 ∷ 7 ∷ [])) ≡ true
verify_double_hash-hash_then_encode_example =
    verify_double_hash-hash_then_encode toy toy-IsCryptoLib (7 ∷ []) (1 ∷ 7 ∷ [])
      (encode (18 ∷ 1 ∷ 1 ∷ 7 ∷ [])) 18 hash_run commitment_run

deserialize_iff_example :
    (AnchoredData.deserialize (codes "42.abc")
      ≡ ok (record { core_index_file_uri = codes "abc"; number_of_operations = 42 }))
    ↔ (IsAnchorable (record { core_index_file_uri = codes "abc"; number_of_operations = 42 })
        × (codes "42.abc"
            ≡ AnchoredData.serialize
                (record { core_index_file_uri = codes "abc"; number_of_operations = 42 })))
deserialize_iff_example =
    deserialize_iff (codes "42.abc")
      (record { core_index_file_uri = codes "abc"; number_of_operations = 42 })

abbrev metadata_at : ℕ → Result VersionMetadata
metadata_at time = ok (record {
  normalized_fee_to_per_operation_fee_multiplier = Doubles.round 1 1000;
  value_time_lock_amount_multiplier = Doubles.integer 60000;
})

abbrev a_lock : ValueTimeLock
a_lock = record {
  amount_locked = 120000;
  identifier = codes "l";
  lock_transaction_time = 5;
  unlock_transaction_time = 10;
  normalized_fee = 10;
  owner = codes "w";
}

abbrev tight_lock : ValueTimeLock
tight_lock = record a_lock { amount_locked = 54540; normalized_fee = 9 }

-- The fee that a writer computes for 3000 operations is not accepted as paid, and a lock of the amount
-- for 101 operations does not allow them, since what is computed of them is rounded.
fee_runs :
    (Fee.compute_minimum_transaction_fee 13 3000
      ≡ ok (record { numerator = 39 * 140737488355328; denominator = 140737488355328 }))
    × (Fee.verify_transaction_fee_and_throw_on_error 39 3000 13
        ≡ err (sidetree transaction_fee_paid_invalid))
    × (Lock.verify_lock_amount_and_throw_on_error metadata_at (some tight_lock) 101 7 (codes "w")
        ≡ err (sidetree value_time_lock_verifier_invalid_number_of_operations))
unfolding Doubles.round_half_even Doubles.scale_up Doubles.scale_down Doubles.round Doubles.times
    Doubles.over Doubles.less Parameters.normalized_fee_to_per_operation_fee_multiplier
    Fee.fee_per_operation Fee.compute_minimum_transaction_fee
    Fee.verify_transaction_fee_and_throw_on_error Lock.floor_quotient Lock.max_limit Lock.is_over
    Lock.lock_divisor Lock.calculate_max_number_of_operations_allowed Lock.check_lock
    Lock.verify_lock_amount_and_throw_on_error text_eq
fee_runs = (refl, refl, refl)

verify_lock_amount_iff_example :
    (Lock.verify_lock_amount_and_throw_on_error metadata_at (some a_lock) 200 7 (codes "w") ≡ ok tt)
    ↔ ((200 ≤ 100) ⊎ Allows metadata_at (some a_lock) 200 7 (codes "w"))
verify_lock_amount_iff_example = verify_lock_amount_iff metadata_at (some a_lock) 200 7 (codes "w")
