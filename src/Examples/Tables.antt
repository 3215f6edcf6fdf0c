-- ===== src/Examples/Tables.antt =====
-- The theorems on the resolver's tables and loops, for the DID of the examples.
use sidetree_js.Prelude.{◌≡◌, refl, none, [], ◌∷◌, arith, filter}
use sidetree_js.Prelude.Text.{text_eq}
use sidetree_js.Errors.{ok}
use sidetree_js.Crypto.Multihash
use sidetree_js.Prelude.JsMap
use sidetree_js.Operation.Processor
use sidetree_js.Operation.Resolver
use sidetree_js.Operation.Resolver.{
  OperationsByType, OperationMap, Commitment, update_commitment, recovery_commitment,
}
use sidetree_js.Operation.Resolver.Node.{node}
use sidetree_js.Operation.Resolver.Tables.{reveals, entry, construct_map-entry}
use sidetree_js.Operation.Resolver.Reuse.{ReusesCommitment, resolve_updates-endless}
use sidetree_js.Examples.ToyCrypto.{toy}
use sidetree_js.Examples.ToyDid.{
  parser, update_model, created, reusing, reusing_delta, reusing_operation, second_update_model,
  commitment_of,
}

one_update : OperationMap
one_update = (commitment_of 8, update_model ∷ []) ∷ []

one_update_map : Resolver.construct_map (node toy parser) toy (update_model ∷ []) ≡ ok one_update
unfolding Resolver.construct_map Resolver.construct_map_from Resolver.commit_value
    Processor.get_multihash_reveal_value Processor.reveal_value_of Multihash.decode_as_buffer
    Multihash.hash_then_encode Multihash.hash Multihash.hash_as_non_multihash_buffer one_update
    Resolver.push_operation JsMap.get JsMap.set
one_update_map = refl

construct_map-entry_example :
    entry (node toy parser) toy (commitment_of 8) one_update
    ≡ filter (reveals (node toy parser) toy (commitment_of 8)) (update_model ∷ [])
construct_map-entry_example =
    construct_map-entry (node toy parser) toy (update_model ∷ []) one_update (commitment_of 8)
      one_update_map

reuses_first : ReusesCommitment toy reusing (commitment_of 8) update_model
unfolding Multihash.canonicalize_and_verify_double_hash Multihash.verify_double_hash
    Multihash.decode_as_buffer Multihash.hash_as_non_multihash_buffer Multihash.hash text_eq
    Processor.is_matching_delta Multihash.verify_encoded_multihash_for_content Resolver.commit_value
    Processor.get_multihash_reveal_value Processor.reveal_value_of Multihash.hash_then_encode
reuses_first = record {
  is_update = refl;
  operation = reusing_operation;
  parsed = refl;
  reveals = refl;
  signature = refl;
  delta = reusing_delta;
  has_delta = refl;
  matches = refl;
  recommits = refl;
  listed = refl;
}

reuses_second : ReusesCommitment toy reusing (commitment_of 8) second_update_model
unfolding Multihash.canonicalize_and_verify_double_hash Multihash.verify_double_hash
    Multihash.decode_as_buffer Multihash.hash_as_non_multihash_buffer Multihash.hash text_eq
    Processor.is_matching_delta Multihash.verify_encoded_multihash_for_content Resolver.commit_value
    Processor.get_multihash_reveal_value Processor.reveal_value_of Multihash.hash_then_encode
reuses_second = record {
  is_update = refl;
  operation = reusing_operation;
  parsed = refl;
  reveals = refl;
  signature = refl;
  delta = reusing_delta;
  has_delta = refl;
  matches = refl;
  recommits = refl;
  listed = refl;
}

resolve_updates-endless_example :
    Resolver.resolve_updates
      (node toy reusing)
      toy
      1000
      (update_model ∷ second_update_model ∷ [])
      created
    ≡ none
resolve_updates-endless_example =
    resolve_updates-endless toy reusing (commitment_of 8) update_model second_update_model created
      (commitment_of 7) 1000 reuses_first reuses_second (omega arith) refl refl
