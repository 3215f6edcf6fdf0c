-- ===== src/Examples/Processing.antt =====
-- The theorems on the operation processor and the resolver, for the DID of the examples.
use sidetree_js.Prelude.{◌≡◌, refl, ◌⊎◌, some, List, [], ◌∷◌, ◌++◌}
use sidetree_js.Prelude.Text.{text_eq, member}
use sidetree_js.Errors.{Failure, unexpected, ok, err}
use mathlib.Core.Path.{subst}
use sidetree_js.Operation.{
  update, DidState, AnchoredOperation, CreateOperation, UpdateOperation, RecoverOperation,
}
use sidetree_js.Crypto.Multihash
use sidetree_js.Document.Composer
use sidetree_js.Prelude.JsMap
use sidetree_js.Operation.Processor
use sidetree_js.Operation.Processor.Authorization.{IsAccepted, apply-IsAccepted}
use sidetree_js.Operation.Processor.Shape.{
  IsDeactivatedState, apply-transaction_number, apply-IsDeactivatedState,
}
use sidetree_js.Operation.Processor.Documents.{HasValidDeltas, IsValidDelta, HasGoodDocument}
use sidetree_js.Operation.Resolver
use sidetree_js.Operation.Resolver.Node.{node, resolve-HasGoodDocument}
use sidetree_js.Operation.Resolver.Derivation.{IsDerived, resolve-IsDerived}
use sidetree_js.Operation.Resolver.Denial.{resolve-throws}
use sidetree_js.Operation.Resolver.Tables.{is_create, is_recover, is_deactivate, of_type}
use mathlib.Core.List.{Memᴰ}
use sidetree_js.Examples.ToyCrypto.{toy}
use sidetree_js.Examples.ToyDid.{
  parser, create_model, update_model, deactivate_model, bad_model, created, updated, deactivated,
  update_operation, next_delta, first_delta,
}

update_run : Processor.apply toy parser update_model (some created) ≡ ok (some updated)
unfolding Processor.apply Processor.apply_to_nothing Processor.apply_create_operation
    Processor.start_from_delta Processor.is_matching_delta
    Multihash.verify_encoded_multihash_for_content Multihash.canonicalize_and_verify_double_hash
    Multihash.decode_as_buffer Multihash.hash Multihash.hash_as_non_multihash_buffer
    Multihash.hash_then_encode Multihash.is_base64url_string Multihash.verify_double_hash
    Composer.add_keys Composer.apply_patch Composer.apply_patches Composer.drop_services
    Composer.index_services Composer.merge_services Composer.put_service Composer.put_services
    Composer.remove_keys Composer.set_keys Composer.set_service Processor.apply_deactivate_operation
    Processor.apply_recover_operation Processor.apply_to_state Processor.apply_update_operation
    Processor.if_verified Processor.patched_or_unchanged Processor.update_from_delta
    Processor.with_delta JsMap.set JsMap.values member text_eq Processor.reveal_value_of
    Processor.get_multihash_reveal_value JsMap.get
update_run = refl

deactivated_run : Processor.apply toy parser update_model (some deactivated) ≡ ok (some deactivated)
unfolding Processor.apply Processor.apply_to_nothing Processor.apply_create_operation
    Processor.start_from_delta Processor.is_matching_delta
    Multihash.verify_encoded_multihash_for_content Multihash.canonicalize_and_verify_double_hash
    Multihash.decode_as_buffer Multihash.hash Multihash.hash_as_non_multihash_buffer
    Multihash.hash_then_encode Multihash.is_base64url_string Multihash.verify_double_hash
    Composer.add_keys Composer.apply_patch Composer.apply_patches Composer.drop_services
    Composer.index_services Composer.merge_services Composer.put_service Composer.put_services
    Composer.remove_keys Composer.set_keys Composer.set_service Processor.apply_deactivate_operation
    Processor.apply_recover_operation Processor.apply_to_state Processor.apply_update_operation
    Processor.if_verified Processor.patched_or_unchanged Processor.update_from_delta
    Processor.with_delta JsMap.set JsMap.values member text_eq Processor.reveal_value_of
    Processor.get_multihash_reveal_value
deactivated_run = refl

apply-IsAccepted_example :
    (updated ≡ created) ⊎ IsAccepted toy parser update_model created updated update
apply-IsAccepted_example = apply-IsAccepted toy parser update_model created updated update_run

update_IsAccepted : IsAccepted toy parser update_model created updated update
unfolding Processor.apply Processor.apply_to_nothing Processor.apply_create_operation
    Processor.start_from_delta Processor.is_matching_delta
    Multihash.verify_encoded_multihash_for_content Multihash.canonicalize_and_verify_double_hash
    Multihash.decode_as_buffer Multihash.hash Multihash.hash_as_non_multihash_buffer
    Multihash.hash_then_encode Multihash.is_base64url_string Multihash.verify_double_hash
    Composer.add_keys Composer.apply_patch Composer.apply_patches Composer.drop_services
    Composer.index_services Composer.merge_services Composer.put_service Composer.put_services
    Composer.remove_keys Composer.set_keys Composer.set_service Processor.apply_deactivate_operation
    Processor.apply_recover_operation Processor.apply_to_state Processor.apply_update_operation
    Processor.if_verified Processor.patched_or_unchanged Processor.update_from_delta
    Processor.with_delta JsMap.set JsMap.values member text_eq Processor.reveal_value_of
    Processor.get_multihash_reveal_value JsMap.get
update_IsAccepted = record {
  operation = update_operation;
  parsed = refl;
  signed = record { reveals = refl; signature = refl };
  delta = next_delta;
  has_delta = refl;
  matches = refl;
  result = refl;
}

apply-transaction_number_example :
    (updated ≡ created)
    ⊎ (updated.last_operation_transaction_number ≡ update_model.transaction_number)
apply-transaction_number_example =
    apply-transaction_number toy parser update_model created updated update_run

deactivated-IsDeactivatedState : IsDeactivatedState deactivated
deactivated-IsDeactivatedState = record { no_recovery = refl; no_update = refl }

apply-IsDeactivatedState_example : deactivated ≡ deactivated
apply-IsDeactivatedState_example =
    apply-IsDeactivatedState toy parser update_model deactivated deactivated
      deactivated-IsDeactivatedState deactivated_run

ok-inj : {A : Type 0} {a b : A} → ok a ≡ ok b → a ≡ b
ok-inj h = cc h

some-inj : {A : Type 0} {a b : A} → some a ≡ some b → a ≡ b
some-inj h = cc h

first_delta_valid : IsValidDelta (some first_delta)
unfolding member
first_delta_valid = ((refl, tt), tt)

next_delta_valid : IsValidDelta (some next_delta)
unfolding member
next_delta_valid = ((refl, tt), (tt, tt))

parser-HasValidDeltas : HasValidDeltas parser
parser-HasValidDeltas = record {
  of_create =
      λ b o h. subst (λ (u : CreateOperation). IsValidDelta u.delta) (ok-inj h) first_delta_valid;
  of_update =
      λ b o h. subst (λ (u : UpdateOperation). IsValidDelta u.delta) (ok-inj h) next_delta_valid;
  of_recover =
      λ b o h. subst (λ (u : RecoverOperation). IsValidDelta u.delta) (ok-inj h) first_delta_valid;
}

created_HasGoodDocument : (s : DidState) → some created ≡ some s → HasGoodDocument s
unfolding member
created_HasGoodDocument s e =
    subst HasGoodDocument (some-inj e)
      (record { distinct_keys = (refl, tt); distinct_services = tt })

three_operations : List AnchoredOperation
three_operations = create_model ∷ update_model ∷ deactivate_model ∷ []

resolve_run :
    Resolver.resolve (node toy parser) toy 3 (create_model ∷ update_model ∷ [])
    ≡ some (ok (some updated))
unfolding Resolver.resolve Resolver.apply_create_operation Resolver.categorize_operations_by_type
    Resolver.categorize_from Resolver.push_by_type Resolver.apply_operation Processor.apply
    Processor.apply_to_nothing Processor.apply_create_operation Processor.start_from_delta
    Processor.is_matching_delta Resolver.resolve_from Resolver.construct_map
    Resolver.construct_map_from Resolver.apply_operations Resolver.get_operations
    Multihash.verify_encoded_multihash_for_content Multihash.canonicalize_and_verify_double_hash
    Multihash.decode_as_buffer Multihash.hash Multihash.hash_as_non_multihash_buffer
    Multihash.hash_then_encode Multihash.is_base64url_string Multihash.verify_double_hash
    Composer.add_keys Composer.apply_patch Composer.apply_patches Composer.drop_services
    Composer.index_services Composer.merge_services Composer.put_service Composer.put_services
    Composer.remove_keys Composer.set_keys Composer.set_service Processor.apply_deactivate_operation
    Processor.apply_recover_operation Processor.apply_to_state Processor.apply_update_operation
    Processor.if_verified Processor.patched_or_unchanged Processor.update_from_delta
    Processor.with_delta Resolver.apply_first_valid_operation Resolver.commit_value
    Resolver.insert_by_number Resolver.push_operation Resolver.resolve_updates
    Resolver.sort_by_number JsMap.get JsMap.set JsMap.values member text_eq
    Processor.reveal_value_of Processor.get_multihash_reveal_value
resolve_run = refl

resolve-IsDerived_example :
    IsDerived (node toy parser) toy (create_model ∷ update_model ∷ []) updated
resolve-IsDerived_example =
    resolve-IsDerived (node toy parser) toy 3 (create_model ∷ update_model ∷ []) updated resolve_run

resolve-HasGoodDocument_example : HasGoodDocument updated
resolve-HasGoodDocument_example =
    resolve-HasGoodDocument toy parser 3 (create_model ∷ update_model ∷ []) updated
      parser-HasValidDeltas resolve_run

created_run :
    Resolver.apply_create_operation
      (node toy parser)
      (of_type is_create (create_model ∷ bad_model ∷ []))
    ≡ some created
unfolding Resolver.apply_create_operation Resolver.categorize_operations_by_type
    Resolver.categorize_from Resolver.push_by_type Resolver.apply_operation Processor.apply
    Processor.apply_to_nothing Processor.apply_create_operation Processor.start_from_delta
    Processor.is_matching_delta Resolver.resolve_from Resolver.construct_map
    Resolver.construct_map_from Resolver.apply_operations Resolver.get_operations
    Multihash.verify_encoded_multihash_for_content Multihash.canonicalize_and_verify_double_hash
    Multihash.decode_as_buffer Multihash.hash Multihash.hash_as_non_multihash_buffer
    Multihash.hash_then_encode Multihash.is_base64url_string Multihash.verify_double_hash
    Composer.add_keys Composer.apply_patch Composer.apply_patches Composer.drop_services
    Composer.index_services Composer.merge_services Composer.put_service Composer.put_services
    Composer.remove_keys Composer.set_keys Composer.set_service Processor.apply_deactivate_operation
    Processor.apply_recover_operation Processor.apply_to_state Processor.apply_update_operation
    Processor.if_verified Processor.patched_or_unchanged Processor.update_from_delta
    Processor.with_delta Resolver.apply_first_valid_operation Resolver.commit_value
    Resolver.insert_by_number Resolver.push_operation Resolver.resolve_updates
    Resolver.sort_by_number JsMap.get JsMap.set JsMap.values member text_eq
    Processor.reveal_value_of Processor.get_multihash_reveal_value
created_run = refl

bad_listed : Memᴰ bad_model (
    of_type is_recover (create_model ∷ bad_model ∷ [])
    ++ of_type is_deactivate (create_model ∷ bad_model ∷ []))
bad_listed = Memᴰ.head refl

bad_unreadable : Resolver.commit_value (node toy parser) toy bad_model ≡ err unexpected
unfolding Resolver.commit_value Processor.get_multihash_reveal_value Processor.reveal_value_of
bad_unreadable = refl

resolve-throws_example :
    (e : Failure) × (Resolver.resolve (node toy parser) toy 3 (create_model ∷ bad_model ∷ [])
      ≡ some (err e))
resolve-throws_example =
    resolve-throws (node toy parser) toy 3 (create_model ∷ bad_model ∷ []) created bad_model
      unexpected created_run bad_listed bad_unreadable
