-- ===== src/Examples/Parsers.antt =====
-- The theorems on validated documents and parsed operations, on small requests.
use sidetree_js.Prelude.{
  ℕ, zero, suc, ◌+◌, ◌-◌, ◌*◌, ◌/◌, ◌%◌, ◌≤◌, ◌<◌, max, ◌≡◌, refl, sym, ap, ◌∙◌, ◌≢◌, ◌↔◌, ◌⊎◌, inl,
  inr, Bool, true, false, not, ◌&&◌, ◌||◌, Option, none, some, List, [], ◌∷◌, ◌++◌, map, append-nil,
  append_assoc, arith, ltb, leb, ◌==◌, if◌then◌else◌, ltb→lt, leb→le, ==_iff, Bool-cases,
  Option-cases, length, get_elem?, take, drop, filter, length-append, All, All-append, All-filter,
  All-of_mem, All-at_mem,
}
use sidetree_js.Prelude.Text.{
  Text, codes, text_eq, text_eq_sound, text_eq_refl, text_eq_iff, member, Distinct,
}
use sidetree_js.Errors.{ok}
use sidetree_js.Json.{Json, str}
use sidetree_js.Document.{PublicKey, Service, Patch, add_public_keys}
use sidetree_js.Document.Find.{HasDistinctIds}
use sidetree_js.Document.Composer.Keys.{key_id}
use sidetree_js.Document.Composer.Upsert.{service_id}
use sidetree_js.Document.Validation.{
  validate_public_keys, validate_services, validate_document_patches,
}
use sidetree_js.Document.Validation.Ids.{
  IsValidKey, IsValidService, validate_public_keys-IsValidKey, validate_services-IsValidService,
}
use sidetree_js.Document.Validation.Patches.{
  IsAcceptedPatch, validate_document_patches-IsAcceptedPatch,
}
use sidetree_js.Crypto.Multihash.{caught, canonicalize_and_verify_double_hash}
use sidetree_js.Operation.{create, DidState, AnchoredOperation, Jws, Delta, UpdateOperation}
use sidetree_js.Operation.Processor.{apply}
use sidetree_js.Operation.Processor.Documents.{HasGoodDocument}
use sidetree_js.Operation.Parsing.{parse_compact_jws, to_compact_jws, verify_signature}
use sidetree_js.Operation.Parsing.Operations.{parse_update_object, parser}
use sidetree_js.Operation.Parsing.Compact.{
  IsCompactJws, to_compact_jws-parse_compact_jws, parse_compact_jws-to_compact_jws,
}
use sidetree_js.Operation.Parsing.Fields.{HasUpdateFields, parse_update_object-HasUpdateFields}
use sidetree_js.Operation.Parsing.Deltas.{apply_parsed-HasGoodDocument}
use sidetree_js.Examples.ToyDid.{reveal_of, commitment_of}
use sidetree_js.Examples.ToyNetwork.{
  lib, node, jwk, keys_json, services_json, patches_json, delta_json, update_json,
}

abbrev key : Text → PublicKey
key id = record {
  id = id;
  type = codes "t";
  public_key_jwk = jwk;
  purposes = some (codes "authentication" ∷ []);
}

abbrev keys : List PublicKey
keys = key (codes "a") ∷ key (codes "b") ∷ []

abbrev service : Text → Service
service id = record { id = id; type = codes "t"; service_endpoint = str (codes "u") }

abbrev services : List Service
services = service (codes "a") ∷ service (codes "b") ∷ []

abbrev jws : Jws
jws = record { protected = codes "h"; payload = codes "p"; signature = codes "s" }

abbrev pub update : UpdateOperation
update = record {
  did_unique_suffix = codes "d";
  reveal_value = reveal_of 1;
  signed_data_jws = jws;
  update_key = jwk;
  delta_hash = reveal_of 1;
  delta = some (record {
    patches = add_public_keys keys ∷ [];
    update_commitment = reveal_of 7;
    content = delta_json;
  });
}

abbrev create_model : AnchoredOperation
create_model = record {
  operation_buffer = codes "c";
  did_unique_suffix = reveal_of 1;
  type = create;
  transaction_time = 4;
  transaction_number = 3;
  operation_index = 0;
}

abbrev pub created : DidState
created = record {
  document = record { public_keys = some keys; services = none };
  next_recovery_commitment_hash = some (reveal_of 7);
  next_update_commitment_hash = some (reveal_of 7);
  last_operation_transaction_number = 3;
}

abbrev pub next_create_model : AnchoredOperation
next_create_model = record create_model { operation_buffer = codes "n" }

abbrev pub update_model : AnchoredOperation
update_model = record create_model {
  operation_buffer = codes "u";
  type = sidetree_js.Operation.update;
  transaction_number = 4;
}

abbrev pub next_created : DidState
next_created = record created { next_update_commitment_hash = some (commitment_of 1) }

-- what the code computes on them
pub runs :
    (validate_public_keys (some keys_json) ≡ ok keys)
    × (validate_services node.is_uri (some services_json) ≡ ok services)
    × (validate_document_patches node.is_uri (some patches_json) ≡ ok (add_public_keys keys ∷ []))
    × (parse_compact_jws node (some (str (codes "h.p.s"))) ≡ ok jws)
    × (parse_update_object lib node update_json ≡ ok update)
    × (apply lib (parser lib node) create_model none ≡ ok (some created))
    × ((parser lib node).parse_update (codes "u") ≡ ok update)
    × (canonicalize_and_verify_double_hash lib jwk (some (reveal_of 7)) ≡ false)
    × (apply lib (parser lib node) update_model (some next_created)
        ≡ ok (some (record created { last_operation_transaction_number = 4 })))
unfolding sidetree_js.Json.field_of sidetree_js.Json.property sidetree_js.Json.count_items
    sidetree_js.Json.count_fields sidetree_js.Json.count_properties sidetree_js.Json.all_fields_in
    sidetree_js.Json.has_only sidetree_js.Json.is_text sidetree_js.Json.Typing.string_or
    sidetree_js.Json.Typing.array_or sidetree_js.Prelude.Text.text_eq
    sidetree_js.Prelude.Text.member sidetree_js.Input.validate_non_array_object
    sidetree_js.Input.validate_object_contains_only_allowed_properties
    sidetree_js.Input.validate_cas_file_uri sidetree_js.Input.validate_did_type
    sidetree_js.Input.validate_encoded_multihash sidetree_js.Input.validate_suffix_data
    sidetree_js.Input.validate_operation_reference sidetree_js.Input.validate_operation_references
    sidetree_js.Crypto.Multihash.is_base64url_string sidetree_js.Crypto.Multihash.decode_as_buffer
    sidetree_js.Crypto.Multihash.hash_as_non_multihash_buffer sidetree_js.Crypto.Multihash.hash
    sidetree_js.Crypto.Multihash.hash_then_encode
    sidetree_js.Crypto.Multihash.canonicalize_then_hash_then_encode
    sidetree_js.Crypto.Multihash.canonicalize_then_double_hash_then_encode
    sidetree_js.Crypto.Multihash.verify_double_hash
    sidetree_js.Crypto.Multihash.canonicalize_and_verify_double_hash
    sidetree_js.Crypto.Multihash.verify_encoded_multihash_for_content
    sidetree_js.Crypto.Multihash.is_valid_hash
    sidetree_js.Crypto.Multihash.validate_canonicalize_object_hash
    sidetree_js.Crypto.Multihash.validate_hash_computed_using_supported_hash_algorithm
    sidetree_js.Document.Validation.validate_id sidetree_js.Document.Validation.is_same_value
    sidetree_js.Document.Validation.has_value
    sidetree_js.Document.Validation.has_duplicate_values_from
    sidetree_js.Document.Validation.validate_purpose_values
    sidetree_js.Document.Validation.validate_purposes
    sidetree_js.Document.Validation.validate_public_key
    sidetree_js.Document.Validation.validate_public_keys_from
    sidetree_js.Document.Validation.validate_public_keys
    sidetree_js.Document.Validation.validate_ids
    sidetree_js.Document.Validation.validate_add_public_keys_patch
    sidetree_js.Document.Validation.validate_remove_public_keys_patch
    sidetree_js.Document.Validation.validate_remove_services_patch
    sidetree_js.Document.Validation.validate_service_endpoint
    sidetree_js.Document.Validation.validate_service
    sidetree_js.Document.Validation.validate_services_from
    sidetree_js.Document.Validation.validate_services
    sidetree_js.Document.Validation.validate_document
    sidetree_js.Document.Validation.validate_add_services_patch
    sidetree_js.Document.Validation.validate_replace_patch
    sidetree_js.Document.Validation.validate_patch sidetree_js.Document.Validation.validate_patches
    sidetree_js.Document.Validation.validate_document_patches
    sidetree_js.Operation.Parsing.create_compact_jws sidetree_js.Operation.Parsing.to_compact_jws
    sidetree_js.Operation.Parsing.validate_jwk_es256k sidetree_js.Operation.Parsing.decode_as_string
    sidetree_js.Operation.Parsing.jws_of_parts sidetree_js.Operation.Parsing.parse_compact_jws
    sidetree_js.Operation.Parsing.verify_compact_jws sidetree_js.Operation.Parsing.verify_signature
    sidetree_js.Operation.Parsing.validate_delta sidetree_js.Operation.Parsing.validate_sized_delta
    sidetree_js.Operation.Parsing.delta_or_undefined
    sidetree_js.Operation.Parsing.compute_unique_suffix
    sidetree_js.Operation.Parsing.Operations.parse_create_object
    sidetree_js.Operation.Parsing.Operations.parse_update_signed_data
    sidetree_js.Operation.Parsing.Operations.parse_update_object
    sidetree_js.Operation.Parsing.Operations.parse_recover_signed_data
    sidetree_js.Operation.Parsing.Operations.parse_recover_object
    sidetree_js.Operation.Parsing.Operations.parse_deactivate_signed_data
    sidetree_js.Operation.Parsing.Operations.parse_deactivate_object
    sidetree_js.Operation.Parsing.Operations.parse_buffer
    sidetree_js.Operation.Parsing.Operations.parse_object
    sidetree_js.Operation.Parsing.Operations.parse
    sidetree_js.Operation.Parsing.Operations.reveal_value
    sidetree_js.Operation.Parsing.Operations.parser sidetree_js.Ledger.AnchoredData.print_from
    sidetree_js.Ledger.AnchoredData.print_number sidetree_js.Ledger.AnchoredData.serialize
    sidetree_js.Ledger.AnchoredData.push_char sidetree_js.Ledger.AnchoredData.split
    sidetree_js.Ledger.AnchoredData.is_positive_integer sidetree_js.Ledger.AnchoredData.read_from
    sidetree_js.Ledger.AnchoredData.parse_positive_integer
    sidetree_js.Ledger.AnchoredData.deserialize_parts sidetree_js.Ledger.AnchoredData.deserialize
    sidetree_js.Operation.Processor.patched_or_unchanged sidetree_js.Operation.Processor.with_delta
    sidetree_js.Operation.Processor.if_verified sidetree_js.Operation.Processor.is_matching_delta
    sidetree_js.Operation.Processor.start_from_delta
    sidetree_js.Operation.Processor.apply_create_operation
    sidetree_js.Operation.Processor.update_from_delta
    sidetree_js.Operation.Processor.apply_update_operation
    sidetree_js.Operation.Processor.apply_recover_operation
    sidetree_js.Operation.Processor.apply_deactivate_operation
    sidetree_js.Operation.Processor.apply_to_state sidetree_js.Operation.Processor.apply_to_nothing
    sidetree_js.Operation.Processor.apply sidetree_js.Operation.Processor.reveal_value_of
    sidetree_js.Operation.Processor.get_multihash_reveal_value
    sidetree_js.Document.Composer.set_keys sidetree_js.Document.Composer.add_keys
    sidetree_js.Document.Composer.remove_keys sidetree_js.Document.Composer.set_service
    sidetree_js.Document.Composer.index_services sidetree_js.Document.Composer.put_service
    sidetree_js.Document.Composer.put_services sidetree_js.Document.Composer.merge_services
    sidetree_js.Document.Composer.drop_services sidetree_js.Document.Composer.apply_patch
    sidetree_js.Document.Composer.apply_patches sidetree_js.Prelude.JsMap.get
    sidetree_js.Prelude.JsMap.has sidetree_js.Prelude.JsMap.set sidetree_js.Prelude.JsMap.values
    sidetree_js.Document.Find.find sidetree_js.Document.Find.find_last
runs = (refl, refl, refl, refl, refl, refl, refl, refl, refl)

validate_public_keys-IsValidKey_example : HasDistinctIds key_id keys × All IsValidKey keys
validate_public_keys-IsValidKey_example =
    validate_public_keys-IsValidKey (some keys_json) keys runs.0

validate_services-IsValidService_example :
    HasDistinctIds service_id services × All IsValidService services
validate_services-IsValidService_example =
    validate_services-IsValidService node.is_uri (some services_json) services runs.1

validate_document_patches-IsAcceptedPatch_example : All IsAcceptedPatch (add_public_keys keys ∷ [])
validate_document_patches-IsAcceptedPatch_example =
    validate_document_patches-IsAcceptedPatch node.is_uri (some patches_json)
      (add_public_keys keys ∷ []) runs.2

to_compact_jws-parse_compact_jws_example :
    (to_compact_jws jws ≡ codes "h.p.s")
    × IsCompactJws node jws
    × (verify_signature node jws jwk ≡ caught (node.verify (codes "h.p.s") jwk))
to_compact_jws-parse_compact_jws_example =
    to_compact_jws-parse_compact_jws node (codes "h.p.s") jws jwk runs.3

jws-IsCompactJws : IsCompactJws node jws
jws-IsCompactJws = (to_compact_jws-parse_compact_jws node (codes "h.p.s") jws jwk runs.3).1

parse_compact_jws-to_compact_jws_example :
    parse_compact_jws node (some (str (to_compact_jws jws))) ≡ ok jws
parse_compact_jws-to_compact_jws_example =
    parse_compact_jws-to_compact_jws node jws jws-IsCompactJws

parse_update_object-HasUpdateFields_example : HasUpdateFields lib node update_json update
parse_update_object-HasUpdateFields_example =
    parse_update_object-HasUpdateFields lib node update_json update runs.4

apply_parsed-HasGoodDocument_example : HasGoodDocument created
apply_parsed-HasGoodDocument_example =
    apply_parsed-HasGoodDocument lib node create_model none created (λ s h. absurd (cc (h))) runs.5
