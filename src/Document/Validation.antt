-- ===== src/Document/Validation.antt =====
-- packages/core/src/DocumentComposer.ts, the validation of the patches of a delta. The code checks
-- a value of type `any` and then takes it at the type of the model: a validator returns it so.
pub mod Ids
pub mod Patches
use sidetree_js.Prelude.{
  ℕ, zero, suc, ◌+◌, ◌-◌, ◌*◌, ◌/◌, ◌%◌, ◌≤◌, ◌<◌, max, ◌≡◌, refl, sym, ap, ◌∙◌, ◌≢◌, ◌↔◌, ◌⊎◌, inl,
  inr, Bool, true, false, not, ◌&&◌, ◌||◌, Option, none, some, List, [], ◌∷◌, ◌++◌, map, append-nil,
  append_assoc, arith, ltb, leb, ◌==◌, if◌then◌else◌, ltb→lt, leb→le, ==_iff, Bool-cases,
  Option-cases, length, get_elem?, take, drop, filter, length-append, All, All-append, All-filter,
  All-of_mem, All-at_mem,
}
use sidetree_js.Prelude.Text.{
  Text, codes, text_eq, text_eq_sound, text_eq_refl, text_eq_iff, member, Distinct,
}
use sidetree_js.Errors.{
  ErrorCode, Failure, sidetree, unexpected, Result, ok, err, ◌>>=◌, ◌>>◌, throw_if, >>=-eq-ok,
  Result-cases, ok-injective, throw_if-eq-ok, if-eq-ok,
}
use sidetree_js.Errors.{
  document_composer_document_missing, document_composer_unknown_property_in_document,
  document_composer_update_operation_document_patches_not_array,
  document_composer_patch_missing_or_unknown_action,
  document_composer_patch_missing_or_unknown_property, document_composer_public_keys_not_array,
  document_composer_public_key_unknown_property,
  document_composer_public_key_type_missing_or_incorrect_type,
  document_composer_public_key_id_duplicated, document_composer_public_key_purposes_incorrect_type,
  document_composer_public_key_purposes_duplicated, document_composer_public_key_invalid_purpose,
  document_composer_unknown_property_in_remove_public_keys_patch,
  document_composer_patch_public_key_ids_not_array,
  document_composer_unknown_property_in_remove_services_patch,
  document_composer_patch_service_ids_not_array, document_composer_patch_services_not_array,
  document_composer_service_has_missing_or_unknown_property,
  document_composer_patch_service_id_not_unique, document_composer_patch_service_type_not_string,
  document_composer_patch_service_type_too_long,
  document_composer_patch_service_endpoint_string_not_valid_uri,
  document_composer_patch_service_endpoint_cannot_be_an_array,
  document_composer_patch_service_endpoint_must_be_string_or_non_array_object,
  document_composer_id_not_string, document_composer_id_too_long,
}
use sidetree_js.Json.{
  Json, Items, Fields, null, bool, num, str, arr, obj, nil, cons, end, field, property,
  count_properties, has_only, is_text,
}
use sidetree_js.Json.Typing.{string_or, array_or}
use sidetree_js.Input.{validate_non_array_object}
use sidetree_js.Document.{
  PublicKey, Service, Document, Patch, replace, add_public_keys, remove_public_keys, add_services,
  remove_services, unknown,
}

-- A guard, and the value that the code returns or goes on with where it does not throw.
unfoldable pub validate_id : Option Json → Result Text
validate_id id = do
  text ← string_or document_composer_id_not_string id
  throw_if (ltb 50 (length text)) document_composer_id_too_long
  ok text

-- `Object.values(PublicKeyPurpose)`
abbrev pub public_key_purposes : List Text
public_key_purposes =
    codes "authentication"
    ∷ codes "assertionMethod"
    ∷ codes "capabilityInvocation"
    ∷ codes "capabilityDelegation"
    ∷ codes "keyAgreement"
    ∷ []

-- Is a value one of a `Set` of JSON values? Objects and arrays are the same only as objects in
-- memory, and no two values of a parsed text are.
unfoldable pub is_same_value : Json → Json → Bool
is_same_value null null = true
is_same_value (bool true) (bool true) = true
is_same_value (bool false) (bool false) = true
is_same_value (num m) (num n) = m == n
is_same_value (str s) (str t) = text_eq s t
is_same_value _ _ = false

unfoldable pub has_value : Json → List Json → Bool
has_value value [] = false
has_value value (v ∷ vs) = is_same_value v value || has_value value vs

-- `ArrayMethods.hasDuplicates` on an array of JSON values
unfoldable pub has_duplicate_values_from : List Json → Items → Bool
has_duplicate_values_from unique_values nil = false
has_duplicate_values_from unique_values (cons value items) =
    let rest = has_duplicate_values_from (value ∷ unique_values) items in
    if has_value value unique_values then true else rest

unfoldable pub validate_purpose_values : Items → Result (List Text)
validate_purpose_values nil = ok []
validate_purpose_values (cons purpose items) = do
  text ← string_or document_composer_public_key_invalid_purpose (some purpose)
  throw_if (not (member text public_key_purposes)) document_composer_public_key_invalid_purpose
  texts ← validate_purpose_values items
  ok (text ∷ texts)

-- `if ('purposes' in publicKey)`
unfoldable pub validate_purposes : Option Json → Result (Option (List Text))
validate_purposes none = ok none
validate_purposes (some value) = do
  purposes ← array_or document_composer_public_key_purposes_incorrect_type (some value)
  throw_if (has_duplicate_values_from [] purposes) document_composer_public_key_purposes_duplicated
  texts ← validate_purpose_values purposes
  ok (some texts)

-- one round of the loop of `validatePublicKeys`, with the ids before
unfoldable pub validate_public_key : List Text → Json → Result PublicKey
validate_public_key public_key_id_set public_key = do
  throw_if
      (not (
        has_only (codes "id" ∷ codes "type" ∷ codes "purposes" ∷ codes "publicKeyJwk" ∷ [])
          public_key))
      document_composer_public_key_unknown_property
  public_key_jwk ← property public_key (codes "publicKeyJwk") >>= validate_non_array_object
  type ←
      property public_key (codes "type")
      >>= string_or document_composer_public_key_type_missing_or_incorrect_type
  id ← property public_key (codes "id") >>= validate_id
  throw_if (member id public_key_id_set) document_composer_public_key_id_duplicated
  purposes ← property public_key (codes "purposes") >>= validate_purposes
  ok (record { id = id; type = type; public_key_jwk = public_key_jwk; purposes = purposes })

unfoldable pub validate_public_keys_from : List Text → Items → Result (List PublicKey)
validate_public_keys_from public_key_id_set nil = ok []
validate_public_keys_from public_key_id_set (cons item items) = do
  key ← validate_public_key public_key_id_set item
  keys ← validate_public_keys_from (key.id ∷ public_key_id_set) items
  ok (key ∷ keys)

unfoldable pub validate_public_keys : Option Json → Result (List PublicKey)
validate_public_keys public_keys = do
  items ← array_or document_composer_public_keys_not_array public_keys
  validate_public_keys_from [] items

unfoldable pub validate_ids : Items → Result (List Text)
validate_ids nil = ok []
validate_ids (cons item items) = do
  id ← validate_id (some item)
  ids ← validate_ids items
  ok (id ∷ ids)

-- `if ('services' in document)`: the validator of a property that is there
abbrev pub if_present {ℓ} :
    {A : Type ℓ} → (Option Json → Result A) → Option Json → Result (Option A)
if_present validate none = ok none
if_present validate (some value) = do a ← validate (some value); ok (some a)

-- `'publicKeys' in document` throws on what is no object.
abbrev pub is_object : Json → Bool
is_object (obj fields) = true
is_object (arr items) = true
is_object _ = false

unfoldable pub validate_add_public_keys_patch : Json → Result Patch
validate_add_public_keys_patch patch = do
  count ← count_properties patch
  throw_if (not (count == 2)) document_composer_patch_missing_or_unknown_property
  keys ← property patch (codes "publicKeys") >>= validate_public_keys
  ok (add_public_keys keys)

unfoldable pub validate_remove_public_keys_patch : Json → Result Patch
validate_remove_public_keys_patch patch = do
  throw_if (not (has_only (codes "action" ∷ codes "ids" ∷ []) patch))
      document_composer_unknown_property_in_remove_public_keys_patch
  items ← property patch (codes "ids") >>= array_or document_composer_patch_public_key_ids_not_array
  ids ← validate_ids items
  ok (remove_public_keys ids)

unfoldable pub validate_remove_services_patch : Json → Result Patch
validate_remove_services_patch patch = do
  throw_if (not (has_only (codes "action" ∷ codes "ids" ∷ []) patch))
      document_composer_unknown_property_in_remove_services_patch
  items ← property patch (codes "ids") >>= array_or document_composer_patch_service_ids_not_array
  ids ← validate_ids items
  ok (remove_services ids)

module _ (is_uri : Text → Bool) where
  -- `is_uri` is `URI.parse` of the package uri-js, which sets no `error`.
  unfoldable pub validate_service_endpoint : Option Json → Result Json
  validate_service_endpoint (some (str s)) = do
    throw_if (not (is_uri s)) document_composer_patch_service_endpoint_string_not_valid_uri
    ok (str s)
  validate_service_endpoint (some (obj fields)) = ok (obj fields)
  validate_service_endpoint (some null) = ok null
  validate_service_endpoint (some (arr items)) =
      err (sidetree document_composer_patch_service_endpoint_cannot_be_an_array)
  validate_service_endpoint _ =
      err (sidetree document_composer_patch_service_endpoint_must_be_string_or_non_array_object)

  -- one round of the loop of `validateServices`, with the ids before
  unfoldable pub validate_service : List Text → Json → Result Service
  validate_service service_id_set service = do
    count ← count_properties service
    throw_if (not (count == 3)) document_composer_service_has_missing_or_unknown_property
    id ← property service (codes "id") >>= validate_id
    throw_if (member id service_id_set) document_composer_patch_service_id_not_unique
    type ←
        property service (codes "type")
        >>= string_or document_composer_patch_service_type_not_string
    throw_if (ltb 30 (length type)) document_composer_patch_service_type_too_long
    service_endpoint ← property service (codes "serviceEndpoint") >>= validate_service_endpoint
    ok (record { id = id; type = type; service_endpoint = service_endpoint })

  unfoldable pub validate_services_from : List Text → Items → Result (List Service)
  validate_services_from service_id_set nil = ok []
  validate_services_from service_id_set (cons item items) = do
    service ← validate_service service_id_set item
    services ← validate_services_from (service.id ∷ service_id_set) items
    ok (service ∷ services)

  unfoldable pub validate_services : Option Json → Result (List Service)
  validate_services services = do
    items ← array_or document_composer_patch_services_not_array services
    validate_services_from [] items

  unfoldable pub validate_document : Option Json → Result Document
  validate_document none = err (sidetree document_composer_document_missing)
  validate_document (some document) = do
    throw_if (not (has_only (codes "publicKeys" ∷ codes "services" ∷ []) document))
        document_composer_unknown_property_in_document
    if is_object document then ok tt else err unexpected
    public_keys ← property document (codes "publicKeys") >>= if_present validate_public_keys
    services ← property document (codes "services") >>= if_present validate_services
    ok (record { public_keys = public_keys; services = services })

  unfoldable pub validate_add_services_patch : Json → Result Patch
  validate_add_services_patch patch = do
    count ← count_properties patch
    throw_if (not (count == 2)) document_composer_patch_missing_or_unknown_property
    services ← property patch (codes "services")
    items ← array_or document_composer_patch_services_not_array services
    valid ← validate_services services
    ok (add_services valid)

  unfoldable pub validate_replace_patch : Json → Result Patch
  validate_replace_patch patch = do
    document ← property patch (codes "document") >>= validate_document
    ok (replace document)

  unfoldable pub validate_patch : Json → Result Patch
  validate_patch patch = do
    action ← property patch (codes "action")
    if is_text action (codes "replace")
        then validate_replace_patch patch
        else if is_text action (codes "add-public-keys")
        then validate_add_public_keys_patch patch
        else if is_text action (codes "remove-public-keys")
        then validate_remove_public_keys_patch patch
        else if is_text action (codes "add-services")
        then validate_add_services_patch patch
        else if is_text action (codes "remove-services")
        then validate_remove_services_patch patch
        else err (sidetree document_composer_patch_missing_or_unknown_action)

  unfoldable pub validate_patches : Items → Result (List Patch)
  validate_patches nil = ok []
  validate_patches (cons item items) = do
    patch ← validate_patch item
    patches ← validate_patches items
    ok (patch ∷ patches)

  unfoldable pub validate_document_patches : Option Json → Result (List Patch)
  validate_document_patches patches = do
    items ← array_or document_composer_update_operation_document_patches_not_array patches
    validate_patches items
