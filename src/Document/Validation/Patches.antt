-- ===== src/Document/Validation/Patches.antt =====
-- What `validateDocumentPatches` establishes of the patches.
use mathlib.Core.Path.{subst}
use sidetree_js.Prelude.{
  ◌≤◌, ◌≡◌, length, Bool, true, false, not, Option, none, some, List, [], ◌∷◌, ◌==◌, if◌then◌else◌,
  All,
}
use sidetree_js.Prelude.Text.{Text, codes}
use sidetree_js.Errors.{
  sidetree, unexpected, Result, ok, err, ◌>>=◌, >>=-eq-ok, ok-injective, throw_if-eq-ok,
}
use sidetree_js.Errors.{document_composer_patch_missing_or_unknown_action}
use sidetree_js.Json.{Json, Items, nil, cons, property, count_properties, has_only, is_text}
use sidetree_js.Json.Typing.{array_or}
use sidetree_js.Document.{
  Document, Patch, replace, add_public_keys, remove_public_keys, add_services, remove_services,
  unknown,
}
use sidetree_js.Document.Find.{HasDistinctIds}
use sidetree_js.Document.Composer.Upsert.{service_id}
use sidetree_js.Document.Composer.Keys.{key_id, HasDistinctKeys}
use sidetree_js.Document.Composer.Services.{HasDistinctServices}
use sidetree_js.Document.Composer.Refinement.{IsWellFormed, IsValidPatch}
use sidetree_js.Document.Validation.{
  validate_id, validate_public_keys, validate_services, if_present, is_object, validate_document,
  validate_add_public_keys_patch, validate_remove_public_keys_patch, validate_add_services_patch,
  validate_remove_services_patch, validate_replace_patch, validate_ids, validate_patch,
  validate_patches, validate_document_patches,
}
use sidetree_js.Document.Validation.Ids.{
  IsValidKey, IsValidService, validate_id-length, validate_public_keys-IsValidKey,
  validate_services-IsValidService,
}

-- What holds of each element of a list that may be absent.
abbrev pub AllIfPresent : {A : Type 0} → (A → Type 0) → Option (List A) → Type 0
AllIfPresent P none = Unit
AllIfPresent P (some xs) = All P xs

-- What a patch that is accepted has shown: the ids of the keys and of the services that it sets are
-- distinct, these keys and services are valid, and an id that it removes is short. The ids to remove
-- may repeat.
abbrev pub IsAcceptedPatch : Patch → Type 0
IsAcceptedPatch (replace d) =
    IsWellFormed d × AllIfPresent IsValidKey d.public_keys × AllIfPresent IsValidService d.services
IsAcceptedPatch (add_public_keys ks) = HasDistinctIds key_id ks × All IsValidKey ks
IsAcceptedPatch (remove_public_keys ids) = All (λ id. length id ≤ 50) ids
IsAcceptedPatch (add_services ss) = HasDistinctIds service_id ss × All IsValidService ss
IsAcceptedPatch (remove_services ids) = All (λ id. length id ≤ 50) ids
IsAcceptedPatch (unknown action) = ⊥

IsValidPatch-of_accepted : (p : Patch) → IsAcceptedPatch p → IsValidPatch p
IsValidPatch-of_accepted (replace d) h = h.0
IsValidPatch-of_accepted (add_public_keys ks) h = h.0
IsValidPatch-of_accepted (remove_public_keys ids) h = tt
IsValidPatch-of_accepted (add_services ss) h = h.0
IsValidPatch-of_accepted (remove_services ids) h = tt
IsValidPatch-of_accepted (unknown action) h = h

validate_ids-length :
    (items : Items) (ids : List Text) → validate_ids items ≡ ok ids → All (λ id. length id ≤ 50) ids
unfolding validate_ids
validate_ids-length nil ids h = rw (← ok-injective h) tt
validate_ids-length (cons item items) ids h =
    let (id, is_id, h1) = >>=-eq-ok (validate_id (some item)) _ h in
    let (rest, are_ids, h2) = >>=-eq-ok (validate_ids items) _ h1 in
    rw (← ok-injective h2)
      (validate_id-length (some item) id is_id, validate_ids-length items rest are_ids)

of_if_present :
    {A : Type 0} (P : Option A → Type 0) (validate : Option Json → Result A)
    → P none
    → ((value : Option Json) (a : A) → validate value ≡ ok a → P (some a))
    → (value : Option Json) (o : Option A) → if_present validate value ≡ ok o
    → P o
of_if_present P validate absent present none o h = subst P (ok-injective h) absent
of_if_present P validate absent present (some v) o h =
    let (a, valid, h1) = >>=-eq-ok (validate (some v)) _ h in
    subst P (ok-injective h1) (present (some v) a valid)

abbrev Yields : Result Patch → Type 0
Yields result = (p : Patch) → result ≡ ok p → IsAcceptedPatch p

either : (b : Bool) (x y : Result Patch) → Yields x → Yields y → Yields (if b then x else y)
either true x y hx hy = hx
either false x y hx hy = hy

module _ (is_uri : Text → Bool) where
  validate_document-IsAccepted :
      (value : Option Json) (d : Document)
      → validate_document is_uri value ≡ ok d
      → IsAcceptedPatch (replace d)
  unfolding validate_document
  validate_document-IsAccepted none d h = cc
  validate_document-IsAccepted (some document) d h =
      let (only, h1) =
        throw_if-eq-ok (not (has_only (codes "publicKeys" ∷ codes "services" ∷ []) document)) _ _
          h in
      let (u, object, h2) = >>=-eq-ok (if is_object document then ok tt else err unexpected) _ h1 in
      let (keys, are_keys, h3) =
        >>=-eq-ok (property document (codes "publicKeys") >>= if_present validate_public_keys) _
          h2 in
      let (services, are_services, h4) =
        >>=-eq-ok (property document (codes "services") >>= if_present (validate_services is_uri)) _
          h3 in
      let (keys_value, at_keys, keys_valid) =
        >>=-eq-ok (property document (codes "publicKeys")) _ are_keys in
      let (services_value, at_services, services_valid) =
        >>=-eq-ok (property document (codes "services")) _ are_services in
      subst (λ d. IsAcceptedPatch (replace d)) (ok-injective h4)
        (
          record {
            distinct_keys =
                of_if_present (λ o. HasDistinctKeys (record { public_keys = o; services = none }))
                  validate_public_keys tt
                  (λ value ks valid. (validate_public_keys-IsValidKey value ks valid).0) keys_value
                  keys keys_valid;
            distinct_services =
                of_if_present
                  (λ o. HasDistinctServices (record { public_keys = none; services = o }))
                  (validate_services is_uri) tt
                  (λ value ss valid. (validate_services-IsValidService is_uri value ss valid).0)
                  services_value services services_valid;
          },
          of_if_present (AllIfPresent IsValidKey) validate_public_keys tt
              (λ value ks valid. (validate_public_keys-IsValidKey value ks valid).1) keys_value keys
              keys_valid,
          of_if_present (AllIfPresent IsValidService) (validate_services is_uri) tt
              (λ value ss valid. (validate_services-IsValidService is_uri value ss valid).1)
              services_value services services_valid,
        )

  validate_replace-IsAcceptedPatch :
      (item : Json) (p : Patch) → validate_replace_patch is_uri item ≡ ok p → IsAcceptedPatch p
  unfolding validate_replace_patch
  validate_replace-IsAcceptedPatch item p h =
      let (d, is_document, h1) =
        >>=-eq-ok (property item (codes "document") >>= validate_document is_uri) _ h in
      let (value, at_document, valid) =
        >>=-eq-ok (property item (codes "document")) _ is_document in
      subst IsAcceptedPatch (ok-injective h1) (validate_document-IsAccepted value d valid)

  validate_add_public_keys-IsAcceptedPatch :
      (item : Json) (p : Patch) → validate_add_public_keys_patch item ≡ ok p → IsAcceptedPatch p
  unfolding validate_add_public_keys_patch
  validate_add_public_keys-IsAcceptedPatch item p h =
      let (count, counted, h1) = >>=-eq-ok (count_properties item) _ h in
      let (two, h2) = throw_if-eq-ok (not (count == 2)) _ _ h1 in
      let (keys, are_keys, h3) =
        >>=-eq-ok (property item (codes "publicKeys") >>= validate_public_keys) _ h2 in
      let (value, at_keys, valid) = >>=-eq-ok (property item (codes "publicKeys")) _ are_keys in
      subst IsAcceptedPatch (ok-injective h3) (validate_public_keys-IsValidKey value keys valid)

  validate_add_services-IsAcceptedPatch :
      (item : Json) (p : Patch) → validate_add_services_patch is_uri item ≡ ok p → IsAcceptedPatch p
  unfolding validate_add_services_patch
  validate_add_services-IsAcceptedPatch item p h =
      let (count, counted, h1) = >>=-eq-ok (count_properties item) _ h in
      let (two, h2) = throw_if-eq-ok (not (count == 2)) _ _ h1 in
      let (value, at_services, h3) = >>=-eq-ok (property item (codes "services")) _ h2 in
      let (items, is_array, h4) = >>=-eq-ok (array_or _ value) _ h3 in
      let (services, valid, h5) = >>=-eq-ok (validate_services is_uri value) _ h4 in
      subst IsAcceptedPatch (ok-injective h5)
        (validate_services-IsValidService is_uri value services valid)

  validate_remove_public_keys-IsAcceptedPatch :
      (item : Json) (p : Patch) → validate_remove_public_keys_patch item ≡ ok p → IsAcceptedPatch p
  unfolding validate_remove_public_keys_patch
  validate_remove_public_keys-IsAcceptedPatch item p h =
      let (only, h1) =
        throw_if-eq-ok (not (has_only (codes "action" ∷ codes "ids" ∷ []) item)) _ _ h in
      let (items, is_array, h2) = >>=-eq-ok (property item (codes "ids") >>= array_or _) _ h1 in
      let (ids, are_ids, h3) = >>=-eq-ok (validate_ids items) _ h2 in
      subst IsAcceptedPatch (ok-injective h3) (validate_ids-length items ids are_ids)

  validate_remove_services-IsAcceptedPatch :
      (item : Json) (p : Patch) → validate_remove_services_patch item ≡ ok p → IsAcceptedPatch p
  unfolding validate_remove_services_patch
  validate_remove_services-IsAcceptedPatch item p h =
      let (only, h1) =
        throw_if-eq-ok (not (has_only (codes "action" ∷ codes "ids" ∷ []) item)) _ _ h in
      let (items, is_array, h2) = >>=-eq-ok (property item (codes "ids") >>= array_or _) _ h1 in
      let (ids, are_ids, h3) = >>=-eq-ok (validate_ids items) _ h2 in
      subst IsAcceptedPatch (ok-injective h3) (validate_ids-length items ids are_ids)

  validate_patch-IsAcceptedPatch :
      (item : Json) (p : Patch) → validate_patch is_uri item ≡ ok p → IsAcceptedPatch p
  unfolding validate_patch
  validate_patch-IsAcceptedPatch item p h =
      let (action, at_action, h1) = >>=-eq-ok (property item (codes "action")) _ h in
      either (is_text action (codes "replace")) (validate_replace_patch is_uri item) _
        (validate_replace-IsAcceptedPatch item)
        (either (is_text action (codes "add-public-keys")) (validate_add_public_keys_patch item) _
          (validate_add_public_keys-IsAcceptedPatch item)
          (either (is_text action (codes "remove-public-keys"))
            (validate_remove_public_keys_patch item) _
            (validate_remove_public_keys-IsAcceptedPatch item)
            (either (is_text action (codes "add-services"))
              (validate_add_services_patch is_uri item) _
              (validate_add_services-IsAcceptedPatch item)
              (either (is_text action (codes "remove-services"))
                (validate_remove_services_patch item)
                (err (sidetree document_composer_patch_missing_or_unknown_action))
                (validate_remove_services-IsAcceptedPatch item) (λ q thrown. absurd (cc))))))
        p h1

  validate_patches-IsAcceptedPatch :
      (items : Items) (ps : List Patch)
      → validate_patches is_uri items ≡ ok ps
      → All IsAcceptedPatch ps
  unfolding validate_patches
  validate_patches-IsAcceptedPatch nil ps h = rw (← ok-injective h) tt
  validate_patches-IsAcceptedPatch (cons item items) ps h =
      let (p, is_patch, h1) = >>=-eq-ok (validate_patch is_uri item) _ h in
      let (rest, are_patches, h2) = >>=-eq-ok (validate_patches is_uri items) _ h1 in
      rw (← ok-injective h2) (
        validate_patch-IsAcceptedPatch item p is_patch,
        validate_patches-IsAcceptedPatch items rest are_patches,
      )

  -- Of patches that `validateDocumentPatches` accepts, the public keys of one patch that adds keys or
  -- replaces the document have distinct ids of at most 50 characters and known purposes without
  -- repetition, the services of one have distinct ids of at most 50 characters and types of at most
  -- 30, and each id that is removed has at most 50 characters; no patch has an unknown action.
  pub validate_document_patches-IsAcceptedPatch :
      (value : Option Json) (ps : List Patch)
      → validate_document_patches is_uri value ≡ ok ps
      → All IsAcceptedPatch ps
  unfolding validate_document_patches
  validate_document_patches-IsAcceptedPatch value ps h =
      let (items, is_array, h1) = >>=-eq-ok (array_or _ value) _ h in
      validate_patches-IsAcceptedPatch items ps h1

  all_valid : (ps : List Patch) → All IsAcceptedPatch ps → All IsValidPatch ps
  all_valid [] h = tt
  all_valid (p ∷ ps) h = (IsValidPatch-of_accepted p h.0, all_valid ps h.1)

  pub validate_document_patches-IsValidPatch :
      (value : Option Json) (ps : List Patch)
      → validate_document_patches is_uri value ≡ ok ps
      → All IsValidPatch ps
  validate_document_patches-IsValidPatch value ps h =
      all_valid ps (validate_document_patches-IsAcceptedPatch value ps h)
