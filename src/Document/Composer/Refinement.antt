-- ===== src/Document/Composer/Refinement.antt =====
-- `applyPatches` against a specification in which a document is two maps from ids, with no order
-- and no representation.
use sidetree_js.Prelude.{◌≡◌, refl, ◌∙◌, Option, none, List, [], ◌∷◌, arith, if◌then◌else◌, All}
use sidetree_js.Prelude.Text.{Text, member}
use sidetree_js.Errors.{ok}
use sidetree_js.Document.{
  PublicKey, Service, Document, Patch, replace, add_public_keys, remove_public_keys, add_services,
  remove_services, unknown,
}
use sidetree_js.Document.Find.{or_else, find, HasDistinctIds, find_last-eq-find}
use sidetree_js.Document.Composer.{
  apply_patch, apply_patches, add_keys, remove_keys, merge_services, drop_services,
}
use sidetree_js.Document.Composer.Keys.{
  key_id, find_key, HasDistinctKeys, find_key-add_keys, add_keys-HasDistinctKeys,
  find_key-remove_keys, remove_keys-HasDistinctKeys,
}
use sidetree_js.Document.Composer.Upsert.{service_id}
use sidetree_js.Document.Composer.Services.{
  find_service, HasDistinctServices, find_service-merge_services,
  merge_services-HasDistinctServices, find_service-drop_services, drop_services-HasDistinctServices,
}

-- No id is used by two keys or by two services.
pub record IsWellFormed (d : Document) : Type 0 where
  pub distinct_keys : HasDistinctKeys d
  pub distinct_services : HasDistinctServices d

-- What `validateDocumentPatches` establishes about ids.
abbrev pub IsValidPatch : Patch → Type 0
IsValidPatch (replace d) = IsWellFormed d
IsValidPatch (add_public_keys ks) = HasDistinctIds key_id ks
IsValidPatch (remove_public_keys ids) = Unit
IsValidPatch (add_services ss) = HasDistinctIds service_id ss
IsValidPatch (remove_services ids) = Unit
IsValidPatch (unknown action) = ⊥

-- A document as its readers see it.
pub record View : Type 0 where
  pub key : Text → Option PublicKey
  pub service : Text → Option Service

abbrev pub view : Document → View
view d = record { key = λ j. find_key j d; service = λ j. find_service j d }

-- What a patch means: additions win over what was there, removals are by id.
abbrev pub patched : View → Patch → View
patched v (replace d) = view d
patched v (add_public_keys ks) = record v { key = λ j. or_else (find key_id j ks) (v.key j) }
patched v (remove_public_keys ids) = record v { key = λ j. if member j ids then none else v.key j }
patched v (add_services ss) = record v {
  service = λ j. or_else (find service_id j ss) (v.service j);
}
patched v (remove_services ids) = record v {
  service = λ j. if member j ids then none else v.service j;
}
patched v (unknown action) = v

abbrev pub patched_all : View → List Patch → View
patched_all v [] = v
patched_all v (p ∷ ps) = patched_all (patched v p) ps

pub record Refines (d : Document) (v : View) : Type 0 where
  pub well_formed : IsWellFormed d
  pub keys : (j : Text) → find_key j d ≡ v.key j
  pub services : (j : Text) → find_service j d ≡ v.service j

services-remove_keys : (d : Document) (ids : List Text) → (remove_keys d ids).services ≡ d.services
unfolding remove_keys
services-remove_keys d ids = ground arith

public_keys-drop_services :
    (d : Document) (ids : List Text) → (drop_services d ids).public_keys ≡ d.public_keys
unfolding drop_services
public_keys-drop_services d ids = ground arith

abbrev Stepped : Document → View → Patch → Type 0
Stepped d v p = (d' : Document) × (apply_patch d p ≡ ok d') × Refines d' (patched v p)

apply_patch-Refines :
    (d : Document) (v : View) (p : Patch) → Refines d v → IsValidPatch p → Stepped d v p
unfolding apply_patch
apply_patch-Refines d v (replace new) r h =
    (new, refl, record { well_formed = h; keys = λ j. refl; services = λ j. refl })
apply_patch-Refines d v (add_public_keys ks) r h = (
  add_keys d ks,
  refl,
  record {
    well_formed = record {
      distinct_keys = add_keys-HasDistinctKeys d ks;
      distinct_services = unfold add_keys in r.well_formed.distinct_services;
    };
    keys = λ j.
        find_key-add_keys d ks j r.well_formed.distinct_keys
        ∙ rw (find_last-eq-find key_id j ks h, r.keys j);
    services = unfold add_keys in r.services;
  },
)
apply_patch-Refines d v (remove_public_keys ids) r h = (
  remove_keys d ids,
  refl,
  record {
    well_formed = record {
      distinct_keys = remove_keys-HasDistinctKeys d ids r.well_formed.distinct_keys;
      distinct_services = rw services-remove_keys r.well_formed.distinct_services;
    };
    keys = λ j. find_key-remove_keys d ids j ∙ rw (r.keys j);
    services = λ j. rw services-remove_keys (r.services j);
  },
)
apply_patch-Refines d v (add_services ss) r h = (
  merge_services d ss,
  refl,
  record {
    well_formed = record {
      distinct_keys = unfold merge_services in r.well_formed.distinct_keys;
      distinct_services = merge_services-HasDistinctServices d ss h r.well_formed.distinct_services;
    };
    keys = unfold merge_services in r.keys;
    services = λ j.
        find_service-merge_services d ss h r.well_formed.distinct_services j ∙ rw (r.services j);
  },
)
apply_patch-Refines d v (remove_services ids) r h = (
  drop_services d ids,
  refl,
  record {
    well_formed = record {
      distinct_keys = rw public_keys-drop_services r.well_formed.distinct_keys;
      distinct_services = drop_services-HasDistinctServices d ids r.well_formed.distinct_services;
    };
    keys = λ j. rw public_keys-drop_services (r.keys j);
    services = λ j. find_service-drop_services d ids j ∙ rw (r.services j);
  },
)
apply_patch-Refines d v (unknown action) r h = absurd h

apply_patches-Refines_from :
    (d : Document) (v : View) (ps : List Patch)
    → Refines d v
    → All IsValidPatch ps
    → (d' : Document) × (apply_patches d ps ≡ ok d') × Refines d' (patched_all v ps)
unfolding apply_patches
apply_patches-Refines_from d v [] r h = (d, refl, r)
apply_patches-Refines_from d v (p ∷ ps) r h =
    let (d1, step, r1) = apply_patch-Refines d v p r h.0 in
    let (d2, rest, r2) = apply_patches-Refines_from d1 (patched v p) ps r1 h.1 in
    (d2, rw step rest, r2)

-- On a well-formed document and patches whose ids are valid, `applyPatches` throws nothing and
-- returns a well-formed document, whose keys and services are those of the specification.
pub apply_patches-Refines :
    (d : Document) (ps : List Patch)
    → IsWellFormed d
    → All IsValidPatch ps
    → (d' : Document) × (apply_patches d ps ≡ ok d') × Refines d' (patched_all (view d) ps)
apply_patches-Refines d ps w h =
    apply_patches-Refines_from d (view d) ps
      (record { well_formed = w; keys = λ j. refl; services = λ j. refl }) h
