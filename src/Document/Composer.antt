-- ===== src/Document/Composer.antt =====
-- packages/core/src/DocumentComposer.ts, `applyPatches`: the patches of a delta on a document. The
-- code changes the document in place; its callers drop the document when a patch throws, so a
-- `Result` with the new document says the same.
pub mod Upsert
pub mod Keys
pub mod Services
pub mod Refinement
use sidetree_js.Prelude.{
  ℕ, zero, suc, Bool, not, Option, none, some, List, [], ◌∷◌, ◌++◌, filter, if◌then◌else◌,
}
use sidetree_js.Prelude.Text.{Text, member}
use sidetree_js.Prelude.JsMap
use sidetree_js.Errors.{
  Result, ok, err, sidetree, document_composer_apply_patch_unknown_action, ◌>>=◌,
}
use sidetree_js.Document.{
  PublicKey, Service, Document, Patch, replace, add_public_keys, remove_public_keys, add_services,
  remove_services, unknown,
}

-- `document.publicKeys || []`
abbrev pub or_empty {ℓ} : {A : Type ℓ} → Option (List A) → List A
or_empty none = []
or_empty (some xs) = xs

-- `publicKeyMap.set(publicKey.id, publicKey)` for each key, which also fills the map at first
unfoldable pub set_keys : List PublicKey → List (Text × PublicKey) → List (Text × PublicKey)
set_keys [] m = m
set_keys (k ∷ ks) m = set_keys ks (JsMap.set k.id k m)

unfoldable pub add_keys : Document → List PublicKey → Document
add_keys document keys = record document {
  public_keys = some (JsMap.values (set_keys keys (set_keys (or_empty document.public_keys) [])));
}

unfoldable pub remove_keys : Document → List Text → Document
remove_keys document ids = elim document.public_keys [
  | none ↦ document
  | some keys ↦ record document { public_keys = some (filter (λ k. not (member k.id ids)) keys) }
]

-- `services[index] = service`
unfoldable pub set_service : List Service → ℕ → Service → List Service
set_service [] index service = []
set_service (s ∷ ss) zero service = service ∷ ss
set_service (s ∷ ss) (suc index) service = s ∷ set_service ss index service

-- `idToIndexMapper`, from the services at `index` and after
unfoldable pub index_services : List Service → ℕ → List (Text × ℕ) → List (Text × ℕ)
index_services [] index m = m
index_services (s ∷ ss) index m = index_services ss (suc index) (JsMap.set s.id index m)

-- One round of the loop of `addServices`: the map is not extended by a service that is pushed.
unfoldable pub put_service : List (Text × ℕ) → List Service → Service → List Service
put_service m services service = elim (JsMap.get service.id m) [
  | some index ↦ set_service services index service
  | none ↦ services ++ service ∷ []
]

unfoldable pub put_services : List (Text × ℕ) → List Service → List Service → List Service
put_services m services [] = services
put_services m services (s ∷ ss) = put_services m (put_service m services s) ss

unfoldable pub merge_services : Document → List Service → Document
merge_services document services =
    let present = or_empty document.services in
    record document {
      services = some (put_services (index_services present 0 []) present services);
    }

unfoldable pub drop_services : Document → List Text → Document
drop_services document ids = elim document.services [
  | none ↦ document
  | some services ↦ record document {
    services = some (filter (λ s. not (member s.id ids)) services);
  }
]

unfoldable pub apply_patch : Document → Patch → Result Document
apply_patch document (replace new) = ok new
apply_patch document (add_public_keys keys) = ok (add_keys document keys)
apply_patch document (remove_public_keys ids) = ok (remove_keys document ids)
apply_patch document (add_services services) = ok (merge_services document services)
apply_patch document (remove_services ids) = ok (drop_services document ids)
apply_patch document (unknown action) = err (sidetree document_composer_apply_patch_unknown_action)

unfoldable pub apply_patches : Document → List Patch → Result Document
apply_patches document [] = ok document
apply_patches document (p ∷ ps) = do document' ← apply_patch document p; apply_patches document' ps
