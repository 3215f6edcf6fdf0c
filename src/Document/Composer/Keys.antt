-- ===== src/Document/Composer/Keys.antt =====
-- `addPublicKeys` and `removePublicKeys` on the view of a document by key id.
use sidetree_js.Prelude.{
  ◌≡◌, refl, ap, ◌∙◌, inl, inr, Option, none, List, [], ◌∷◌, map, arith, if◌then◌else◌,
  Option-cases,
}
use sidetree_js.Prelude.Text.{Text, text_eq_iff, member}
use sidetree_js.Prelude.JsMap
use sidetree_js.Prelude.JsMap.{IsMap, Entries, set-IsMap, get-set}
use sidetree_js.Document.{PublicKey, Document}
use sidetree_js.Document.Find.{
  or_else, or_else-none, find, find_last, HasDistinctIds, find_last-eq-find, find-filter,
  filter-HasDistinctIds,
}
use sidetree_js.Document.Composer.{or_empty, set_keys, add_keys, remove_keys}

abbrev pub key_id : PublicKey → Text
key_id k = k.id

-- every entry of the map is a key under its id
abbrev IsKeyed : List (Text × PublicKey) → Type 0
IsKeyed m = Entries (λ j k. k.id ≡ j) m

set-IsKeyed :
    (k : PublicKey) (m : List (Text × PublicKey)) → IsKeyed m → IsKeyed (JsMap.set k.id k m)
unfolding JsMap.set
set-IsKeyed k [] h = (refl, tt)
set-IsKeyed k ((j, v) ∷ m) h = ground (arith, set-IsKeyed k m h.1, text_eq_iff j k.id)

find-values :
    (j : Text) (m : List (Text × PublicKey))
    → IsKeyed m
    → find key_id j (JsMap.values m) ≡ JsMap.get j m
unfolding find JsMap.get JsMap.values
find-values j [] h = refl
find-values j ((i, v) ∷ m) h = ground (arith, find-values j m h.1)

ids-values : (m : List (Text × PublicKey)) → IsKeyed m → map key_id (JsMap.values m) ≡ JsMap.keys m
unfolding JsMap.values
ids-values [] h = refl
ids-values ((i, v) ∷ m) h = ground (arith, ids-values m h.1)

set_keys-IsKeyed :
    (ks : List PublicKey) (m : List (Text × PublicKey)) → IsKeyed m → IsKeyed (set_keys ks m)
unfolding set_keys
set_keys-IsKeyed [] m h = h
set_keys-IsKeyed (k ∷ ks) m h = set_keys-IsKeyed ks (JsMap.set k.id k m) (set-IsKeyed k m h)

set_keys-IsMap :
    (ks : List PublicKey) (m : List (Text × PublicKey)) → IsMap m → IsMap (set_keys ks m)
unfolding set_keys
set_keys-IsMap [] m h = h
set_keys-IsMap (k ∷ ks) m h = set_keys-IsMap ks (JsMap.set k.id k m) (set-IsMap k.id k m h)

get-set_keys :
    (j : Text) (ks : List PublicKey) (m : List (Text × PublicKey))
    → JsMap.get j (set_keys ks m) ≡ or_else (find_last key_id j ks) (JsMap.get j m)
unfolding set_keys find_last
get-set_keys j [] m = refl
get-set_keys j (k ∷ ks) m =
    ground (arith, get-set_keys j ks (JsMap.set k.id k m), get-set k.id j k m)

-- The key of a document with a given id.
abbrev pub find_key : Text → Document → Option PublicKey
find_key k d = find key_id k (or_empty d.public_keys)

abbrev pub HasDistinctKeys : Document → Type 0
HasDistinctKeys d = HasDistinctIds key_id (or_empty d.public_keys)

pub find_key-add_keys :
    (d : Document) (ks : List PublicKey) (j : Text)
    → HasDistinctKeys d
    → find_key j (add_keys d ks) ≡ or_else (find_last key_id j ks) (find_key j d)
unfolding add_keys JsMap.get
find_key-add_keys d ks j h =
    let old = or_empty d.public_keys in
    let keyed = set_keys-IsKeyed old [] tt in
    find-values j (set_keys ks (set_keys old [])) (set_keys-IsKeyed ks _ keyed)
    ∙ get-set_keys j ks (set_keys old [])
    ∙ ap (or_else (find_last key_id j ks))
        (get-set_keys j old [] ∙ or_else-none _ ∙ find_last-eq-find key_id j old h)

pub add_keys-HasDistinctKeys :
    (d : Document) (ks : List PublicKey) → HasDistinctKeys (add_keys d ks)
unfolding add_keys
add_keys-HasDistinctKeys d ks =
    let old = or_empty d.public_keys in
    rw (ids-values _ (set_keys-IsKeyed ks _ (set_keys-IsKeyed old [] tt)))
      (set_keys-IsMap ks _ (set_keys-IsMap old [] tt))

pub find_key-remove_keys :
    (d : Document) (ids : List Text) (j : Text)
    → find_key j (remove_keys d ids) ≡ (if member j ids then none else find_key j d)
unfolding remove_keys find
find_key-remove_keys d ids j = elim (Option-cases d.public_keys) [
  | inl absent ↦ ground arith
  | inr (keys, present) ↦ rw (present, remove_keys) (find-filter key_id ids j keys)
]

pub remove_keys-HasDistinctKeys :
    (d : Document) (ids : List Text) → HasDistinctKeys d → HasDistinctKeys (remove_keys d ids)
unfolding remove_keys
remove_keys-HasDistinctKeys d ids h = elim (Option-cases d.public_keys) [
  | inl absent ↦ rw (absent, remove_keys) (rw absent tt)
  | inr (keys, present) ↦
      rw (present, remove_keys) (filter-HasDistinctIds key_id ids keys (rw present at h))
]
