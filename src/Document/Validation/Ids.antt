-- ===== src/Document/Validation/Ids.antt =====
-- What the checks of ids and purposes establish of the keys and services that pass.
use mathlib.Core.Path.{subst}
use sidetree_js.Prelude.{
  ℕ, ◌≤◌, ◌≡◌, refl, sym, ap, ◌∙◌, Bool, true, false, not, Option, none, some, List, [], ◌∷◌, map,
  arith, ltb, ◌==◌, if◌then◌else◌, length, All,
}
use sidetree_js.Prelude.Text.{Text, codes, member, Distinct}
use sidetree_js.Errors.{ErrorCode, ok, ◌>>=◌, >>=-eq-ok, ok-injective, throw_if-eq-ok}
use sidetree_js.Json.{Json, Items, nil, cons, str, property, count_properties, has_only}
use sidetree_js.Json.Typing.{string_or, array_or, string_or-eq-ok}
use sidetree_js.Arrays.{has_duplicates_from, has_duplicates}
use sidetree_js.Arrays.Duplicates.{Apart, Apart-tail, Apart-head, has_duplicates_iff}
use sidetree_js.Input.{validate_non_array_object}
use sidetree_js.Document.{PublicKey, Service}
use sidetree_js.Document.Find.{HasDistinctIds}
use sidetree_js.Document.Composer.Keys.{key_id}
use sidetree_js.Document.Composer.Upsert.{service_id}
use sidetree_js.Document.Validation.{
  validate_id, public_key_purposes, is_same_value, has_value, has_duplicate_values_from,
  validate_purpose_values, validate_purposes, validate_public_key, validate_public_keys_from,
  validate_public_keys, validate_service_endpoint, validate_service, validate_services_from,
  validate_services,
}

-- The purposes of a key are known, and none occurs twice.
abbrev pub HasGoodPurposes : Option (List Text) → Type 0
HasGoodPurposes none = Unit
HasGoodPurposes (some purposes) =
    All (λ p. member p public_key_purposes ≡ true) purposes × Distinct purposes

pub record IsValidKey (k : PublicKey) : Type 0 where
  pub short_id : length k.id ≤ 50
  pub good_purposes : HasGoodPurposes k.purposes

pub record IsValidService (s : Service) : Type 0 where
  pub short_id : length s.id ≤ 50
  pub short_type : length s.type ≤ 30

pub true_of_not : (b : Bool) → not b ≡ false → b ≡ true
true_of_not true h = refl
true_of_not false h = cc

pub not_ltb : (m n : ℕ) → ltb m n ≡ false → n ≤ m
not_ltb m n h = ground arith

pub validate_id-length :
    (id : Option Json) (text : Text) → validate_id id ≡ ok text → length text ≤ 50
unfolding validate_id
validate_id-length id text h =
    let (t, is_string, h1) = >>=-eq-ok (string_or _ id) _ h in
    let (short, h2) = throw_if-eq-ok (ltb 50 (length t)) _ _ h1 in
    rw (← ok-injective h2) (not_ltb 50 (length t) short)

has_value-eq-member : (t : Text) (ts : List Text) → has_value (str t) (map str ts) ≡ member t ts
unfolding has_value is_same_value member
has_value-eq-member t [] = refl
has_value-eq-member t (s ∷ ts) = rw (has_value-eq-member t ts) refl

string-item :
    (code : ErrorCode) (item : Json) (t : Text) → string_or code (some item) ≡ ok t → item ≡ str t
string-item code item t h = let e = string_or-eq-ok code (some item) t h in cc (e)

validate_purpose_values-eq-ok :
    (seen : List Text) (items : Items) (texts : List Text)
    → validate_purpose_values items ≡ ok texts
    → All (λ p. member p public_key_purposes ≡ true) texts
      × (has_duplicate_values_from (map str seen) items ≡ has_duplicates_from seen texts)
unfolding validate_purpose_values has_duplicate_values_from has_duplicates_from
validate_purpose_values-eq-ok seen nil texts h = rw (← ok-injective h) (tt, refl)
validate_purpose_values-eq-ok seen (cons item items) texts h =
    let (t, is_string, h1) = >>=-eq-ok (string_or _ (some item)) _ h in
    let (known, h2) = throw_if-eq-ok (not (member t public_key_purposes)) _ _ h1 in
    let (ts, rest, h3) = >>=-eq-ok (validate_purpose_values items) _ h2 in
    let (all_known, same) = validate_purpose_values-eq-ok (t ∷ seen) items ts rest in
    rw (← ok-injective h3, string-item _ item t is_string, has_value-eq-member t seen)
      ((true_of_not _ known, all_known), ap (λ later. if member t seen then true else later) same)

HasGoodPurposes-of_valid :
    (value : Option Json) (purposes : Option (List Text))
    → validate_purposes value ≡ ok purposes
    → HasGoodPurposes purposes
unfolding validate_purposes has_duplicates
HasGoodPurposes-of_valid none purposes h = rw (← ok-injective h) tt
HasGoodPurposes-of_valid (some value) purposes h =
    let (items, is_array, h1) = >>=-eq-ok (array_or _ (some value)) _ h in
    let (apart, h2) = throw_if-eq-ok (has_duplicate_values_from [] items) _ _ h1 in
    let (texts, read, h3) = >>=-eq-ok (validate_purpose_values items) _ h2 in
    let (known, same) = validate_purpose_values-eq-ok [] items texts read in
    rw (← ok-injective h3) (known, (has_duplicates_iff texts).0 (sym same ∙ apart))

validate_public_key-IsValidKey :
    (ids : List Text) (item : Json) (k : PublicKey)
    → validate_public_key ids item ≡ ok k
    → (member k.id ids ≡ false) × IsValidKey k
unfolding validate_public_key
validate_public_key-IsValidKey ids item k h =
    let (only, h1) =
      throw_if-eq-ok
        (not (
          has_only (codes "id" ∷ codes "type" ∷ codes "purposes" ∷ codes "publicKeyJwk" ∷ []) item))
        _ _ h in
    let (jwk, is_object, h2) =
      >>=-eq-ok (property item (codes "publicKeyJwk") >>= validate_non_array_object) _ h1 in
    let (type, is_string, h3) = >>=-eq-ok (property item (codes "type") >>= string_or _) _ h2 in
    let (id, is_id, h4) = >>=-eq-ok (property item (codes "id") >>= validate_id) _ h3 in
    let (new, h5) = throw_if-eq-ok (member id ids) _ _ h4 in
    let (purposes, are_good, h6) =
      >>=-eq-ok (property item (codes "purposes") >>= validate_purposes) _ h5 in
    let (id_value, at_id, is_valid) = >>=-eq-ok (property item (codes "id")) _ is_id in
    let (purposes_value, at_purposes, are_valid) =
      >>=-eq-ok (property item (codes "purposes")) _ are_good in
    subst (λ k. (member k.id ids ≡ false) × IsValidKey k) (ok-injective h6)
      (
        new,
        record {
          short_id = validate_id-length id_value id is_valid;
          good_purposes = HasGoodPurposes-of_valid purposes_value purposes are_valid;
        },
      )

-- A loop that adds the id of each element to those before, and returns only elements whose id is
-- not among them, returns elements of distinct ids.
Apart-cons_ids :
    {A : Type 0} (ident : A → Text) (x : A) (xs : List A) (ids : List Text)
    → member (ident x) ids ≡ false
    → Apart (ident x ∷ ids) (map ident xs)
    → HasDistinctIds ident xs
    → Apart ids (map ident (x ∷ xs)) × HasDistinctIds ident (x ∷ xs)
Apart-cons_ids ident x xs ids new apart distinct = (
  (new, Apart-tail (ident x) ids (map ident xs) apart),
  (Apart-head (ident x) ids (map ident xs) apart, distinct),
)

validate_public_keys_from-IsValidKey :
    (ids : List Text) (items : Items) (ks : List PublicKey)
    → validate_public_keys_from ids items ≡ ok ks
    → (Apart ids (map key_id ks) × HasDistinctIds key_id ks) × All IsValidKey ks
unfolding validate_public_keys_from
validate_public_keys_from-IsValidKey ids nil ks h = rw (← ok-injective h) ((tt, tt), tt)
validate_public_keys_from-IsValidKey ids (cons item items) ks h =
    let (k, is_key, h1) = >>=-eq-ok (validate_public_key ids item) _ h in
    let (rest, are_keys, h2) = >>=-eq-ok (validate_public_keys_from (k.id ∷ ids) items) _ h1 in
    let (new, valid) = validate_public_key-IsValidKey ids item k is_key in
    let ((apart, distinct), all_valid) =
      validate_public_keys_from-IsValidKey (k.id ∷ ids) items rest are_keys in
    rw (← ok-injective h2) (Apart-cons_ids key_id k rest ids new apart distinct, (valid, all_valid))

-- Keys that `validatePublicKeys` accepts have distinct ids of at most 50 characters, and known
-- purposes that do not repeat.
pub validate_public_keys-IsValidKey :
    (value : Option Json) (ks : List PublicKey)
    → validate_public_keys value ≡ ok ks
    → HasDistinctIds key_id ks × All IsValidKey ks
unfolding validate_public_keys
validate_public_keys-IsValidKey value ks h =
    let (items, is_array, h1) = >>=-eq-ok (array_or _ value) _ h in
    let ((apart, distinct), valid) = validate_public_keys_from-IsValidKey [] items ks h1 in
    (distinct, valid)

module _ (is_uri : Text → Bool) where
  validate_service-IsValidService :
      (ids : List Text) (item : Json) (s : Service)
      → validate_service is_uri ids item ≡ ok s
      → (member s.id ids ≡ false) × IsValidService s
  unfolding validate_service
  validate_service-IsValidService ids item s h =
      let (count, counted, h1) = >>=-eq-ok (count_properties item) _ h in
      let (three, h2) = throw_if-eq-ok (not (count == 3)) _ _ h1 in
      let (id, is_id, h3) = >>=-eq-ok (property item (codes "id") >>= validate_id) _ h2 in
      let (new, h4) = throw_if-eq-ok (member id ids) _ _ h3 in
      let (type, is_string, h5) = >>=-eq-ok (property item (codes "type") >>= string_or _) _ h4 in
      let (short, h6) = throw_if-eq-ok (ltb 30 (length type)) _ _ h5 in
      let (endpoint, is_endpoint, h7) =
        >>=-eq-ok (property item (codes "serviceEndpoint") >>= validate_service_endpoint is_uri) _
          h6 in
      let (id_value, at_id, is_valid) = >>=-eq-ok (property item (codes "id")) _ is_id in
      subst (λ s. (member s.id ids ≡ false) × IsValidService s) (ok-injective h7)
        (
          new,
          record {
            short_id = validate_id-length id_value id is_valid;
            short_type = not_ltb 30 (length type) short;
          },
        )

  validate_services_from-IsValidService :
      (ids : List Text) (items : Items) (ss : List Service)
      → validate_services_from is_uri ids items ≡ ok ss
      → (Apart ids (map service_id ss) × HasDistinctIds service_id ss) × All IsValidService ss
  unfolding validate_services_from
  validate_services_from-IsValidService ids nil ss h = rw (← ok-injective h) ((tt, tt), tt)
  validate_services_from-IsValidService ids (cons item items) ss h =
      let (s, is_service, h1) = >>=-eq-ok (validate_service is_uri ids item) _ h in
      let (rest, are_services, h2) =
        >>=-eq-ok (validate_services_from is_uri (s.id ∷ ids) items) _ h1 in
      let (new, valid) = validate_service-IsValidService ids item s is_service in
      let ((apart, distinct), all_valid) =
        validate_services_from-IsValidService (s.id ∷ ids) items rest are_services in
      rw (← ok-injective h2)
        (Apart-cons_ids service_id s rest ids new apart distinct, (valid, all_valid))

  -- Services that `validateServices` accepts have distinct ids of at most 50 characters and types
  -- of at most 30.
  pub validate_services-IsValidService :
      (value : Option Json) (ss : List Service)
      → validate_services is_uri value ≡ ok ss
      → HasDistinctIds service_id ss × All IsValidService ss
  unfolding validate_services
  validate_services-IsValidService value ss h =
      let (items, is_array, h1) = >>=-eq-ok (array_or _ value) _ h in
      let ((apart, distinct), valid) = validate_services_from-IsValidService [] items ss h1 in
      (distinct, valid)
