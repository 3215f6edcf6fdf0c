-- ===== src/Operation/Parsing/Fields.antt =====
-- Which property of a request each field of an update operation is read from.
use mathlib.Core.Path.{subst}
use sidetree_js.Prelude.{
  length, ◌≡◌, sym, ap, ◌∙◌, inl, inr, true, not, Option, none, some, ◌==◌, Bool-cases, All,
}
use sidetree_js.Prelude.Text.{Text, codes}
use sidetree_js.Errors.{ok, ◌>>=◌, >>=-eq-ok, ok-injective, throw_if-eq-ok}
use sidetree_js.Json.{
  Json, null, bool, num, str, arr, obj, property, is_text, has_only, count_properties,
}
use sidetree_js.Json.Typing.{string_or, string_or-eq-ok}
use sidetree_js.Crypto.{CryptoLib}
use sidetree_js.Crypto.Multihash.{
  verify_encoded_multihash_for_content, validate_canonicalize_object_hash,
  validate_hash_computed_using_supported_hash_algorithm,
}
use sidetree_js.Input.{
  validate_encoded_multihash, validate_non_array_object,
  validate_object_contains_only_allowed_properties,
}
use sidetree_js.Parameters.{hash_algorithms_in_multihash_code}
use sidetree_js.Document.Validation.{validate_document_patches}
use sidetree_js.Document.Validation.Patches.{
  IsAcceptedPatch, validate_document_patches-IsAcceptedPatch,
}
use sidetree_js.Operation.{Delta, Jws, UpdateOperation}
use sidetree_js.Operation.Parsing.{
  ParserLib, validate_jwk_es256k, decode_as_string, to_compact_jws, parse_compact_jws,
  validate_delta,
}
use sidetree_js.Operation.Parsing.Operations.{
  UpdateSignedData, parse_update_signed_data, parse_update_object,
}
use sidetree_js.Operation.Parsing.Compact.{to_compact_jws-parse_compact_jws}
use sidetree_js.Operation.Parsing.Reads.{parse_update_object-ReadsUpdate}

validate_jwk_es256k-same :
    (value : Option Json) (key : Json) → validate_jwk_es256k value ≡ ok key → value ≡ some key
unfolding validate_jwk_es256k
validate_jwk_es256k-same none key h = cc
validate_jwk_es256k-same (some jwk) key h =
    let (known, h1) = throw_if-eq-ok (not (has_only _ jwk)) _ _ h in
    let (kty, at_kty, h2) = >>=-eq-ok (property jwk (codes "kty")) _ h1 in
    let (is_ec, h3) = throw_if-eq-ok (not (is_text kty (codes "EC"))) _ _ h2 in
    let (crv, at_crv, h4) = >>=-eq-ok (property jwk (codes "crv")) _ h3 in
    let (is_secp, h5) = throw_if-eq-ok (not (is_text crv (codes "secp256k1"))) _ _ h4 in
    let (x, at_x, h6) = >>=-eq-ok (property jwk (codes "x") >>= string_or _) _ h5 in
    let (y, at_y, h7) = >>=-eq-ok (property jwk (codes "y") >>= string_or _) _ h6 in
    let (x_length, h8) = throw_if-eq-ok (not (length x == 43)) _ _ h7 in
    let (y_length, h9) = throw_if-eq-ok (not (length y == 43)) _ _ h8 in
    ap (λ k. some k) (ok-injective h9)

validate_non_array_object-same :
    (value : Option Json) (object : Json)
    → validate_non_array_object value ≡ ok object
    → value ≡ some object
unfolding validate_non_array_object
validate_non_array_object-same none object h = cc
validate_non_array_object-same (some null) object h = cc
validate_non_array_object-same (some (bool b)) object h = cc
validate_non_array_object-same (some (num n)) object h = cc
validate_non_array_object-same (some (str t)) object h = cc
validate_non_array_object-same (some (arr items)) object h = cc
validate_non_array_object-same (some (obj fields)) object h = cc

module _ (lib : CryptoLib) (node : ParserLib) where
  multihash-property :
      (object : Json) (name t : Text)
      → (property object name >>= validate_encoded_multihash lib) ≡ ok t
      → property object name ≡ ok (some (str t))
  unfolding validate_encoded_multihash
  multihash-property object name t h =
      let (value, at_name, h1) = >>=-eq-ok (property object name) _ h in
      let (text, is_string, h2) = >>=-eq-ok (string_or _ value) _ h1 in
      let (u, supported, h3) =
        >>=-eq-ok
          (validate_hash_computed_using_supported_hash_algorithm lib text
            hash_algorithms_in_multihash_code)
          _ h2 in
      at_name
      ∙ ap (λ v. ok v)
          (string_or-eq-ok _ value text is_string ∙ ap (λ s. some (str s)) (ok-injective h3))

  signed-property :
      (object : Json) (name : Text) (jws : Jws)
      → (property object name >>= parse_compact_jws node) ≡ ok jws
      → property object name ≡ ok (some (str (to_compact_jws jws)))
  unfolding parse_compact_jws
  signed-property object name jws h =
      let (value, at_name, parsed) = >>=-eq-ok (property object name) _ h in
      let (text, is_string, h1) = >>=-eq-ok (string_or _ value) _ parsed in
      let is_text = string_or-eq-ok _ value text is_string in
      let same =
        to_compact_jws-parse_compact_jws node text jws null
          (subst (λ v. parse_compact_jws node v ≡ ok jws) is_text parsed) in
      at_name ∙ ap (λ v. ok v) (is_text ∙ ap (λ s. some (str s)) (sym same.0))

  -- The payload of the signed data: a key and the hash of a delta.
  pub record IsUpdatePayload (payload update_key : Json) (delta_hash : Text) : Type 0 where
    pub at_update_key : property payload (codes "updateKey") ≡ ok (some update_key)
    pub at_delta_hash : property payload (codes "deltaHash") ≡ ok (some (str delta_hash))

  -- The JSON text of a delta.
  pub record IsDelta (delta : Delta) : Type 0 where
    pub at_update_commitment :
        property delta.content (codes "updateCommitment") ≡ ok (some (str delta.update_commitment))
    pub patches_value : Option Json
    pub at_patches : property delta.content (codes "patches") ≡ ok patches_value
    pub are_patches : validate_document_patches node.is_uri patches_value ≡ ok delta.patches
    pub accepted : All IsAcceptedPatch delta.patches

  pub record HasUpdateFields (object : Json) (o : UpdateOperation) : Type 0 where
    pub at_did_suffix : property object (codes "didSuffix") ≡ ok (some (str o.did_unique_suffix))
    pub at_reveal_value : property object (codes "revealValue") ≡ ok (some (str o.reveal_value))
    pub at_signed_data :
        property object (codes "signedData") ≡ ok (some (str (to_compact_jws o.signed_data_jws)))
    pub payload : Json
    pub is_payload :
        (decode_as_string node o.signed_data_jws.payload >>= node.json_parse_async) ≡ ok payload
    pub signed : IsUpdatePayload payload o.update_key o.delta_hash
    pub key_buffer : Text
    pub is_key_buffer : lib.canonicalize o.update_key ≡ ok key_buffer
    pub reveals : verify_encoded_multihash_for_content lib key_buffer o.reveal_value ≡ true
    pub delta : Delta
    pub has_delta : o.delta ≡ some delta
    pub at_delta : property object (codes "delta") ≡ ok (some delta.content)
    pub is_delta : IsDelta delta

  signed-IsUpdatePayload :
      (text : Text) (key : Json) (delta_hash : Text)
      → parse_update_signed_data lib node text
        ≡ ok (record { update_key = key; delta_hash = delta_hash })
      → (payload : Json) × ((decode_as_string node text >>= node.json_parse_async) ≡ ok payload)
        × IsUpdatePayload payload key delta_hash
  unfolding parse_update_signed_data
  signed-IsUpdatePayload text key delta_hash h =
      let (payload, is_payload, h1) =
        >>=-eq-ok (decode_as_string node text >>= node.json_parse_async) _ h in
      let (count, counted, h2) = >>=-eq-ok (count_properties payload) _ h1 in
      let (two, h3) = throw_if-eq-ok (not (count == 2)) _ _ h2 in
      let (k, is_key, h4) =
        >>=-eq-ok (property payload (codes "updateKey") >>= validate_jwk_es256k) _ h3 in
      let (d, is_hash, h5) =
        >>=-eq-ok (property payload (codes "deltaHash") >>= validate_encoded_multihash lib) _ h4 in
      let (value, at_key, valid) = >>=-eq-ok (property payload (codes "updateKey")) _ is_key in
      let same = ok-injective h5 in
      (
        payload,
        is_payload,
        subst (λ (m : UpdateSignedData). IsUpdatePayload payload m.update_key m.delta_hash) same
            (record {
              at_update_key = at_key ∙ ap (λ v. ok v) (validate_jwk_es256k-same value k valid);
              at_delta_hash = multihash-property payload (codes "deltaHash") d is_hash;
            }),
      )

  validate_delta-IsDelta :
      (value : Option Json) (delta : Delta)
      → validate_delta lib node value ≡ ok delta
      → (value ≡ some delta.content) × IsDelta delta
  unfolding validate_delta
  validate_delta-IsDelta value delta h =
      let (object, is_object, h1) = >>=-eq-ok (validate_non_array_object value) _ h in
      let (only, allowed, h2) =
        >>=-eq-ok (validate_object_contains_only_allowed_properties object _) _ h1 in
      let (patches, are_patches, h3) =
        >>=-eq-ok (property object (codes "patches") >>= validate_document_patches node.is_uri) _
          h2 in
      let (commitment, is_commitment, h4) =
        >>=-eq-ok (property object (codes "updateCommitment") >>= validate_encoded_multihash lib) _
          h3 in
      let (patches_value, at_patches, valid) =
        >>=-eq-ok (property object (codes "patches")) _ are_patches in
      subst (λ (d : Delta). (value ≡ some d.content) × IsDelta d) (ok-injective h4)
        (
          validate_non_array_object-same value object is_object,
          record {
            at_update_commitment =
                multihash-property object (codes "updateCommitment") commitment is_commitment;
            patches_value = patches_value;
            at_patches = at_patches;
            are_patches = valid;
            accepted =
                validate_document_patches-IsAcceptedPatch node.is_uri patches_value patches valid;
          },
        )

  revealed :
      (key : Json) (reveal_value : Text)
      → validate_canonicalize_object_hash lib key reveal_value ≡ ok tt
      → (buffer : Text) × (lib.canonicalize key ≡ ok buffer)
        × (verify_encoded_multihash_for_content lib buffer reveal_value ≡ true)
  unfolding validate_canonicalize_object_hash
  revealed key reveal_value h =
      let (buffer, canonical, h1) = >>=-eq-ok (lib.canonicalize key) _ h in
      elim (Bool-cases (verify_encoded_multihash_for_content lib buffer reveal_value)) [
        | inl matches ↦ (buffer, canonical, matches)
        | inr differs ↦ absurd (cc (rw differs at h1))
      ]

  -- Every field of an update operation that `parseObject` returns is the request's property of its
  -- name: the DID suffix and the reveal value; the compact form of the JWS, whose payload decodes to
  -- an object with the update key and the hash of the delta; and the delta, whose update commitment
  -- and patches, which are accepted, are its properties. The reveal value is a multihash of the
  -- canonical form of the update key.
  pub parse_update_object-HasUpdateFields :
      (object : Json) (o : UpdateOperation)
      → parse_update_object lib node object ≡ ok o
      → HasUpdateFields object o
  parse_update_object-HasUpdateFields object o h =
      let r = parse_update_object-ReadsUpdate lib node object o h in
      let (payload, is_payload, signed) =
        signed-IsUpdatePayload o.signed_data_jws.payload o.update_key o.delta_hash r.signed in
      let (buffer, canonical, reveals) = revealed o.update_key o.reveal_value r.reads.is_revealed in
      let (same, is_delta) = validate_delta-IsDelta r.delta_value r.delta r.is_delta in
      record {
        at_did_suffix = r.reads.is_suffix;
        at_reveal_value =
            multihash-property object (codes "revealValue") o.reveal_value r.reads.is_multihash;
        at_signed_data =
            signed-property object (codes "signedData") o.signed_data_jws r.reads.is_jws;
        payload = payload;
        is_payload = is_payload;
        signed = signed;
        key_buffer = buffer;
        is_key_buffer = canonical;
        reveals = reveals;
        delta = r.delta;
        has_delta = r.has_delta;
        at_delta = r.at_delta ∙ ap (λ v. ok v) same;
        is_delta = is_delta;
      }
