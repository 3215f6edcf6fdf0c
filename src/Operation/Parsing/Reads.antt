-- ===== src/Operation/Parsing/Reads.antt =====
-- What the calls of the parsers returned, of an operation that they return: the signed data is the
-- payload of the JWS, its key is the one that the reveal value commits to, and its delta is valid.
use mathlib.Core.Path.{subst}
use sidetree_js.Prelude.{◌≡◌, refl, ap, ◌∙◌, not, Option, some}
use sidetree_js.Prelude.Text.{Text, codes}
use sidetree_js.Errors.{ErrorCode, ok, ◌>>=◌, >>=-eq-ok, ok-injective, throw_if-eq-ok}
use sidetree_js.Json.{Json, str, property, is_text}
use sidetree_js.Json.Typing.{string_or, string_or-eq-ok}
use sidetree_js.Crypto.{CryptoLib}
use sidetree_js.Crypto.Multihash.{validate_canonicalize_object_hash}
use sidetree_js.Input.{validate_object_contains_only_allowed_properties, validate_encoded_multihash}
use sidetree_js.Operation.{Delta, Jws, UpdateOperation, RecoverOperation, DeactivateOperation}
use sidetree_js.Operation.Parsing.{ParserLib, parse_compact_jws, validate_delta, delta_or_undefined}
use sidetree_js.Operation.Parsing.Operations.{
  parse_update_signed_data, parse_update_object, parse_recover_signed_data, parse_recover_object,
  parse_deactivate_signed_data, parse_deactivate_object,
}

module _ (lib : CryptoLib) (node : ParserLib) (object : Json) where
  -- What each of the three has in common: the DID suffix, the reveal value and the JWS of the text,
  -- and a key whose hash the reveal value is.
  pub record Reads (suffix reveal_value : Text) (jws : Jws) (key : Json) : Type 0 where
    pub is_suffix : property object (codes "didSuffix") ≡ ok (some (str suffix))
    pub is_multihash :
        (property object (codes "revealValue") >>= validate_encoded_multihash lib) ≡ ok reveal_value
    pub is_jws : (property object (codes "signedData") >>= parse_compact_jws node) ≡ ok jws
    pub is_revealed : validate_canonicalize_object_hash lib key reveal_value ≡ ok tt

  pub record ReadsUpdate (o : UpdateOperation) : Type 0 where
    pub reads : Reads o.did_unique_suffix o.reveal_value o.signed_data_jws o.update_key
    pub signed :
        parse_update_signed_data lib node o.signed_data_jws.payload
        ≡ ok (record { update_key = o.update_key; delta_hash = o.delta_hash })
    pub delta : Delta
    pub delta_value : Option Json
    pub at_delta : property object (codes "delta") ≡ ok delta_value
    pub is_delta : validate_delta lib node delta_value ≡ ok delta
    pub has_delta : o.delta ≡ some delta

  pub record ReadsRecover (o : RecoverOperation) : Type 0 where
    pub reads : Reads o.did_unique_suffix o.reveal_value o.signed_data_jws o.recovery_key
    pub signed :
        parse_recover_signed_data lib node o.signed_data_jws.payload
        ≡ ok (record {
          recovery_key = o.recovery_key;
          delta_hash = o.delta_hash;
          recovery_commitment = o.recovery_commitment;
        })
    pub delta_value : Option Json
    pub has_delta : o.delta ≡ delta_or_undefined lib node delta_value

  pub record ReadsDeactivate (o : DeactivateOperation) : Type 0 where
    pub reads : Reads o.did_unique_suffix o.reveal_value o.signed_data_jws o.recovery_key
    pub signed :
        parse_deactivate_signed_data lib node o.signed_data_jws.payload (some o.did_unique_suffix)
        ≡ ok o.recovery_key

  read_suffix :
      (code : ErrorCode) (suffix : Text)
      → (property object (codes "didSuffix") >>= string_or code) ≡ ok suffix
      → property object (codes "didSuffix") ≡ ok (some (str suffix))
  read_suffix code suffix h =
      let (value, found, is_string) = >>=-eq-ok (property object (codes "didSuffix")) _ h in
      found ∙ ap (λ v. ok v) (string_or-eq-ok code value suffix is_string)

  -- Of an update operation that `parseObject` returns: the DID suffix is the text of the request; the
  -- reveal value is a multihash of a supported algorithm, and the hash of the update key; the JWS is
  -- what the request signs, and the update key and the hash of the delta are in its payload; and
  -- there is a delta, which passes `validateDelta`.
  pub parse_update_object-ReadsUpdate :
      (o : UpdateOperation) → parse_update_object lib node object ≡ ok o → ReadsUpdate o
  unfolding parse_update_object
  parse_update_object-ReadsUpdate o h =
      let (only, allowed, h1) =
        >>=-eq-ok (validate_object_contains_only_allowed_properties object _) _ h in
      let (type, at_type, h2) = >>=-eq-ok (property object (codes "type")) _ h1 in
      let (updates, h3) = throw_if-eq-ok (not (is_text type (codes "update"))) _ _ h2 in
      let (suffix, is_suffix, h4) =
        >>=-eq-ok (property object (codes "didSuffix") >>= string_or _) _ h3 in
      let (reveal_value, is_multihash, h5) =
        >>=-eq-ok (property object (codes "revealValue") >>= validate_encoded_multihash lib) _ h4 in
      let (jws, is_jws, h6) =
        >>=-eq-ok (property object (codes "signedData") >>= parse_compact_jws node) _ h5 in
      let (model, signed, h7) = >>=-eq-ok (parse_update_signed_data lib node jws.payload) _ h6 in
      let (u, is_revealed, h8) =
        >>=-eq-ok (validate_canonicalize_object_hash lib model.update_key reveal_value) _ h7 in
      let (delta, is_delta, h9) =
        >>=-eq-ok (property object (codes "delta") >>= validate_delta lib node) _ h8 in
      let (value, at_delta, delta_valid) = >>=-eq-ok (property object (codes "delta")) _ is_delta in
      subst ReadsUpdate (ok-injective h9) (record {
        reads = record {
          is_suffix = read_suffix _ suffix is_suffix;
          is_multihash = is_multihash;
          is_jws = is_jws;
          is_revealed = is_revealed;
        };
        signed = signed;
        delta = delta;
        delta_value = value;
        at_delta = at_delta;
        is_delta = delta_valid;
        has_delta = refl;
      })

  pub parse_recover_object-ReadsRecover :
      (o : RecoverOperation) → parse_recover_object lib node object ≡ ok o → ReadsRecover o
  unfolding parse_recover_object
  parse_recover_object-ReadsRecover o h =
      let (only, allowed, h1) =
        >>=-eq-ok (validate_object_contains_only_allowed_properties object _) _ h in
      let (type, at_type, h2) = >>=-eq-ok (property object (codes "type")) _ h1 in
      let (recovers, h3) = throw_if-eq-ok (not (is_text type (codes "recover"))) _ _ h2 in
      let (suffix, is_suffix, h4) =
        >>=-eq-ok (property object (codes "didSuffix") >>= string_or _) _ h3 in
      let (reveal_value, is_multihash, h5) =
        >>=-eq-ok (property object (codes "revealValue") >>= validate_encoded_multihash lib) _ h4 in
      let (jws, is_jws, h6) =
        >>=-eq-ok (property object (codes "signedData") >>= parse_compact_jws node) _ h5 in
      let (model, signed, h7) = >>=-eq-ok (parse_recover_signed_data lib node jws.payload) _ h6 in
      let (u, is_revealed, h8) =
        >>=-eq-ok (validate_canonicalize_object_hash lib model.recovery_key reveal_value) _ h7 in
      let (value, at_delta, h9) = >>=-eq-ok (property object (codes "delta")) _ h8 in
      subst ReadsRecover (ok-injective h9) (record {
        reads = record {
          is_suffix = read_suffix _ suffix is_suffix;
          is_multihash = is_multihash;
          is_jws = is_jws;
          is_revealed = is_revealed;
        };
        signed = signed;
        delta_value = value;
        has_delta = refl;
      })

  pub parse_deactivate_object-ReadsDeactivate :
      (o : DeactivateOperation) → parse_deactivate_object lib node object ≡ ok o → ReadsDeactivate o
  unfolding parse_deactivate_object
  parse_deactivate_object-ReadsDeactivate o h =
      let (only, allowed, h1) =
        >>=-eq-ok (validate_object_contains_only_allowed_properties object _) _ h in
      let (type, at_type, h2) = >>=-eq-ok (property object (codes "type")) _ h1 in
      let (deactivates, h3) = throw_if-eq-ok (not (is_text type (codes "deactivate"))) _ _ h2 in
      let (suffix, is_suffix, h4) =
        >>=-eq-ok (property object (codes "didSuffix") >>= string_or _) _ h3 in
      let (reveal_value, is_multihash, h5) =
        >>=-eq-ok (property object (codes "revealValue") >>= validate_encoded_multihash lib) _ h4 in
      let (jws, is_jws, h6) =
        >>=-eq-ok (property object (codes "signedData") >>= parse_compact_jws node) _ h5 in
      let (key, signed, h7) =
        >>=-eq-ok (parse_deactivate_signed_data lib node jws.payload (some suffix)) _ h6 in
      let (u, is_revealed, h8) =
        >>=-eq-ok (validate_canonicalize_object_hash lib key reveal_value) _ h7 in
      subst ReadsDeactivate (ok-injective h8) (record {
        reads = record {
          is_suffix = read_suffix _ suffix is_suffix;
          is_multihash = is_multihash;
          is_jws = is_jws;
          is_revealed = is_revealed;
        };
        signed = signed;
      })
