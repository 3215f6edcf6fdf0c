-- ===== src/Operation/Parsing.antt =====
-- packages/core/src: how an operation is parsed from its buffer, Jws.ts, Jwk.ts, validateDelta.ts,
-- Delta.ts, computeUniqueSuffix.ts, Operation.ts and the four classes of operations. The bodies of
-- the classes are in Operations.
pub mod Compact
pub mod Operations
pub mod Reads
pub mod Fields
pub mod Deltas
use sidetree_js.Prelude.{
  ℕ, zero, suc, ◌+◌, ◌-◌, ◌*◌, ◌/◌, ◌%◌, ◌≤◌, ◌<◌, max, ◌≡◌, refl, sym, ap, ◌∙◌, ◌≢◌, ◌↔◌, ◌⊎◌, inl,
  inr, Bool, true, false, not, ◌&&◌, ◌||◌, Option, none, some, List, [], ◌∷◌, ◌++◌, map, append-nil,
  append_assoc, arith, ltb, leb, ◌==◌, if◌then◌else◌, ltb→lt, leb→le, ==_iff, Bool-cases,
  Option-cases, length, get_elem?, take, drop, filter, length-append, All, All-append, All-filter,
  All-of_mem, All-at_mem,
}
use sidetree_js.Prelude.Text.{
  Text, codes, text_eq, text_eq_sound, text_eq_refl, text_eq_iff, member, Distinct,
}
use sidetree_js.Errors.{
  ErrorCode, Failure, sidetree, unexpected, Result, ok, err, ◌>>=◌, ◌>>◌, throw_if, >>=-eq-ok,
  Result-cases, ok-injective, throw_if-eq-ok, if-eq-ok,
}
use sidetree_js.Errors.{
  jws_compact_jws_not_string, jws_compact_jws_invalid,
  jws_protected_header_missing_or_unknown_property, jws_protected_header_missing_or_incorrect_alg,
  jws_signature_not_base64_url_string, jws_payload_not_base64_url_string,
  encoder_validate_base64_url_string_input_not_base64_url_string, jwk_es256k_undefined,
  jwk_es256k_has_unknown_property, jwk_es256k_missing_or_invalid_kty,
  jwk_es256k_missing_or_invalid_crv, jwk_es256k_missing_or_invalid_type_x,
  jwk_es256k_missing_or_invalid_type_y, jwk_es256k_has_incorrect_length_of_x,
  jwk_es256k_has_incorrect_length_of_y, delta_is_null_or_undefined, delta_exceeds_maximum_size,
}
use sidetree_js.Json.{Json, Items, null, property, count_properties, has_only, is_text}
use sidetree_js.Json.Typing.{string_or}
use sidetree_js.Parameters.{max_delta_size_in_bytes}
use sidetree_js.Crypto.{CryptoLib}
use sidetree_js.Crypto.Multihash.{is_base64url_string, hash, caught}
use sidetree_js.Input.{
  validate_non_array_object, validate_object_contains_only_allowed_properties,
  validate_encoded_multihash,
}
use sidetree_js.Document.Validation.{validate_document_patches}
use sidetree_js.Ledger.AnchoredData.{delimiter, split}
use sidetree_js.Operation.{Delta, Jws}

-- What the parsers call of node and of other packages.
pub record ParserLib : Type 0 where
  -- `buffer.toString()`
  pub to_string : Text → Text
  -- `JSON.parse`, and `parseAsync` of yieldable-json
  pub json_parse : Text → Result Json
  pub json_parse_async : Text → Result Json
  -- `base64url.decode`
  pub base64url_decode : Text → Text
  -- `URI.parse` of uri-js sets no error
  pub is_uri : Text → Bool
  -- `verify` of packages/crypto, which calls packages that sign
  pub verify : Text → Json → Result Bool

-- `createCompactJws`
unfoldable pub create_compact_jws : Text → Text → Text → Text
create_compact_jws protected_header payload signature =
    protected_header ++ (delimiter ∷ (payload ++ (delimiter ∷ signature)))

unfoldable pub to_compact_jws : Jws → Text
to_compact_jws jws = create_compact_jws jws.protected jws.payload jws.signature

unfoldable pub validate_jwk_es256k : Option Json → Result Json
validate_jwk_es256k none = err (sidetree jwk_es256k_undefined)
validate_jwk_es256k (some jwk) = do
  throw_if (not (has_only (codes "kty" ∷ codes "crv" ∷ codes "x" ∷ codes "y" ∷ []) jwk))
      jwk_es256k_has_unknown_property
  kty ← property jwk (codes "kty")
  throw_if (not (is_text kty (codes "EC"))) jwk_es256k_missing_or_invalid_kty
  crv ← property jwk (codes "crv")
  throw_if (not (is_text crv (codes "secp256k1"))) jwk_es256k_missing_or_invalid_crv
  x ← property jwk (codes "x") >>= string_or jwk_es256k_missing_or_invalid_type_x
  y ← property jwk (codes "y") >>= string_or jwk_es256k_missing_or_invalid_type_y
  throw_if (not (length x == 43)) jwk_es256k_has_incorrect_length_of_x
  throw_if (not (length y == 43)) jwk_es256k_has_incorrect_length_of_y
  ok jwk

module _ (node : ParserLib) where
  -- `Encoder.decodeAsString` of a string
  unfoldable pub decode_as_string : Text → Result Text
  decode_as_string encoded = do
    throw_if (not (is_base64url_string encoded))
        encoder_validate_base64_url_string_input_not_base64_url_string
    ok (node.base64url_decode encoded)

  -- the constructor of `Jws` after the split
  unfoldable pub jws_of_parts : List Text → Result Jws
  jws_of_parts (protected ∷ payload ∷ signature ∷ []) = do
    header ← decode_as_string protected >>= node.json_parse
    count ← count_properties header
    throw_if (not (count == 1)) jws_protected_header_missing_or_unknown_property
    alg ← property header (codes "alg")
    throw_if (not (is_text alg (codes "EdDSA")) && not (is_text alg (codes "ES256K")))
        jws_protected_header_missing_or_incorrect_alg
    throw_if (not (is_base64url_string signature)) jws_signature_not_base64_url_string
    throw_if (not (is_base64url_string payload)) jws_payload_not_base64_url_string
    ok (record { protected = protected; payload = payload; signature = signature })
  jws_of_parts _ = err (sidetree jws_compact_jws_invalid)

  unfoldable pub parse_compact_jws : Option Json → Result Jws
  parse_compact_jws compact_jws = do
    text ← string_or jws_compact_jws_not_string compact_jws
    jws_of_parts (split text)

  -- `verifyCompactJws` returns false where `verify` throws.
  unfoldable pub verify_compact_jws : Text → Json → Bool
  verify_compact_jws compact_jws jwk = caught (node.verify compact_jws jwk)

  unfoldable pub verify_signature : Jws → Json → Bool
  verify_signature jws public_key = verify_compact_jws (to_compact_jws jws) public_key

module _ (lib : CryptoLib) (node : ParserLib) where
  -- validateDelta.ts
  unfoldable pub validate_delta : Option Json → Result Delta
  validate_delta input = do
    delta ← validate_non_array_object input
    validate_object_contains_only_allowed_properties delta
        (codes "patches" ∷ codes "updateCommitment" ∷ [])
    patches ← property delta (codes "patches") >>= validate_document_patches node.is_uri
    update_commitment ← property delta (codes "updateCommitment") >>= validate_encoded_multihash lib
    ok (record { patches = patches; update_commitment = update_commitment; content = delta })

  -- `Delta.validateDelta`
  unfoldable pub validate_sized_delta : Option Json → Result Delta
  validate_sized_delta none = err (sidetree delta_is_null_or_undefined)
  validate_sized_delta (some null) = err (sidetree delta_is_null_or_undefined)
  validate_sized_delta (some delta) = do
    buffer ← lib.canonicalize delta
    throw_if (ltb max_delta_size_in_bytes (length buffer)) delta_exceeds_maximum_size
    validate_delta (some delta)

  -- `try { validateDelta(value); delta = value; } catch { }`
  unfoldable pub delta_or_undefined : Option Json → Option Delta
  delta_or_undefined value = elim (validate_delta value) [ ok delta ↦ some delta | err e ↦ none ]

  unfoldable pub compute_unique_suffix : Json → Result Text
  compute_unique_suffix suffix_data = do
    buffer ← lib.canonicalize suffix_data
    multihash ← hash lib buffer 18
    ok (lib.base64url_encode multihash)
