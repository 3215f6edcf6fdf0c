-- ===== src/Crypto/Multihash.antt =====
-- packages/common/src/util/Encoder.ts and Multihash.ts, over the packages that they call.
use sidetree_js.Prelude.{
  ℕ, Bool, false, not, ◌||◌, Option, none, some, List, [], ◌∷◌, ◌==◌, if◌then◌else◌,
}
use sidetree_js.Prelude.Text.{Text, text_eq}
use sidetree_js.Errors.{
  Result, ok, err, sidetree, throw_if, ◌>>=◌,
  encoder_validate_base64_url_string_input_not_base64_url_string,
  multihash_unsupported_hash_algorithm, multihash_string_not_a_multihash, multihash_not_supported,
  canonicalized_object_hash_mismatch,
}
use sidetree_js.Json.{Json}
use sidetree_js.Crypto.{CryptoLib, all_base64url}

-- `Encoder.isBase64UrlString`
unfoldable pub is_base64url_string : Text → Bool
is_base64url_string [] = false
is_base64url_string (c ∷ cs) = all_base64url (c ∷ cs)

-- `try { return e; } catch { return false; }`
abbrev pub caught : Result Bool → Bool
caught (ok b) = b
caught (err e) = false

module _ (lib : CryptoLib) where
  -- `Encoder.decodeAsBuffer`, on a string
  unfoldable pub decode_as_buffer : Text → Result Text
  unfolding is_base64url_string
  decode_as_buffer encoded =
      if is_base64url_string encoded
      then ok (lib.base64url_to_buffer encoded)
      else err (sidetree encoder_validate_base64_url_string_input_not_base64_url_string)

  unfoldable pub hash_as_non_multihash_buffer : Text → ℕ → Result Text
  hash_as_non_multihash_buffer content algorithm =
      if algorithm == 18
      then ok (lib.sha256 content)
      else if algorithm == 22
      then ok (lib.sha3_256 content)
      else err (sidetree multihash_unsupported_hash_algorithm)

  unfoldable pub hash : Text → ℕ → Result Text
  hash content algorithm = do
    conventional_hash ← hash_as_non_multihash_buffer content algorithm
    lib.multihash_encode conventional_hash algorithm

  unfoldable pub hash_then_encode : Text → ℕ → Result Text
  hash_then_encode content algorithm = do
    multihash ← hash content algorithm
    ok (lib.base64url_encode multihash)

  unfoldable pub canonicalize_then_hash_then_encode : Json → Option ℕ → Result Text
  canonicalize_then_hash_then_encode content none = do
    buffer ← lib.canonicalize content
    hash_then_encode buffer 18
  canonicalize_then_hash_then_encode content (some algorithm) = do
    buffer ← lib.canonicalize content
    hash_then_encode buffer algorithm

  unfoldable pub canonicalize_then_double_hash_then_encode : Json → Result Text
  canonicalize_then_double_hash_then_encode content = do
    buffer ← lib.canonicalize content
    intermediate ← hash_as_non_multihash_buffer buffer 18
    hash_then_encode intermediate 18

  unfoldable pub verify_double_hash : Text → Text → Bool
  verify_double_hash content encoded_multihash = caught (do
    expected ← decode_as_buffer encoded_multihash
    decoded ← lib.multihash_decode expected
    intermediate ← hash_as_non_multihash_buffer content decoded.0
    actual ← hash intermediate decoded.0
    ok (text_eq actual expected))

  -- `encodedMultihash` may be `undefined`, on which `Encoder.decodeAsBuffer` throws
  unfoldable pub canonicalize_and_verify_double_hash : Json → Option Text → Bool
  canonicalize_and_verify_double_hash content none = false
  canonicalize_and_verify_double_hash content (some encoded_multihash) =
      caught
        (do buffer ← lib.canonicalize content; ok (verify_double_hash buffer encoded_multihash))

  unfoldable pub verify_encoded_multihash_for_content : Text → Text → Bool
  verify_encoded_multihash_for_content content encoded_multihash = caught (do
    expected ← decode_as_buffer encoded_multihash
    decoded ← lib.multihash_decode expected
    actual ← hash content decoded.0
    ok (text_eq (lib.base64url_encode actual) encoded_multihash))

  unfoldable pub is_valid_hash : Option Text → Text → Bool
  is_valid_hash none encoded_multihash = false
  is_valid_hash (some encoded_content) encoded_multihash = caught (do
    buffer ← decode_as_buffer encoded_content
    ok (verify_encoded_multihash_for_content buffer encoded_multihash))

  unfoldable pub validate_canonicalize_object_hash : Json → Text → Result (Unit {0})
  validate_canonicalize_object_hash content expected = do
    buffer ← lib.canonicalize content
    throw_if (not (verify_encoded_multihash_for_content buffer expected))
        canonicalized_object_hash_mismatch

  -- `supported.includes(code)`
  abbrev includes : ℕ → List ℕ → Bool
  includes code [] = false
  includes code (c ∷ cs) = c == code || includes code cs

  unfoldable pub validate_hash_computed_using_supported_hash_algorithm :
      Text → List ℕ → Result (Unit {0})
  validate_hash_computed_using_supported_hash_algorithm encoded supported = do
    buffer ← decode_as_buffer encoded
    elim (lib.multihash_decode buffer) [
      | err e ↦ err (sidetree multihash_string_not_a_multihash)
      | ok decoded ↦ throw_if (not (includes decoded.0 supported)) multihash_not_supported
    ]
