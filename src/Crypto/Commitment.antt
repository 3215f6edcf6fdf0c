-- ===== src/Crypto/Commitment.antt =====
-- Commit and reveal: what the verification of hashes accepts.
use sidetree_js.Prelude.{ℕ, ◌≡◌, refl, ap, ◌≢◌, ◌↔◌, Bool, true, [], ◌∷◌, arith}
use sidetree_js.Prelude.Text.{Text, text_eq_sound, text_eq_refl, text_eq_refl}
use sidetree_js.Errors.{Result, ok, err, >>=-eq-ok}
use sidetree_js.Crypto.{CryptoLib, IsCryptoLib, all_base64url}
use sidetree_js.Crypto.Multihash.{
  is_base64url_string, caught, decode_as_buffer, hash_as_non_multihash_buffer, hash,
  hash_then_encode, verify_double_hash, verify_encoded_multihash_for_content,
}

is_base64url_string_of_ne_nil :
    (s : Text) → s ≢ [] → all_base64url s ≡ true → is_base64url_string s ≡ true
unfolding is_base64url_string
is_base64url_string_of_ne_nil [] n h = absurd (n refl)
is_base64url_string_of_ne_nil (c ∷ cs) n h = h

caught-eq-true : (r : Result Bool) → caught r ≡ true → r ≡ ok true
caught-eq-true (ok b) h = ap ok h
caught-eq-true (err e) h = cc

module _ (lib : CryptoLib) (laws : IsCryptoLib lib) where
  -- the encoding of a multihash is decoded to the multihash
  decode_as_buffer-encode :
      (digest : Text) (algorithm : ℕ) (m : Text)
      → lib.multihash_encode digest algorithm ≡ ok m
      → decode_as_buffer lib (lib.base64url_encode m) ≡ ok m
  unfolding decode_as_buffer
  decode_as_buffer-encode digest algorithm m e =
      rw
        (is_base64url_string_of_ne_nil (lib.base64url_encode m)
          (laws.encode-ne-nil m (laws.multihash_encode-ne-nil digest algorithm m e))
          (laws.encode-base64url m))
        (ap ok (laws.to_buffer-encode m))

  -- what a successful `hashThenEncode` has computed
  hash_then_encode_steps :
      (content encoded : Text) (algorithm : ℕ)
      → hash_then_encode lib content algorithm ≡ ok encoded
      → (digest : Text) × (m : Text) × (hash_as_non_multihash_buffer lib content algorithm
          ≡ ok digest)
        × (lib.multihash_encode digest algorithm ≡ ok m)
        × (hash lib content algorithm ≡ ok m)
        × (lib.base64url_encode m ≡ encoded)
  unfolding hash_then_encode hash
  hash_then_encode_steps content encoded algorithm h =
      let (m, hashed, e) = >>=-eq-ok (hash lib content algorithm) _ h in
      let (digest, first, second) =
        >>=-eq-ok (hash_as_non_multihash_buffer lib content algorithm) _ hashed in
      (digest, m, first, second, hashed, ground arith)

  -- A multihash string is accepted for a content exactly if it is the encoded hash of the content
  -- by some algorithm.
  pub verify_encoded_multihash_iff :
      (content encoded : Text)
      → (verify_encoded_multihash_for_content lib content encoded ≡ true)
        ↔ ((algorithm : ℕ) × (hash_then_encode lib content algorithm ≡ ok encoded))
  unfolding verify_encoded_multihash_for_content hash_then_encode
  verify_encoded_multihash_iff content encoded = (
    λ h.
        let (expected, decoding, h1) =
          >>=-eq-ok (decode_as_buffer lib encoded) _ (caught-eq-true _ h) in
        let (decoded, parsing, h2) = >>=-eq-ok (lib.multihash_decode expected) _ h1 in
        let (actual, hashing, h3) = >>=-eq-ok (hash lib content decoded.0) _ h2 in
        (decoded.0, rw (hashing, hash_then_encode) (ap ok (text_eq_sound _ _ (ground arith)))),
    λ w.
        let (algorithm, h) = w in
        let (digest, m, first, second, hashed, e) =
          hash_then_encode_steps content encoded algorithm h in
        rw
          (
            ← e,
            decode_as_buffer-encode digest algorithm m second,
            laws.decode-encode digest algorithm m second,
            hashed,
          )
          (text_eq_refl (lib.base64url_encode m)),
  )

  -- The hash of the hash of a content, by the same algorithm, is accepted as its commitment.
  pub verify_double_hash-hash_then_encode :
      (content digest commitment : Text) (algorithm : ℕ)
      → hash_as_non_multihash_buffer lib content algorithm ≡ ok digest
      → hash_then_encode lib digest algorithm ≡ ok commitment
      → verify_double_hash lib content commitment ≡ true
  unfolding verify_double_hash
  verify_double_hash-hash_then_encode content digest commitment algorithm once h =
      let (digest2, m, first, second, hashed, e) =
        hash_then_encode_steps digest commitment algorithm h in
      rw
        (
          ← e,
          decode_as_buffer-encode digest2 algorithm m second,
          laws.decode-encode digest2 algorithm m second,
          once,
          hashed,
        )
        (text_eq_refl m)
