-- ===== src/Examples/ToyCrypto.antt =====
-- A concrete library for the examples: hashes that prefix a byte, and Base64URL as unary numbers.
use sidetree_js.Prelude.{
  ℕ, zero, suc, ◌+◌, ◌≡◌, refl, ap, ◌∙◌, ◌≢◌, true, [], ◌∷◌, arith, ◌==◌, if◌then◌else◌,
}
use sidetree_js.Prelude.Text.{Text}
use sidetree_js.Errors.{unexpected, Result, ok, err}
use sidetree_js.Json.{Json, str, null, bool, num, arr, obj}
use sidetree_js.Crypto.{CryptoLib, IsCryptoLib, all_base64url}

abbrev unary : ℕ → Text → Text
unary zero rest = b'B' ∷ rest
unary (suc n) rest = b'A' ∷ unary n rest

abbrev pub encode : Text → Text
encode [] = []
encode (n ∷ b) = unary n (encode b)

abbrev to_buffer_from : ℕ → Text → Text
to_buffer_from acc [] = []
to_buffer_from acc (c ∷ s) =
    if c == b'A' then to_buffer_from (acc + 1) s else (acc ∷ to_buffer_from 0 s)

abbrev canonicalize_text : Json → Result Text
canonicalize_text null = ok []
canonicalize_text (bool b) = ok (0 ∷ [])
canonicalize_text (num n) = ok (n ∷ [])
canonicalize_text (str t) = ok t
canonicalize_text (arr items) = err unexpected
canonicalize_text (obj fields) = err unexpected

abbrev decode : Text → Result (ℕ × Text)
decode [] = err unexpected
decode (algorithm ∷ digest) = ok (algorithm, digest)

abbrev pub toy : CryptoLib
toy = record {
  base64url_encode = encode;
  base64url_to_buffer = to_buffer_from 0;
  sha256 = λ b. 1 ∷ b;
  sha3_256 = λ b. 2 ∷ b;
  multihash_encode = λ digest algorithm. ok (algorithm ∷ digest);
  multihash_decode = decode;
  canonicalize = canonicalize_text;
}

to_buffer-unary :
    (n acc : ℕ) (rest : Text)
    → to_buffer_from acc (unary n rest) ≡ (acc + n) ∷ to_buffer_from 0 rest
to_buffer-unary zero acc rest = ap (λ k. k ∷ to_buffer_from 0 rest) (omega arith)
to_buffer-unary (suc n) acc rest =
    to_buffer-unary n (acc + 1) rest ∙ ap (λ k. k ∷ to_buffer_from 0 rest) (omega arith)

to_buffer-encode : (b : Text) → to_buffer_from 0 (encode b) ≡ b
to_buffer-encode [] = refl
to_buffer-encode (n ∷ b) =
    to_buffer-unary n 0 (encode b)
    ∙ ap (λ k. k ∷ to_buffer_from 0 (encode b)) (omega arith)
    ∙ ap (λ t. n ∷ t) (to_buffer-encode b)

unary-base64url : (n : ℕ) (rest : Text) → all_base64url (unary n rest) ≡ all_base64url rest
unary-base64url zero rest = refl
unary-base64url (suc n) rest = unary-base64url n rest

encode-base64url : (b : Text) → all_base64url (encode b) ≡ true
encode-base64url [] = refl
encode-base64url (n ∷ b) = unary-base64url n (encode b) ∙ encode-base64url b

unary-ne-nil : (n : ℕ) (rest : Text) → unary n rest ≢ []
unary-ne-nil zero rest = cc
unary-ne-nil (suc n) rest = cc

encode-ne-nil : (b : Text) → b ≢ [] → encode b ≢ []
encode-ne-nil [] h = absurd (h refl)
encode-ne-nil (n ∷ b) h = unary-ne-nil n (encode b)

pub toy-IsCryptoLib : IsCryptoLib toy
toy-IsCryptoLib = record {
  to_buffer-encode = to_buffer-encode;
  encode-base64url = encode-base64url;
  encode-ne-nil = encode-ne-nil;
  decode-encode = λ digest algorithm m h. ground arith;
  multihash_encode-ne-nil = λ digest algorithm m h. ground arith;
}
