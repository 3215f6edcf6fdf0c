-- ===== src/Crypto.antt =====
-- What packages/common/src/util/Encoder.ts and Multihash.ts call of other packages: `base64url`,
-- node's `crypto`, `multihashes` and `canonicalize`. A `Buffer` is the list of its bytes.
pub mod Multihash
pub mod Commitment
use sidetree_js.Prelude.{
  ℕ, zero, suc, ◌+◌, ◌-◌, ◌*◌, ◌/◌, ◌%◌, ◌≤◌, ◌<◌, max, ◌≡◌, refl, sym, ap, ◌∙◌, ◌≢◌, ◌↔◌, ◌⊎◌, inl,
  inr, Bool, true, false, not, ◌&&◌, ◌||◌, Option, none, some, List, [], ◌∷◌, ◌++◌, map, append-nil,
  append_assoc, arith, ltb, leb, ◌==◌, if◌then◌else◌, ltb→lt, leb→le, ==_iff, Bool-cases,
  Option-cases, length, get_elem?, take, drop, filter, length-append, All, All-append, All-filter,
}
use sidetree_js.Prelude.Text.{
  Text, codes, text_eq, text_eq_sound, text_eq_refl, text_eq_iff, member, Distinct,
}
use sidetree_js.Errors.{Result, ok}
use sidetree_js.Json.{Json}

pub record CryptoLib : Type 0 where
  -- `base64url.encode`, `base64url.toBuffer`
  pub base64url_encode : Text → Text
  pub base64url_to_buffer : Text → Text
  -- `crypto.createHash('sha256')` and `'sha3-256'`: `update`, then `digest`
  pub sha256 : Text → Text
  pub sha3_256 : Text → Text
  -- `multihashes.encode` and `multihashes.decode`, which may throw
  pub multihash_encode : Text → ℕ → Result Text
  pub multihash_decode : Text → Result (ℕ × Text)
  -- `Buffer.from(canonicalize(content))`
  pub canonicalize : Json → Result Text

-- `/^[A-Za-z0-9_-]+$/` on one character
abbrev pub is_base64url_char : ℕ → Bool
is_base64url_char c =
    (leb b'A' c && leb c b'Z')
    || (leb b'a' c && leb c b'z')
    || (leb b'0' c && leb c b'9')
    || c == b'_'
    || c == b'-'

abbrev pub all_base64url : Text → Bool
all_base64url [] = true
all_base64url (c ∷ cs) = is_base64url_char c && all_base64url cs

-- What the documentation of the packages promises: a multihash is decoded to what was encoded, and
-- a Base64URL encoding is a string of that alphabet, not empty for a buffer that is not, which is
-- decoded to the buffer.
pub record IsCryptoLib (lib : CryptoLib) : Type 0 where
  pub to_buffer-encode : (b : Text) → lib.base64url_to_buffer (lib.base64url_encode b) ≡ b
  pub encode-base64url : (b : Text) → all_base64url (lib.base64url_encode b) ≡ true
  pub encode-ne-nil : (b : Text) → b ≢ [] → lib.base64url_encode b ≢ []
  pub decode-encode :
      (digest : Text) (algorithm : ℕ) (m : Text)
      → lib.multihash_encode digest algorithm ≡ ok m
      → lib.multihash_decode m ≡ ok (algorithm, digest)
  pub multihash_encode-ne-nil :
      (digest : Text) (algorithm : ℕ) (m : Text)
      → lib.multihash_encode digest algorithm ≡ ok m
      → m ≢ []
