-- ===== src/Operation/Parsing/Compact.antt =====
-- A JWS between its compact form and its three parts.
use mathlib.Core.Path.{subst}
use sidetree_js.Prelude.{
  ◌≡◌, refl, sym, ap, ◌∙◌, Bool, true, false, not, ◌&&◌, ◌||◌, Option, some, List, [], ◌∷◌, ◌++◌,
  arith, ◌==◌, ==_iff,
}
use sidetree_js.Prelude.Text.{Text, codes}
use sidetree_js.Errors.{ok, ◌>>=◌, >>=-eq-ok, ok-injective, throw_if-eq-ok}
use sidetree_js.Json.{Json, str, property, count_properties, is_text}
use sidetree_js.Json.Typing.{string_or}
use sidetree_js.Crypto.{all_base64url}
use sidetree_js.Crypto.Multihash.{is_base64url_string, caught}
use sidetree_js.Ledger.AnchoredData.{delimiter, split}
use sidetree_js.Ledger.AnchoredData.RoundTrip.{
  has_no_delimiter, join, join-split, split_one, split-append,
}
use sidetree_js.Operation.{Jws}
use sidetree_js.Operation.Parsing.{
  ParserLib, create_compact_jws, to_compact_jws, decode_as_string, jws_of_parts, parse_compact_jws,
  verify_compact_jws, verify_signature,
}

-- The parts of a JWS that pass the checks.
pub record IsCompactJws (node : ParserLib) (jws : Jws) : Type 0 where
  pub header : Json
  pub alg : Option Json
  pub header_decodes : (decode_as_string node jws.protected >>= node.json_parse) ≡ ok header
  pub one_property : count_properties header ≡ ok 1
  pub has_alg : property header (codes "alg") ≡ ok alg
  pub known_alg : (is_text alg (codes "EdDSA") || is_text alg (codes "ES256K")) ≡ true
  pub signature_base64url : is_base64url_string jws.signature ≡ true
  pub payload_base64url : is_base64url_string jws.payload ≡ true

not_either : (a b : Bool) → (not a && not b) ≡ false → (a || b) ≡ true
not_either a b h = ground arith

neither : (a b : Bool) → (a || b) ≡ true → (not a && not b) ≡ false
neither a b h = ground arith

no_delimiter_of_base64url : (s : Text) → all_base64url s ≡ true → has_no_delimiter s ≡ true
no_delimiter_of_base64url [] h = refl
no_delimiter_of_base64url (c ∷ s) h = ground (arith, no_delimiter_of_base64url s)

-- A Base64URL string has no delimiter.
is_base64url_string-has_no_delimiter :
    (s : Text) → is_base64url_string s ≡ true → has_no_delimiter s ≡ true
unfolding is_base64url_string
is_base64url_string-has_no_delimiter [] h = refl
is_base64url_string-has_no_delimiter (c ∷ s) h = no_delimiter_of_base64url (c ∷ s) h

module _ (node : ParserLib) where
  jws_of_parts-eq-ok :
      (parts : List Text) (jws : Jws)
      → jws_of_parts node parts ≡ ok jws
      → (parts ≡ jws.protected ∷ jws.payload ∷ jws.signature ∷ []) × IsCompactJws node jws
  unfolding jws_of_parts
  jws_of_parts-eq-ok [] jws h = cc
  jws_of_parts-eq-ok (p ∷ []) jws h = cc
  jws_of_parts-eq-ok (p ∷ q ∷ []) jws h = cc
  jws_of_parts-eq-ok (p ∷ q ∷ s ∷ t ∷ ts) jws h = cc
  jws_of_parts-eq-ok (p ∷ q ∷ s ∷ []) jws h =
      let (header, decodes, h1) = >>=-eq-ok (decode_as_string node p >>= node.json_parse) _ h in
      let (count, counted, h2) = >>=-eq-ok (count_properties header) _ h1 in
      let (one, h3) = throw_if-eq-ok (not (count == 1)) _ _ h2 in
      let (alg, has_alg, h4) = >>=-eq-ok (property header (codes "alg")) _ h3 in
      let (known, h5) =
        throw_if-eq-ok (not (is_text alg (codes "EdDSA")) && not (is_text alg (codes "ES256K"))) _ _
          h4 in
      let (signature, h6) = throw_if-eq-ok (not (is_base64url_string s)) _ _ h5 in
      let (payload, h7) = throw_if-eq-ok (not (is_base64url_string q)) _ _ h6 in
      subst
        (λ (jws : Jws).
          (p ∷ q ∷ s ∷ [] ≡ jws.protected ∷ jws.payload ∷ jws.signature ∷ [])
          × IsCompactJws node jws)
        (ok-injective h7)
        (
          refl,
          record {
            header = header;
            alg = alg;
            header_decodes = decodes;
            one_property = counted ∙ ap (λ n. ok n) (ground (arith, ==_iff count 1));
            has_alg = has_alg;
            known_alg = not_either _ _ known;
            signature_base64url = ground arith;
            payload_base64url = ground arith;
          },
        )

  -- A text that `parseCompactJws` accepts is the compact form of the JWS that it returns, whose
  -- header has a known algorithm alone and whose other parts are Base64URL; so `verifySignature`
  -- verifies that very text, and is false where the verification throws.
  pub to_compact_jws-parse_compact_jws :
      (text : Text) (jws : Jws) (key : Json)
      → parse_compact_jws node (some (str text)) ≡ ok jws
      → (to_compact_jws jws ≡ text)
        × IsCompactJws node jws
        × (verify_signature node jws key ≡ caught (node.verify text key))
  unfolding parse_compact_jws string_or to_compact_jws create_compact_jws verify_signature
      verify_compact_jws
  to_compact_jws-parse_compact_jws text jws key h =
      let (parts, valid) = jws_of_parts-eq-ok (split text) jws h in
      let same = ap join (sym parts) ∙ join-split text in
      (same, valid, ap (λ t. caught (node.verify t key)) same)

  jws_of_parts-eq :
      {jws : Jws}
      → IsCompactJws node jws
      → jws_of_parts node (jws.protected ∷ jws.payload ∷ jws.signature ∷ []) ≡ ok jws
  unfolding jws_of_parts
  jws_of_parts-eq valid =
      rw
        (
          valid.header_decodes,
          valid.one_property,
          valid.has_alg,
          neither (is_text valid.alg (codes "EdDSA")) (is_text valid.alg (codes "ES256K"))
              valid.known_alg,
          valid.signature_base64url,
          valid.payload_base64url,
        )
        refl

  decoded-has_no_delimiter :
      (s : Text) (header : Json)
      → (decode_as_string node s >>= node.json_parse) ≡ ok header
      → has_no_delimiter s ≡ true
  unfolding decode_as_string
  decoded-has_no_delimiter s header h =
      let (text, decoded, h1) = >>=-eq-ok (decode_as_string node s) _ h in
      let (valid, h2) = throw_if-eq-ok (not (is_base64url_string s)) _ _ decoded in
      is_base64url_string-has_no_delimiter s (ground arith)

  -- The compact form of a JWS that passes the checks is parsed to that JWS.
  pub parse_compact_jws-to_compact_jws :
      (jws : Jws)
      → IsCompactJws node jws
      → parse_compact_jws node (some (str (to_compact_jws jws))) ≡ ok jws
  unfolding parse_compact_jws string_or to_compact_jws create_compact_jws
  parse_compact_jws-to_compact_jws jws valid =
      rw
        (
          split-append jws.protected (jws.payload ++ (delimiter ∷ jws.signature))
              (decoded-has_no_delimiter jws.protected valid.header valid.header_decodes),
          split-append jws.payload jws.signature
              (is_base64url_string-has_no_delimiter jws.payload valid.payload_base64url),
          split_one jws.signature
              (is_base64url_string-has_no_delimiter jws.signature valid.signature_base64url),
        )
        (jws_of_parts-eq valid)
