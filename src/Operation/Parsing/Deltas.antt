-- ===== src/Operation/Parsing/Deltas.antt =====
-- The deltas that the parsers return were validated, so that the documents of the operation
-- processor over these parsers are well formed with no assumption on the parsers.
use mathlib.Core.Path.{subst}
use sidetree_js.Prelude.{◌≡◌, sym, inl, inr, not, Option, some, [], ◌∷◌, ◌==◌, All}
use sidetree_js.Prelude.Text.{Text, codes}
use sidetree_js.Errors.{Result, ok, ◌>>=◌, >>=-eq-ok, Result-cases, ok-injective, throw_if-eq-ok}
use sidetree_js.Json.{Json, property, count_properties, is_text}
use sidetree_js.Crypto.{CryptoLib}
use sidetree_js.Input.{
  validate_non_array_object, validate_object_contains_only_allowed_properties,
  validate_encoded_multihash, validate_suffix_data,
}
use sidetree_js.Document.Composer.Refinement.{IsValidPatch}
use sidetree_js.Document.Validation.{validate_document_patches}
use sidetree_js.Document.Validation.Patches.{validate_document_patches-IsValidPatch}
use sidetree_js.Operation.{
  DidState, AnchoredOperation, Delta, CreateOperation, UpdateOperation, RecoverOperation,
}
use sidetree_js.Operation.Processor.{apply}
use sidetree_js.Operation.Processor.Documents.{
  IsValidDelta, HasValidDeltas, HasGoodDocument, apply-HasGoodDocument,
}
use sidetree_js.Operation.Parsing.{
  ParserLib, validate_delta, delta_or_undefined, compute_unique_suffix,
}
use sidetree_js.Operation.Parsing.Reads.{
  parse_update_object-ReadsUpdate, parse_recover_object-ReadsRecover,
}
use sidetree_js.Operation.Parsing.Operations.{
  or_null, parse_create_object, parse_update_object, parse_recover_object, parse_buffer, parser,
}

module _ (lib : CryptoLib) (node : ParserLib) where
  validate_delta-IsValidPatch :
      (value : Option Json) (d : Delta)
      → validate_delta lib node value ≡ ok d
      → All IsValidPatch d.patches
  unfolding validate_delta
  validate_delta-IsValidPatch value d h =
      let (delta, is_object, h1) = >>=-eq-ok (validate_non_array_object value) _ h in
      let (u, only, h2) =
        >>=-eq-ok
          (validate_object_contains_only_allowed_properties delta
            (codes "patches" ∷ codes "updateCommitment" ∷ []))
          _ h1 in
      let (patches, are_patches, h3) =
        >>=-eq-ok (property delta (codes "patches") >>= validate_document_patches node.is_uri) _
          h2 in
      let (commitment, is_multihash, h4) =
        >>=-eq-ok (property delta (codes "updateCommitment") >>= validate_encoded_multihash lib) _
          h3 in
      let (patches_value, at_patches, valid) =
        >>=-eq-ok (property delta (codes "patches")) _ are_patches in
      subst (λ (d : Delta). All IsValidPatch d.patches) (ok-injective h4)
        (validate_document_patches-IsValidPatch node.is_uri patches_value patches valid)

  delta_or_undefined-IsValidDelta :
      (value : Option Json) → IsValidDelta (delta_or_undefined lib node value)
  unfolding delta_or_undefined
  delta_or_undefined-IsValidDelta value = elim (Result-cases (validate_delta lib node value)) [
    | inl (e, thrown) ↦ rw (thrown, IsValidDelta) tt
    | inr (d, returned) ↦ rw (returned, IsValidDelta) (validate_delta-IsValidPatch value d returned)
  ]

  create-IsValidDelta :
      (object : Json) (o : CreateOperation)
      → parse_create_object lib node object ≡ ok o
      → IsValidDelta o.delta
  unfolding parse_create_object
  create-IsValidDelta object o h =
      let (count, counted, h1) = >>=-eq-ok (count_properties object) _ h in
      let (three, h2) = throw_if-eq-ok (not (count == 3)) _ _ h1 in
      let (type, at_type, h3) = >>=-eq-ok (property object (codes "type")) _ h2 in
      let (creates, h4) = throw_if-eq-ok (not (is_text type (codes "create"))) _ _ h3 in
      let (value, at_suffix, h5) = >>=-eq-ok (property object (codes "suffixData")) _ h4 in
      let (suffix_data, valid, h6) = >>=-eq-ok (validate_suffix_data lib value) _ h5 in
      let (delta, at_delta, h7) = >>=-eq-ok (property object (codes "delta")) _ h6 in
      let (suffix, computed, h8) =
        >>=-eq-ok (compute_unique_suffix lib node (or_null value)) _ h7 in
      subst (λ (o : CreateOperation). IsValidDelta o.delta) (ok-injective h8)
        (delta_or_undefined-IsValidDelta delta)

  update-IsValidDelta :
      (object : Json) (o : UpdateOperation)
      → parse_update_object lib node object ≡ ok o
      → IsValidDelta o.delta
  update-IsValidDelta object o h =
      let r = parse_update_object-ReadsUpdate lib node object o h in
      rw (r.has_delta, IsValidDelta) (validate_delta-IsValidPatch r.delta_value r.delta r.is_delta)

  recover-IsValidDelta :
      (object : Json) (o : RecoverOperation)
      → parse_recover_object lib node object ≡ ok o
      → IsValidDelta o.delta
  recover-IsValidDelta object o h =
      let r = parse_recover_object-ReadsRecover lib node object o h in
      subst IsValidDelta (sym r.has_delta) (delta_or_undefined-IsValidDelta r.delta_value)

  parse_buffer-eq-ok :
      {A : Type 0} (parse_object : Json → Result A) (buffer : Text) (a : A)
      → parse_buffer lib node parse_object buffer ≡ ok a
      → (object : Json) × (parse_object object ≡ ok a)
  unfolding parse_buffer
  parse_buffer-eq-ok parse_object buffer a h =
      let (object, is_json, parsed) =
        >>=-eq-ok (node.json_parse_async (node.to_string buffer)) _ h in
      (object, parsed)

  -- The parsers return only deltas whose patches were validated.
  pub parser-HasValidDeltas : HasValidDeltas (parser lib node)
  unfolding parser
  parser-HasValidDeltas = record {
    of_create = λ b o h.
        (let (object, parsed) = parse_buffer-eq-ok (parse_create_object lib node) b o h in
          create-IsValidDelta object o parsed);
    of_update = λ b o h.
        (let (object, parsed) = parse_buffer-eq-ok (parse_update_object lib node) b o h in
          update-IsValidDelta object o parsed);
    of_recover = λ b o h.
        (let (object, parsed) = parse_buffer-eq-ok (parse_recover_object lib node) b o h in
          recover-IsValidDelta object o parsed);
  }

-- What `apply` with the code's parsers makes of no state, or of a state whose document has distinct
-- ids, is a state whose document has distinct ids, whatever the buffer of the operation holds.
pub apply_parsed-HasGoodDocument :
    (lib : CryptoLib) (node : ParserLib) (model : AnchoredOperation) (o : Option DidState)
    (s' : DidState)
    → ((s : DidState) → o ≡ some s → HasGoodDocument s)
    → apply lib (parser lib node) model o ≡ ok (some s')
    → HasGoodDocument s'
apply_parsed-HasGoodDocument lib node model o s' good h =
    apply-HasGoodDocument lib (parser lib node) (parser-HasValidDeltas lib node) model o s' good h
