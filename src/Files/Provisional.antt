-- ===== src/Files/Provisional.antt =====
-- packages/core/src/ProvisionalIndexFile.ts and ChunkFile.ts, `parse`.
use sidetree_js.Prelude.{
  ◌*◌, Bool, true, false, not, Option, none, some, List, [], ◌∷◌, map, ltb, ◌==◌, length,
}
use sidetree_js.Prelude.Text.{Text, codes}
use sidetree_js.Errors.{sidetree, unexpected, Result, ok, err, ◌>>=◌, ◌>>◌, throw_if}
use sidetree_js.Errors.{
  provisional_index_file_decompression_failure, provisional_index_file_not_json,
  provisional_index_file_has_unknown_property,
  provisional_index_file_provisional_proof_file_uri_not_allowed,
  provisional_index_file_update_operations_not_array,
  provisional_index_file_multiple_operations_for_the_same_did,
  provisional_index_file_chunks_property_missing_or_incorrect_type,
  provisional_index_file_chunks_property_does_not_have_exactly_one_element,
  provisional_index_file_chunk_has_missing_or_unknown_property, chunk_file_unexpected_property,
  chunk_file_deltas_property_not_array, chunk_file_deltas_not_array_of_objects,
}
use sidetree_js.Json.{
  Json, Items, null, str, arr, obj, nil, cons, property, has_only, count_properties,
}
use sidetree_js.Json.Typing.{array_or}
use sidetree_js.Parameters.{max_provisional_index_file_size_in_bytes, max_chunk_file_size_in_bytes}
use sidetree_js.Arrays.{has_duplicates}
use sidetree_js.Crypto.{CryptoLib}
use sidetree_js.Input.{
  OperationReference, validate_object_contains_only_allowed_properties,
  validate_operation_references, validate_cas_file_uri,
}
use sidetree_js.Operation.{Delta}
use sidetree_js.Operation.Parsing.{ParserLib, validate_sized_delta}
use sidetree_js.Files.{
  FileLib, estimated_decompression_multiplier, decompress, read_file, first_of, map_property,
  map_each,
}
use sidetree_js.Files.CoreIndex.{suffix_of}

-- ProvisionalIndexFileModel.ts, of one chunk
pub record ProvisionalIndexFile : Type 0 where
  pub chunk_file_uri : Text
  pub provisional_proof_file_uri : Option Text
  pub update_references : List OperationReference
  pub did_unique_suffixes : List Text

-- one element of `chunks`
unfoldable pub validate_chunk : Json → Result Text
validate_chunk chunk = do
  count ← count_properties chunk
  throw_if (not (count == 1)) provisional_index_file_chunk_has_missing_or_unknown_property
  property chunk (codes "chunkFileUri") >>= validate_cas_file_uri

unfoldable pub validate_only_chunk : Items → Result Text
validate_only_chunk (cons chunk nil) = validate_chunk chunk
validate_only_chunk _ =
    err (sidetree provisional_index_file_chunks_property_does_not_have_exactly_one_element)

unfoldable pub validate_chunks_property : Option Json → Result Text
validate_chunks_property chunks = do
  items ← array_or provisional_index_file_chunks_property_missing_or_incorrect_type chunks
  validate_only_chunk items

unfoldable pub validate_provisional_proof_uri : Bool → Option Json → Result (Option Text)
validate_provisional_proof_uri true value = do uri ← validate_cas_file_uri value; ok (some uri)
validate_provisional_proof_uri false none = ok none
validate_provisional_proof_uri false (some value) =
    err (sidetree provisional_index_file_provisional_proof_file_uri_not_allowed)

-- `typeof delta !== 'object'`
abbrev is_typed_object : Json → Bool
is_typed_object null = true
is_typed_object (obj fields) = true
is_typed_object (arr items) = true
is_typed_object _ = false

module _ (lib : CryptoLib) (node : ParserLib) (files : FileLib) where
  unfoldable pub validate_operations_property : Option Json → Result (List OperationReference)
  validate_operations_property none = ok []
  validate_operations_property (some operations) = do
    validate_object_contains_only_allowed_properties operations (codes "update" ∷ [])
    items ←
        property operations (codes "update")
        >>= array_or provisional_index_file_update_operations_not_array
    references ← validate_operation_references lib items
    throw_if (has_duplicates (map suffix_of references))
        provisional_index_file_multiple_operations_for_the_same_did
    ok references

  unfoldable pub validate_provisional_index : Json → Result ProvisionalIndexFile
  validate_provisional_index content = do
    throw_if
        (not (
          has_only (codes "chunks" ∷ codes "operations" ∷ codes "provisionalProofFileUri" ∷ [])
            content))
        provisional_index_file_has_unknown_property
    chunk_file_uri ← property content (codes "chunks") >>= validate_chunks_property
    references ← property content (codes "operations") >>= validate_operations_property
    provisional_proof_file_uri ←
        property content (codes "provisionalProofFileUri")
        >>= validate_provisional_proof_uri (ltb 0 (length references))
    ok (record {
      chunk_file_uri = chunk_file_uri;
      provisional_proof_file_uri = provisional_proof_file_uri;
      update_references = references;
      did_unique_suffixes = map suffix_of references;
    })

  unfoldable pub parse_provisional_index : Text → Result ProvisionalIndexFile
  parse_provisional_index buffer =
      read_file files max_provisional_index_file_size_in_bytes
        provisional_index_file_decompression_failure provisional_index_file_not_json buffer
      >>= validate_provisional_index

  unfoldable pub validate_deltas : Items → Result (List Delta)
  validate_deltas nil = ok []
  validate_deltas (cons delta items) = do
    throw_if (not (is_typed_object delta)) chunk_file_deltas_not_array_of_objects
    valid ← validate_sized_delta lib node (some delta)
    rest ← validate_deltas items
    ok (valid ∷ rest)

  -- `for (const delta of deltas)` throws where `deltas` is no array and no string, and does nothing
  -- on a string, which is then no array.
  unfoldable pub unwrap_deltas : Option Json → Result Items
  unwrap_deltas (some (arr items)) =
      map_each (map_property first_of (codes "updateCommitment")) items
  unwrap_deltas (some (str s)) = err (sidetree chunk_file_deltas_property_not_array)
  unwrap_deltas _ = err unexpected

  -- the deltas of the chunk file
  unfoldable pub validate_chunk_file : Json → Result (List Delta)
  validate_chunk_file content = do
    throw_if (not (has_only (codes "deltas" ∷ []) content)) chunk_file_unexpected_property
    deltas ← property content (codes "deltas") >>= unwrap_deltas
    validate_deltas deltas

  unfoldable pub parse_chunk_file : Text → Result (List Delta)
  parse_chunk_file buffer = do
    decompressed ←
        decompress files buffer (max_chunk_file_size_in_bytes * estimated_decompression_multiplier)
    content ← files.json_parse_buffer decompressed
    validate_chunk_file content
