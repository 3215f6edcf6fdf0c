-- ===== src/Files/CoreIndex.antt =====
-- packages/core/src/CoreIndexFile.ts, `parse`.
use sidetree_js.Prelude.{
  ℕ, ◌+◌, Bool, true, false, not, ◌||◌, Option, none, some, List, [], ◌∷◌, ◌++◌, map, ltb, ◌==◌,
  if◌then◌else◌, length,
}
use sidetree_js.Prelude.Text.{Text, codes}
use sidetree_js.Errors.{ErrorCode, sidetree, unexpected, Result, ok, err, ◌>>=◌, ◌>>◌, throw_if}
use sidetree_js.Errors.{
  core_index_file_decompression_failure, core_index_file_not_json,
  core_index_file_has_unknown_property, core_index_file_writer_lock_id_property_not_string,
  core_index_file_writer_lock_id_exceeded_max_size,
  core_index_file_unexpected_property_in_operations, core_index_file_create_property_not_array,
  core_index_file_recover_property_not_array, core_index_file_deactivate_property_not_array,
  core_index_file_multiple_operations_for_the_same_did,
  core_index_file_provisional_index_file_uri_missing,
  core_index_file_core_proof_file_uri_not_allowed,
}
use sidetree_js.Json.{Json, Items, obj, end, nil, cons, property, has_only}
use sidetree_js.Json.Typing.{string_or, array_or}
use sidetree_js.Parameters.{max_writer_lock_id_in_bytes, max_core_index_file_size_in_bytes}
use sidetree_js.Arrays.{has_duplicates}
use sidetree_js.Crypto.{CryptoLib}
use sidetree_js.Input.{
  OperationReference, validate_object_contains_only_allowed_properties, validate_suffix_data,
  validate_operation_references, validate_cas_file_uri,
}
use sidetree_js.Document.Validation.{if_present, is_object}
use sidetree_js.Operation.Parsing.{ParserLib, compute_unique_suffix}
use sidetree_js.Files.{FileLib, read_file, first_of, map_property, map_each}

-- CoreIndexFileModel.ts: `create_suffix_data` is `suffixData` of the create references
pub record CoreIndexModel : Type 0 where
  pub writer_lock_id : Option Text
  pub provisional_index_file_uri : Option Text
  pub core_proof_file_uri : Option Text
  pub create_suffix_data : List Json
  pub recover_references : List OperationReference
  pub deactivate_references : List OperationReference

pub record CoreIndexFile : Type 0 where
  pub model : CoreIndexModel
  pub did_unique_suffixes : List Text
  pub create_did_suffixes : List Text
  pub recover_did_suffixes : List Text
  pub deactivate_did_suffixes : List Text

abbrev pub suffix_of : OperationReference → Text
suffix_of reference = reference.did_suffix

-- `if (operations.name !== undefined)`, with what stays where it is
abbrev pub unless_undefined {ℓ} : {A : Type ℓ} → A → (Json → Result A) → Option Json → Result A
unless_undefined default validate none = ok default
unless_undefined default validate (some value) = validate value

-- the workaround for `recoveryCommitment`, on the references to create operations
unfoldable pub unwrap_create_references : Items → Result Items
unwrap_create_references operations =
    map_each
      (map_property (map_property first_of (codes "recoveryCommitment")) (codes "suffixData"))
      operations

-- `coreIndexFileModel.operations`, or `{}`
abbrev pub operations_or_empty : Option Json → Json
operations_or_empty none = obj end
operations_or_empty (some operations) = operations

-- the checks of the two URIs, after the operations
unfoldable pub validate_provisional_uri : ℕ → Option Json → Result (Option Text)
validate_provisional_uri create_plus_recover_operation_count none = do
  throw_if (not (create_plus_recover_operation_count == 0))
      core_index_file_provisional_index_file_uri_missing
  ok none
validate_provisional_uri create_plus_recover_operation_count (some value) = do
  uri ← validate_cas_file_uri (some value)
  ok (some uri)

unfoldable pub validate_proof_uri : Bool → Option Json → Result (Option Text)
validate_proof_uri true value = do uri ← validate_cas_file_uri value; ok (some uri)
validate_proof_uri false none = ok none
validate_proof_uri false (some value) =
    err (sidetree core_index_file_core_proof_file_uri_not_allowed)

-- the checks on all the operations, and the two URIs
unfoldable pub finish_core_index :
    Json
    → Option Text
    → List Json × List Text
    → List OperationReference
    → List OperationReference
    → Result CoreIndexFile
finish_core_index content writer_lock_id (suffix_data, create_suffixes) recovers deactivates = do
  let recover_suffixes = map suffix_of recovers
  let deactivate_suffixes = map suffix_of deactivates
  let did_unique_suffixes = create_suffixes ++ recover_suffixes ++ deactivate_suffixes
  throw_if (has_duplicates did_unique_suffixes) core_index_file_multiple_operations_for_the_same_did
  provisional_index_file_uri ←
      property content (codes "provisionalIndexFileUri")
      >>= validate_provisional_uri (length create_suffixes + length recover_suffixes)
  core_proof_file_uri ←
      property content (codes "coreProofFileUri")
      >>= validate_proof_uri (ltb 0 (length recover_suffixes) || ltb 0 (length deactivate_suffixes))
  ok (record {
    model = record {
      writer_lock_id = writer_lock_id;
      provisional_index_file_uri = provisional_index_file_uri;
      core_proof_file_uri = core_proof_file_uri;
      create_suffix_data = suffix_data;
      recover_references = recovers;
      deactivate_references = deactivates;
    };
    did_unique_suffixes = did_unique_suffixes;
    create_did_suffixes = create_suffixes;
    recover_did_suffixes = recover_suffixes;
    deactivate_did_suffixes = deactivate_suffixes;
  })

module _ (lib : CryptoLib) (node : ParserLib) (files : FileLib) where
  unfoldable pub validate_writer_lock_id : Option Json → Result Text
  validate_writer_lock_id value = do
    writer_lock_id ← string_or core_index_file_writer_lock_id_property_not_string value
    throw_if (ltb max_writer_lock_id_in_bytes (length (files.buffer_from writer_lock_id)))
        core_index_file_writer_lock_id_exceeded_max_size
    ok writer_lock_id

  -- `validateCreateReferences`, with the suffix data
  unfoldable pub validate_create_references : Items → Result (List Json)
  validate_create_references nil = ok []
  validate_create_references (cons item items) = do
    validate_object_contains_only_allowed_properties item (codes "suffixData" ∷ [])
    value ← property item (codes "suffixData")
    suffix_data ← validate_suffix_data lib value
    rest ← validate_create_references items
    elim value [ some content ↦ ok (content ∷ rest) | none ↦ err unexpected ]

  unfoldable pub compute_unique_suffixes : List Json → Result (List Text)
  compute_unique_suffixes [] = ok []
  compute_unique_suffixes (suffix_data ∷ rest) = do
    suffix ← compute_unique_suffix lib node suffix_data
    suffixes ← compute_unique_suffixes rest
    ok (suffix ∷ suffixes)

  unfoldable pub validate_creates : Json → Result (List Json × List Text)
  validate_creates value = do
    items ← array_or core_index_file_create_property_not_array (some value)
    unwrapped ← unwrap_create_references items
    suffix_data ← validate_create_references unwrapped
    suffixes ← compute_unique_suffixes suffix_data
    ok (suffix_data, suffixes)

  unfoldable pub validate_references : ErrorCode → Json → Result (List OperationReference)
  validate_references not_array value = do
    items ← array_or not_array (some value)
    validate_operation_references lib items

  -- `parse` of the JSON value of the file
  unfoldable pub validate_core_index : Json → Result CoreIndexFile
  validate_core_index content = do
    throw_if
        (not (
          has_only
            (codes "provisionalIndexFileUri"
              ∷ codes "coreProofFileUri"
              ∷ codes "operations"
              ∷ codes "writerLockId"
              ∷ [])
            content))
        core_index_file_has_unknown_property
    if is_object content then ok tt else err unexpected
    writer_lock_id ← property content (codes "writerLockId") >>= if_present validate_writer_lock_id
    value ← property content (codes "operations")
    let operations = operations_or_empty value
    throw_if
        (not (has_only (codes "create" ∷ codes "recover" ∷ codes "deactivate" ∷ []) operations))
        core_index_file_unexpected_property_in_operations
    creates ← property operations (codes "create") >>= unless_undefined ([], []) validate_creates
    recovers ←
        property operations (codes "recover")
        >>= unless_undefined [] (validate_references core_index_file_recover_property_not_array)
    deactivates ←
        property operations (codes "deactivate")
        >>= unless_undefined [] (validate_references core_index_file_deactivate_property_not_array)
    finish_core_index content writer_lock_id creates recovers deactivates

  unfoldable pub parse_core_index : Text → Result CoreIndexFile
  parse_core_index buffer =
      read_file files max_core_index_file_size_in_bytes core_index_file_decompression_failure
        core_index_file_not_json buffer
      >>= validate_core_index
