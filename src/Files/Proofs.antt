-- ===== src/Files/Proofs.antt =====
-- packages/core/src/CoreProofFile.ts and ProvisionalProofFile.ts, `parse`. Of a proof the JWS is
-- kept; its signed data is parsed for the checks alone.
use sidetree_js.Prelude.{◌+◌, Option, none, some, List, [], ◌∷◌, ◌==◌, length}
use sidetree_js.Prelude.Text.{Text, codes}
use sidetree_js.Errors.{ErrorCode, sidetree, Result, ok, err, ◌>>=◌, ◌>>◌, throw_if}
use sidetree_js.Errors.{
  core_proof_file_decompression_failure, core_proof_file_not_json,
  core_proof_file_operations_not_found, core_proof_file_recover_property_not_an_array,
  core_proof_file_deactivate_property_not_an_array, core_proof_file_has_no_proofs,
  provisional_proof_file_decompression_failure, provisional_proof_file_not_json,
  provisional_proof_file_operations_not_found, provisional_proof_file_update_property_not_an_array,
  provisional_proof_file_has_no_proofs,
}
use sidetree_js.Json.{Json, Items, nil, cons, property}
use sidetree_js.Json.Typing.{array_or}
use sidetree_js.Parameters.{max_proof_file_size_in_bytes}
use sidetree_js.Crypto.{CryptoLib}
use sidetree_js.Input.{validate_object_contains_only_allowed_properties}
use sidetree_js.Operation.{Jws}
use sidetree_js.Operation.Parsing.{ParserLib, parse_compact_jws}
use sidetree_js.Operation.Parsing.Operations.{
  parse_update_signed_data, parse_recover_signed_data, parse_deactivate_signed_data,
}
use sidetree_js.Files.{FileLib, read_file}
use sidetree_js.Files.CoreIndex.{unless_undefined}

pub record CoreProofFile : Type 0 where
  pub recover_proofs : List Jws
  pub deactivate_proofs : List Jws

pub record ProvisionalProofFile : Type 0 where
  pub update_proofs : List Jws

-- `array[0]` and the rest of the array
abbrev pub head : List Text → Option Text
head [] = none
head (x ∷ xs) = some x

abbrev pub tail : List Text → List Text
tail [] = []
tail (x ∷ xs) = xs

-- `if (operations === undefined) { throw ... }`
abbrev pub defined_or : ErrorCode → Option Json → Result Json
defined_or code none = err (sidetree code)
defined_or code (some value) = ok value

module _ (lib : CryptoLib) (node : ParserLib) (files : FileLib) where
  -- one round of a loop over proofs, before the signed data
  unfoldable pub parse_proof : Json → Result Jws
  parse_proof proof = do
    validate_object_contains_only_allowed_properties proof (codes "signedData" ∷ [])
    property proof (codes "signedData") >>= parse_compact_jws node

  unfoldable pub parse_recover_proofs : Items → Result (List Jws)
  parse_recover_proofs nil = ok []
  parse_recover_proofs (cons proof proofs) = do
    jws ← parse_proof proof
    signed_data ← parse_recover_signed_data lib node jws.payload
    rest ← parse_recover_proofs proofs
    ok (jws ∷ rest)

  -- with the DID suffixes that are expected from here on
  unfoldable pub parse_deactivate_proofs : List Text → Items → Result (List Jws)
  parse_deactivate_proofs expected nil = ok []
  parse_deactivate_proofs expected (cons proof proofs) = do
    jws ← parse_proof proof
    signed_data ← parse_deactivate_signed_data lib node jws.payload (head expected)
    rest ← parse_deactivate_proofs (tail expected) proofs
    ok (jws ∷ rest)

  unfoldable pub parse_update_proofs : Items → Result (List Jws)
  parse_update_proofs nil = ok []
  parse_update_proofs (cons proof proofs) = do
    jws ← parse_proof proof
    signed_data ← parse_update_signed_data lib node jws.payload
    rest ← parse_update_proofs proofs
    ok (jws ∷ rest)

  unfoldable pub validate_core_proof : Json → List Text → Result CoreProofFile
  validate_core_proof content expected = do
    operations ←
        property content (codes "operations") >>= defined_or core_proof_file_operations_not_found
    validate_object_contains_only_allowed_properties operations
        (codes "recover" ∷ codes "deactivate" ∷ [])
    recover_proofs ←
        property operations (codes "recover")
        >>= unless_undefined [] (λ value.
          array_or core_proof_file_recover_property_not_an_array (some value)
          >>= parse_recover_proofs)
    deactivate_proofs ←
        property operations (codes "deactivate")
        >>= unless_undefined [] (λ value.
          array_or core_proof_file_deactivate_property_not_an_array (some value)
          >>= parse_deactivate_proofs expected)
    throw_if (length recover_proofs + length deactivate_proofs == 0) core_proof_file_has_no_proofs
    ok (record { recover_proofs = recover_proofs; deactivate_proofs = deactivate_proofs })

  unfoldable pub parse_core_proof : Text → List Text → Result CoreProofFile
  parse_core_proof buffer expected = do
    content ←
        read_file files max_proof_file_size_in_bytes core_proof_file_decompression_failure
          core_proof_file_not_json buffer
    validate_core_proof content expected

  unfoldable pub validate_provisional_proof : Json → Result ProvisionalProofFile
  validate_provisional_proof content = do
    operations ←
        property content (codes "operations")
        >>= defined_or provisional_proof_file_operations_not_found
    validate_object_contains_only_allowed_properties operations (codes "update" ∷ [])
    proofs ←
        property operations (codes "update")
        >>= array_or provisional_proof_file_update_property_not_an_array
    update_proofs ← parse_update_proofs proofs
    throw_if (length update_proofs == 0) provisional_proof_file_has_no_proofs
    ok (record { update_proofs = update_proofs })

  unfoldable pub parse_provisional_proof : Text → Result ProvisionalProofFile
  parse_provisional_proof buffer =
      read_file files max_proof_file_size_in_bytes provisional_proof_file_decompression_failure
        provisional_proof_file_not_json buffer
      >>= validate_provisional_proof
