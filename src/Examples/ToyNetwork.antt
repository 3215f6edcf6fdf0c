-- ===== src/Examples/ToyNetwork.antt =====
-- Packages, files and a ledger of the examples: a batch with one create, and a batch that mixes a
-- create with a deactivate.
use sidetree_js.Prelude.{ℕ, zero, suc, true, none, some, List, [], ◌∷◌, ◌++◌, if◌then◌else◌}
use sidetree_js.Prelude.Text.{Text, codes, text_eq, member}
use sidetree_js.Errors.{unexpected, Result, ok, err}
use sidetree_js.Json.{Json, str, arr, obj, nil, cons, end, field}
use sidetree_js.Crypto.{CryptoLib}
use sidetree_js.Operation.{create, AnchoredOperation}
use sidetree_js.Operation.Parsing.{ParserLib}
use sidetree_js.Ledger.{Transaction}
use sidetree_js.Ledger.Doubles.{integer}
use sidetree_js.Files.{FileLib}
use sidetree_js.Transactions.Download.{FetchResult, Network, success, not_found}
use sidetree_js.Examples.ToyCrypto.{toy}
use sidetree_js.Examples.ToyDid.{reveal_of, commitment_of}

abbrev pub lib : CryptoLib
lib = record toy { canonicalize = λ content. ok (1 ∷ []) }

abbrev times : ℕ → ℕ → Text
times zero c = []
times (suc n) c = c ∷ times n c

abbrev pub jwk : Json
jwk = obj (
    field (codes "kty") (str (codes "EC")) (
      field (codes "crv") (str (codes "secp256k1"))
        (field (codes "x") (str (times 43 b'x')) (field (codes "y") (str (times 43 b'y')) end))))

abbrev key_json : Text → Json
key_json id = obj (
    field (codes "id") (str id) (
      field (codes "type") (str (codes "t")) (
        field (codes "publicKeyJwk") jwk
          (field (codes "purposes") (arr (cons (str (codes "authentication")) nil)) end))))

abbrev pub keys_json : Json
keys_json = arr (cons (key_json (codes "a")) (cons (key_json (codes "b")) nil))

abbrev service_json : Text → Json
service_json id = obj (
    field (codes "id") (str id) (
      field (codes "type") (str (codes "t"))
        (field (codes "serviceEndpoint") (str (codes "u")) end)))

abbrev pub services_json : Json
services_json = arr (cons (service_json (codes "a")) (cons (service_json (codes "b")) nil))

abbrev pub patches_json : Json
patches_json = arr (
    cons
      (obj (
        field (codes "action") (str (codes "add-public-keys"))
          (field (codes "publicKeys") keys_json end)))
      nil)

abbrev pub delta_json : Json
delta_json = obj (
    field (codes "patches") patches_json (field (codes "updateCommitment") (str (reveal_of 7)) end))

abbrev pub suffix_data_json : Json
suffix_data_json = obj (
    field (codes "deltaHash") (str (reveal_of 1))
      (field (codes "recoveryCommitment") (str (reveal_of 7)) end))

abbrev create_json : Json
create_json = obj (
    field (codes "type") (str (codes "create"))
      (field (codes "suffixData") suffix_data_json (field (codes "delta") delta_json end)))

-- a create whose update commitment the key of the update reveals
abbrev next_create_json : Json
next_create_json = obj (
    field (codes "type") (str (codes "create")) (
      field (codes "suffixData") suffix_data_json (
        field (codes "delta")
          (obj (
            field (codes "patches") patches_json
              (field (codes "updateCommitment") (str (commitment_of 1)) end)))
          end)))

abbrev pub update_json : Json
update_json = obj (
    field (codes "type") (str (codes "update")) (
      field (codes "didSuffix") (str (codes "d")) (
        field (codes "revealValue") (str (reveal_of 1)) (
          field (codes "signedData") (str (codes "h.p.s"))
            (field (codes "delta") delta_json end)))))

abbrev header_json : Json
header_json = obj (field (codes "alg") (str (codes "EdDSA")) end)

abbrev update_signed_json : Json
update_signed_json =
    obj (field (codes "updateKey") jwk (field (codes "deltaHash") (str (reveal_of 1)) end))

abbrev deactivate_signed_json : Json
deactivate_signed_json =
    obj (field (codes "didSuffix") (str (reveal_of 2)) (field (codes "recoveryKey") jwk end))

-- the value of a key in a table
abbrev look_up : Text → List (Text × Json) → Result Json
look_up key [] = err unexpected
look_up key ((k, value) ∷ rest) = if text_eq k key then ok value else look_up key rest

abbrev pub node : ParserLib
node = record {
  to_string = λ b. b;
  json_parse = λ t. look_up t ((codes "h", header_json) ∷ (codes "c", create_json) ∷ []);
  json_parse_async = λ t. look_up t (
      (codes "p", update_signed_json)
      ∷ (codes "q", deactivate_signed_json)
      ∷ (codes "c", create_json)
      ∷ (codes "u", update_json)
      ∷ (codes "n", next_create_json)
      ∷ []);
  base64url_decode = λ t. t;
  is_uri = λ t. true;
  verify = λ t key. ok true;
}

abbrev reference_json : Text → Json
reference_json suffix =
    obj
      (field (codes "didSuffix") (str suffix) (field (codes "revealValue") (str (reveal_of 1)) end))

abbrev create_reference_json : Json
create_reference_json = obj (field (codes "suffixData") suffix_data_json end)

abbrev pub core_index_json : Json
core_index_json = obj (
    field (codes "provisionalIndexFileUri") (str (codes "v")) (
      field (codes "operations")
        (obj (field (codes "create") (arr (cons create_reference_json nil)) end)) end))

abbrev mixed_core_index_json : Json
mixed_core_index_json = obj (
    field (codes "provisionalIndexFileUri") (str (codes "v")) (
      field (codes "coreProofFileUri") (str (codes "f")) (
        field (codes "operations")
          (obj (
            field (codes "create") (arr (cons create_reference_json nil))
              (field (codes "deactivate") (arr (cons (reference_json (reveal_of 2)) nil)) end)))
          end)))

abbrev provisional_index_json : Json
provisional_index_json = obj (
    field (codes "chunks")
      (arr (cons (obj (field (codes "chunkFileUri") (str (codes "k")) end)) nil)) end)

abbrev chunk_json : Json
chunk_json = obj (field (codes "deltas") (arr (cons delta_json nil)) end)

abbrev core_proof_json : Json
core_proof_json = obj (
    field (codes "operations")
      (obj (
        field (codes "deactivate")
          (arr (cons (obj (field (codes "signedData") (str (codes "h.q.s")) end)) nil)) end))
      end)

-- The content of a file is its URI.
abbrev pub files : FileLib
files = record {
  gunzip = λ b. (b ∷ [], true);
  json_parse_buffer = λ b. look_up b (
      (codes "i", core_index_json)
      ∷ (codes "m", mixed_core_index_json)
      ∷ (codes "v", provisional_index_json)
      ∷ (codes "k", chunk_json)
      ∷ (codes "f", core_proof_json)
      ∷ []);
  buffer_from = λ t. t;
  stringify = λ j. 9 ∷ [];
}

abbrev fetch : Text → FetchResult
fetch uri =
    if member uri (codes "i" ∷ codes "m" ∷ codes "v" ∷ codes "k" ∷ codes "f" ∷ [])
    then record { code = success; content = some uri }
    else record { code = not_found; content = none }

abbrev pub network : Network
network = record {
  lib = lib;
  node = node;
  files = files;
  download = λ uri n. ok (fetch uri);
  get_value_time_lock = λ identifier. ok none;
  get_version_metadata = λ time. ok (record {
    normalized_fee_to_per_operation_fee_multiplier = integer 1;
    value_time_lock_amount_multiplier = integer 1;
  });
}

abbrev pub transaction_of : Text → Transaction
transaction_of anchor = record {
  transaction_number = 3;
  transaction_time = 4;
  transaction_time_hash = [];
  anchor_string = anchor;
  transaction_fee_paid = 0;
  normalized_transaction_fee = none;
  writer = [];
}

-- the store is the list of its operations
abbrev pub insert :
    List AnchoredOperation → List AnchoredOperation → Result (List AnchoredOperation)
insert store operations = ok (store ++ operations)

abbrev pub created_operation : AnchoredOperation
created_operation = record {
  operation_buffer = 9 ∷ [];
  did_unique_suffix = reveal_of 1;
  type = create;
  transaction_time = 4;
  transaction_number = 3;
  operation_index = 0;
}
