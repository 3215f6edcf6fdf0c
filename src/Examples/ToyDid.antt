-- ===== src/Examples/ToyDid.antt =====
-- A DID of the examples, with its operations: a create, an update, a recovery and a deactivation.
use sidetree_js.Prelude.{ℕ, true, none, some, List, [], ◌∷◌, ◌==◌, if◌then◌else◌}
use sidetree_js.Prelude.Text.{Text, codes}
use sidetree_js.Errors.{unexpected, Result, ok, err}
use sidetree_js.Json.{str}
use sidetree_js.Document.{
  PublicKey, Service, Patch, add_public_keys, add_services, remove_public_keys,
}
use sidetree_js.Operation.{
  OperationType, create, update, deactivate, DidState, AnchoredOperation, Delta, Jws,
  UpdateOperation, OperationParser,
}
use sidetree_js.Examples.ToyCrypto.{encode}

-- what a key reveals, and what commits to it
abbrev pub reveal_of : ℕ → Text
reveal_of key = encode (18 ∷ 1 ∷ key ∷ [])

abbrev pub commitment_of : ℕ → Text
commitment_of key = encode (18 ∷ 1 ∷ 1 ∷ key ∷ [])

abbrev pub a_key : PublicKey
a_key = record { id = codes "k"; type = codes "t"; public_key_jwk = str []; purposes = none }

abbrev pub a_service : Service
a_service = record { id = codes "s"; type = codes "t"; service_endpoint = str [] }

abbrev jws : Jws
jws = record { protected = []; payload = []; signature = [] }

abbrev delta_of : ℕ → List Patch → ℕ → Delta
delta_of content patches next = record {
  patches = patches;
  update_commitment = commitment_of next;
  content = str (content ∷ []);
}

abbrev pub first_delta : Delta
first_delta = delta_of 5 (add_public_keys (a_key ∷ []) ∷ []) 8

abbrev pub next_delta : Delta
next_delta = delta_of 6 (add_services (a_service ∷ []) ∷ remove_public_keys (codes "k" ∷ []) ∷ []) 9

abbrev pub update_operation : UpdateOperation
update_operation = record {
  did_unique_suffix = codes "abc";
  reveal_value = reveal_of 8;
  signed_data_jws = jws;
  update_key = str (8 ∷ []);
  delta_hash = reveal_of 6;
  delta = some next_delta;
}

-- the type of an operation is the first byte of its buffer
abbrev reveal_value_in : Text → Result Text
reveal_value_in [] = err unexpected
reveal_value_in (kind ∷ rest) = ok (if kind == 2 then reveal_of 8 else reveal_of 7)

abbrev pub parser : OperationParser
parser = record {
  parse_create = λ b. ok (record {
    did_unique_suffix = codes "abc";
    delta_hash = reveal_of 5;
    recovery_commitment = commitment_of 7;
    delta = some first_delta;
  });
  parse_update = λ b. ok update_operation;
  parse_recover = λ b. ok (record {
    did_unique_suffix = codes "abc";
    reveal_value = reveal_of 7;
    signed_data_jws = jws;
    recovery_key = str (7 ∷ []);
    delta_hash = reveal_of 5;
    recovery_commitment = commitment_of 10;
    delta = some first_delta;
  });
  parse_deactivate = λ b. ok (record {
    did_unique_suffix = codes "abc";
    reveal_value = reveal_of 7;
    signed_data_jws = jws;
    recovery_key = str (7 ∷ []);
  });
  parse_reveal_value = reveal_value_in;
  verify_signature = λ signed key. ok true;
}

abbrev model : OperationType → ℕ → ℕ → AnchoredOperation
model type kind number = record {
  operation_buffer = kind ∷ [];
  did_unique_suffix = codes "abc";
  type = type;
  transaction_time = 1;
  transaction_number = number;
  operation_index = 0;
}

abbrev pub create_model : AnchoredOperation
create_model = model create 1 1

abbrev pub update_model : AnchoredOperation
update_model = model update 2 2

abbrev pub deactivate_model : AnchoredOperation
deactivate_model = model deactivate 3 3

abbrev pub bad_model : AnchoredOperation
bad_model = record deactivate_model { operation_buffer = [] }

abbrev pub created : DidState
created = record {
  document = record { public_keys = some (a_key ∷ []); services = none };
  next_recovery_commitment_hash = some (commitment_of 7);
  next_update_commitment_hash = some (commitment_of 8);
  last_operation_transaction_number = 1;
}

abbrev pub updated : DidState
updated = record {
  document = record { public_keys = some []; services = some (a_service ∷ []) };
  next_recovery_commitment_hash = some (commitment_of 7);
  next_update_commitment_hash = some (commitment_of 9);
  last_operation_transaction_number = 2;
}

abbrev pub deactivated : DidState
deactivated = record created {
  next_recovery_commitment_hash = none;
  next_update_commitment_hash = none;
  last_operation_transaction_number = 3;
}

-- A controller that commits to its update key again.
abbrev pub reusing_delta : Delta
reusing_delta = delta_of 6 [] 8

abbrev pub reusing_operation : UpdateOperation
reusing_operation = record update_operation { delta = some reusing_delta }

abbrev pub reusing : OperationParser
reusing = record parser { parse_update = λ b. ok reusing_operation }

abbrev pub second_update_model : AnchoredOperation
second_update_model = model update 2 4
