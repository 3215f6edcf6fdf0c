-- ===== src/Operation.antt =====
-- packages/common/src/models and enums: the DID state, anchored operations, and the operations that
-- packages/core/src/{Create,Update,Recover,Deactivate}Operation.ts parse from a buffer.
pub mod Parsing
pub mod Processor
pub mod Resolver
use sidetree_js.Prelude.{
  ℕ, zero, suc, ◌+◌, ◌-◌, ◌*◌, ◌/◌, ◌%◌, ◌≤◌, ◌<◌, max, ◌≡◌, refl, sym, ap, ◌∙◌, ◌≢◌, ◌↔◌, ◌⊎◌, inl,
  inr, Bool, true, false, not, ◌&&◌, ◌||◌, Option, none, some, List, [], ◌∷◌, ◌++◌, map, append-nil,
  append_assoc, arith, ltb, leb, ◌==◌, if◌then◌else◌, ltb→lt, leb→le, ==_iff, Bool-cases,
  Option-cases, length, get_elem?, take, drop, filter, length-append, All, All-append, All-filter,
}
use sidetree_js.Prelude.Text.{
  Text, codes, text_eq, text_eq_sound, text_eq_refl, text_eq_iff, member, Distinct,
}
use sidetree_js.Errors.{Result}
use sidetree_js.Json.{Json}
use sidetree_js.Document.{Document, Patch}

-- OperationType.ts; `other` is any other value of the field
pub data OperationType : Type 0 where
  create update recover deactivate other : OperationType

-- DidState.ts
pub record DidState : Type 0 where
  pub document : Document
  pub next_recovery_commitment_hash : Option Text
  pub next_update_commitment_hash : Option Text
  pub last_operation_transaction_number : ℕ

-- AnchoredOperationModel.ts
pub record AnchoredOperation : Type 0 where
  pub operation_buffer : Text
  pub did_unique_suffix : Text
  pub type : OperationType
  pub transaction_time : ℕ
  pub transaction_number : ℕ
  pub operation_index : ℕ

-- DeltaModel.ts, with the JSON object itself, which is hashed
pub record Delta : Type 0 where
  pub patches : List Patch
  pub update_commitment : Text
  pub content : Json

-- Jws.ts: the three parts of a compact JWS
pub record Jws : Type 0 where
  pub protected : Text
  pub payload : Text
  pub signature : Text

pub record CreateOperation : Type 0 where
  pub did_unique_suffix : Text
  pub delta_hash : Text
  pub recovery_commitment : Text
  pub delta : Option Delta

pub record UpdateOperation : Type 0 where
  pub did_unique_suffix : Text
  pub reveal_value : Text
  pub signed_data_jws : Jws
  pub update_key : Json
  pub delta_hash : Text
  pub delta : Option Delta

pub record RecoverOperation : Type 0 where
  pub did_unique_suffix : Text
  pub reveal_value : Text
  pub signed_data_jws : Jws
  pub recovery_key : Json
  pub delta_hash : Text
  pub recovery_commitment : Text
  pub delta : Option Delta

pub record DeactivateOperation : Type 0 where
  pub did_unique_suffix : Text
  pub reveal_value : Text
  pub signed_data_jws : Jws
  pub recovery_key : Json

-- What the processor takes of the parsers: `parse` of the four operation classes, `Operation.parse`
-- as far as its reveal value goes, and the verification of a signature.
pub record OperationParser : Type 0 where
  pub parse_create : Text → Result CreateOperation
  pub parse_update : Text → Result UpdateOperation
  pub parse_recover : Text → Result RecoverOperation
  pub parse_deactivate : Text → Result DeactivateOperation
  pub parse_reveal_value : Text → Result Text
  pub verify_signature : Jws → Json → Result Bool
