-- ===== src/Document.antt =====
-- packages/common/src/models: DocumentModel.ts, PublicKeyModel.ts and ServiceModel.ts, and the
-- patches that packages/core/src/DocumentComposer.ts applies, in the shape that its validation
-- leaves them. An absent property is `none`.
pub mod Find
pub mod Composer
pub mod Validation
use sidetree_js.Prelude.{Option, none, List}
use sidetree_js.Prelude.Text.{Text}
use sidetree_js.Json.{Json}

pub record PublicKey : Type 0 where
  pub id : Text
  pub type : Text
  pub public_key_jwk : Json
  pub purposes : Option (List Text)

pub record Service : Type 0 where
  pub id : Text
  pub type : Text
  pub service_endpoint : Json

pub record Document : Type 0 where
  pub public_keys : Option (List PublicKey)
  pub services : Option (List Service)

-- `{}`
abbrev pub empty_document : Document
empty_document = record { public_keys = none; services = none }

-- PatchAction.ts; `unknown` is a patch with any other action
pub data Patch : Type 0 where
  replace : Document → Patch
  add_public_keys : List PublicKey → Patch
  remove_public_keys : List Text → Patch
  add_services : List Service → Patch
  remove_services : List Text → Patch
  unknown : Text → Patch
