-- ===== src/Routes/Payload.antt =====
-- src/routes/publish.rs: what a publish request carries, and `read_multipart`.
pub mod Received
use registry_api_contract.Prelude.{String, Option, none, some, List, [], ◌∷◌}
use registry_api_contract.Error.{ApiResult, ok, err, bad_request}
use registry_api_contract.Storage.{Bytes}
use registry_api_contract.Auth.{Authorization}

-- The manifest's package section, as far as the handler reads it.
pub record Manifest : Type 0 where
  pub org : String
  pub name : String
  pub version : String
  pub description : Option String
  pub vcs : String
  pub repo_url : String
  pub version_scheme : String
  pub keywords : List String

-- `PublishMeta`, with its format as the extension.
pub record PublishMeta : Type 0 where
  pub manifest : Manifest
  pub sha256 : String
  pub vcs_tag : String
  pub vcs_commit : Option String
  pub extension : String

-- A field of the multipart body: the reading of the next field fails; a meta field, when its text can
-- be read and parsed; an artifact field, when its bytes can be read; another field.
pub data Field : Type 0 where
  broken : Field
  meta_field : Option PublishMeta → Field
  artifact_field : Option Bytes → Field
  other_field : Field

unfoldable pub read_fields :
    Option PublishMeta → Option Bytes → List Field → ApiResult (PublishMeta × Bytes)
read_fields none artifact [] = err (bad_request "invalid_meta")
read_fields (some meta) none [] = err (bad_request "invalid_artifact")
read_fields (some meta) (some artifact) [] = ok (meta, artifact)
read_fields meta artifact (broken ∷ fs) = err (bad_request "invalid_multipart")
read_fields meta artifact (meta_field none ∷ fs) = err (bad_request "invalid_meta")
read_fields meta artifact (meta_field (some m) ∷ fs) = read_fields (some m) artifact fs
read_fields meta artifact (artifact_field none ∷ fs) = err (bad_request "invalid_artifact")
read_fields meta artifact (artifact_field (some a) ∷ fs) = read_fields meta (some a) fs
read_fields meta artifact (other_field ∷ fs) = read_fields meta artifact fs

unfoldable pub read_multipart : List Field → ApiResult (PublishMeta × Bytes)
unfolding read_fields
read_multipart fs = read_fields none none fs

-- The path and the parts of a request.
pub record PublishRequest : Type 0 where
  pub org : String
  pub name : String
  pub version : String
  pub authorization : Authorization
  pub body : List Field

pub record PublishResponse : Type 0 where
  pub org : String
  pub name : String
  pub version : String
  pub sha256 : String
