-- ===== src/Routes.antt =====
-- src/routes/mod.rs: the lookups and the views of rows that the handlers share, and the handlers of the
-- other files of src/routes/ as children. `sort_desc` of the version order is the dependency's.
pub mod Artifacts
pub mod Packages
pub mod Trail
pub mod Listing
pub mod Semantic
pub mod Finding
pub mod Lookups
pub mod Payload
pub mod Publish
pub mod Yank
pub mod Orgs
use registry_api_contract.Prelude.{
  ℕ, ◌/◌, min, max, String, ◌<>◌, Bool, true, false, not, Option, none, some, List, [], ◌∷◌, ◌&&◌,
  ◌==◌, nat_eq, map, keep, find, unwrap_or,
}
use registry_api_contract.Error.{ApiErr, ApiResult, ok, err, ok_or, not_found}
use registry_api_contract.Db.{Uuid, Time, Org, Package, Version, Json, array, other}
use registry_api_contract.Audit.Record.{Event, record_event}
use registry_api_contract.State.{
  Database, World, Call, Dependencies, Outside, Handler, ◌>>=◌, lift, query, find_org, find_package,
}

abbrev pub max_in_flight_requests : ℕ
max_in_flight_requests = 512

abbrev pub default_artifact_serve_budget : ℕ
default_artifact_serve_budget = 268435456

-- The variable's value when it is set and a number, and the size of the largest artifact.
unfoldable pub artifact_serve_concurrency : Option ℕ → ℕ → ℕ
artifact_serve_concurrency configured max_artifact_bytes =
    let budget = unwrap_or default_artifact_serve_budget configured in
    min (max (budget / max max_artifact_bytes 1) 1) max_in_flight_requests

abbrev pub has_slug : String → Org → Bool
has_slug slug o = o.slug == slug

abbrev pub is_package : Uuid → String → Package → Bool
is_package org_id name p = nat_eq p.org_id org_id && p.name == name

abbrev pub is_version : Uuid → String → Version → Bool
is_version package_id ver v = nat_eq v.package_id package_id && v.version == ver

-- `find_org` and `find_package`
unfoldable pub org_of : Outside → String → Handler Org
org_of o slug = query (o.fails find_org) (λ db. find (has_slug slug) db.orgs) >>= λ row.
    lift (ok_or row not_found)

unfoldable pub package_of : Outside → Org → String → Handler Package
package_of o org name =
    query (o.fails find_package) (λ db. find (is_package org.id name) db.packages) >>= λ row.
    lift (ok_or row not_found)

module _ (d : Dependencies) (o : Outside) where
  -- `record` of src/audit.rs, which reports no error.
  abbrev pub audit : Event → Handler (Unit {0})
  audit e w = (
    ok tt,
    record w {
      database = record w.database {
        audit_log = record_event d.hasher d.action_text o.attempts e w.database.audit_log;
      };
    },
  )

module _ (sort_desc : List String → List String) where
  unfoldable pub visible_versions_desc : List Version → List String
  visible_versions_desc rows = sort_desc (map (λ r. r.version) (keep (λ r. not r.yanked) rows))

  unfoldable pub latest_visible_version : List Version → Option String
  unfolding visible_versions_desc
  latest_visible_version rows = elim (visible_versions_desc rows) [ [] ↦ none | v ∷ vs ↦ some v ]

abbrev pub texts : List (Option String) → List String
texts [] = []
texts (none ∷ vs) = texts vs
texts (some v ∷ vs) = v ∷ texts vs

unfoldable pub tags_of : Package → List String
tags_of p = elim p.tags [ array vs ↦ texts vs | other ↦ [] ]

-- `zed_interfaces::artifact::ArtifactFormat`, whose default is `TarGz`.
pub data ArtifactFormat : Type 0 where
  tar_gz_format zip_format : ArtifactFormat

-- `deserialize` is the dependency's reading of a format's spelling.
unfoldable pub artifact_format : (String → Option ArtifactFormat) → String → ArtifactFormat
artifact_format deserialize format = unwrap_or tar_gz_format (deserialize format)

pub record VersionMetadata : Type 0 where
  pub org : String
  pub name : String
  pub version : String
  pub sha256 : String
  pub size : ℕ
  pub format : ArtifactFormat
  pub vcs_tag : String
  pub vcs_commit : Option String
  pub download_url : String
  pub published_at : String
  pub yanked : Bool

-- `artifact_path` and `rfc3339` are the dependencies'.
unfoldable pub version_metadata :
    (String → Option ArtifactFormat)
    → (String → String)
    → (Time → String)
    → String
    → String
    → String
    → Version
    → VersionMetadata
unfolding artifact_format
version_metadata deserialize artifact_path rfc3339 public_base_url org name row = record {
  org = org;
  name = name;
  version = row.version;
  sha256 = row.sha256;
  size = row.size;
  format = artifact_format deserialize row.format;
  vcs_tag = row.vcs_tag;
  vcs_commit = row.vcs_commit;
  download_url = public_base_url <> artifact_path row.sha256;
  published_at = rfc3339 row.published_at;
  yanked = row.yanked;
}
