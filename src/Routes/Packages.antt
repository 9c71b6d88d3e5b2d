-- ===== src/Routes/Packages.antt =====
-- src/routes/packages.rs: package and version metadata.
pub mod Latest
use registry_api_contract.Prelude.{
  ℕ, String, Bool, true, false, Option, none, some, List, [], ◌∷◌, nat_eq, keep, find,
}
use registry_api_contract.Error.{ApiResult, ok, err, ok_or, not_found}
use registry_api_contract.Db.{Time, Uuid, Package, Version}
use registry_api_contract.State.{
  Database, World, Outside, Handler, answer, ◌>>=◌, lift, query, find_versions, find_version,
}
use registry_api_contract.Routes.{
  org_of, package_of, is_version, visible_versions_desc, tags_of, ArtifactFormat, VersionMetadata,
  version_metadata,
}

pub record PackageMetadata : Type 0 where
  pub org : String
  pub name : String
  pub description : Option String
  pub repo_url : String
  pub latest : Option String
  pub tags : List String
  pub versions : List String

abbrev pub in_package : Uuid → Version → Bool
in_package package_id v = nat_eq v.package_id package_id

-- `first`
abbrev pub first : List String → Option String
first [] = none
first (v ∷ vs) = some v

-- The answer for the package row and its version rows; the dependency's readings of the version control
-- system and the version scheme are left out.
unfoldable pub package_metadata :
    (List String → List String) → String → String → Package → List Version → PackageMetadata
unfolding visible_versions_desc tags_of
package_metadata sort_desc org name pkg rows =
    let versions = visible_versions_desc sort_desc rows in
    record {
      org = org;
      name = name;
      description = pkg.description;
      repo_url = pkg.repo_url;
      latest = first versions;
      tags = tags_of pkg;
      versions = versions;
    }

module _ (o : Outside) where
  unfoldable pub get_package :
      (List String → List String) → String → String → Handler PackageMetadata
  unfolding org_of package_of package_metadata
  get_package sort_desc org name = do
    org_row ← org_of o org
    pkg ← package_of o org_row name
    rows ← query (o.fails find_versions) (λ db. keep (in_package pkg.id) db.versions)
    answer (package_metadata sort_desc org name pkg rows)

  unfoldable pub get_version :
      (String → Option ArtifactFormat)
      → (String → String)
      → (Time → String)
      → String
      → String
      → String
      → String
      → Handler VersionMetadata
  unfolding org_of package_of version_metadata
  get_version deserialize artifact_path rfc3339 public_base_url org name ver = do
    org_row ← org_of o org
    pkg ← package_of o org_row name
    found ← query (o.fails find_version) (λ db. find (is_version pkg.id ver) db.versions)
    row ← lift (ok_or found not_found)
    answer (version_metadata deserialize artifact_path rfc3339 public_base_url org name row)
