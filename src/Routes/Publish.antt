-- ===== src/Routes/Publish.antt =====
-- src/routes/publish.rs: the publish pipeline, from the credential to the committed rows.
pub mod Atomic
pub mod Transaction
pub mod Accepted
pub mod Metadata
pub mod Published
pub mod Upsert
pub mod Immutable
use registry_api_contract.Prelude.{
  ℕ, String, ◌<>◌, Bool, true, false, not, Option, none, some, List, [], ◌∷◌, ◌&&◌, ◌||◌, ◌==◌,
  nat_eq, map, any, find, is_some, length, if◌then◌else◌,
}
use registry_api_contract.Error.{
  ApiErr, ApiResult, ok, err, ok_or, bad_request, conflict, internal, not_found_status,
  internal_server_error,
}
use registry_api_contract.Db.{
  Uuid, Time, Org, Token, Package, Version, Json, array, DbErr, DbResult, done, failed,
  unique_violation, fault, insert_row, package_clashes, version_clashes,
}
use registry_api_contract.Rbac.{parse, authorize_publish}
use registry_api_contract.Text.{Text, codes}
use registry_api_contract.Storage.{Bytes, External, ArtifactStore, put, artifact_key}
use registry_api_contract.Verify.{TagCheck, skipped, verified, missing, verify}
use registry_api_contract.Audit.Record.{AuditAction, Event, record_event}
use registry_api_contract.State.{
  Database, World, AppState, Dependencies, Outside, Handler, answer, refuse, ◌>>=◌, lift, require,
  query, set_database, meanwhile, transaction, Call, find_org, find_package, find_version, upsert,
  find_upserted, insert_version, commit, begin,
}
use registry_api_contract.Auth.{Authorization, require_token}
use registry_api_contract.Routes.{audit, has_slug, is_package, is_version}
use registry_api_contract.Routes.Payload.{
  Manifest, PublishMeta, Field, read_multipart, PublishRequest, PublishResponse,
}

abbrev pub org_not_found : ApiErr
org_not_found = record { status = not_found_status; code = "org_not_found" }

abbrev pub package_upsert_missing : ApiErr
package_upsert_missing = record { status = internal_server_error; code = "package_upsert_missing" }

-- The columns that a conflict on (org_id, name) updates.
abbrev pub updated_package : Package → Package → Package
updated_package new old = record old {
  description = new.description;
  vcs = new.vcs;
  repo_url = new.repo_url;
  version_scheme = new.version_scheme;
  tags = new.tags;
}

-- `INSERT … ON CONFLICT (org_id, name) DO UPDATE`
unfoldable pub upsert_row : Package → List Package → DbResult (List Package)
upsert_row new rows =
    if any (is_package new.org_id new.name) rows
    then done (
        map (λ old. if is_package new.org_id new.name old then updated_package new old else old)
          rows)
    else insert_row package_clashes new rows

-- `From<DbErr>` for a statement that stores a table.
abbrev pub stored :
    {A : Type 0} → (List A → Database → Database) → DbResult (List A) → Handler (Unit {0})
stored f (done rows) w = (ok tt, record w { database = f rows w.database })
stored f (failed e) w = (err internal, w)

-- The answer to the insert's error: the unique index tells of a concurrent publish.
abbrev pub inserted : DbResult (List Version) → Handler (Unit {0})
inserted (done rows) w = (ok tt, record w { database = record w.database { versions = rows } })
inserted (failed unique_violation) w = (err (conflict "version_exists"), w)
inserted (failed fault) w = (err internal, w)

module _ (o : Outside) where
  unfoldable pub package_row : Org → String → PublishMeta → Package
  package_row org name meta = record {
    id = o.uuid upsert;
    org_id = org.id;
    name = name;
    description = meta.manifest.description;
    vcs = meta.manifest.vcs;
    repo_url = meta.manifest.repo_url;
    version_scheme = meta.manifest.version_scheme;
    tags = array (map some meta.manifest.keywords);
    created_at = o.now;
  }

  unfoldable pub upsert_package : Org → String → PublishMeta → Handler Package
  unfolding upsert_row package_row
  upsert_package org name meta = do
    done_ ← (λ w.
        stored (λ rows db. record db { packages = rows })
          (if o.fails upsert
            then failed fault
            else upsert_row (package_row org name meta) w.database.packages)
          w)
    row ← query (o.fails find_upserted) (λ db. find (is_package org.id name) db.packages)
    lift (ok_or row package_upsert_missing)

  unfoldable pub version_row : Package → String → String → ℕ → PublishMeta → Version
  unfolding artifact_key
  version_row pkg ver sha artifact_len meta = record {
    id = o.uuid insert_version;
    package_id = pkg.id;
    version = ver;
    sha256 = sha;
    size = artifact_len;
    format = meta.extension;
    vcs_tag = meta.vcs_tag;
    vcs_commit = meta.vcs_commit;
    artifact_key = artifact_key sha meta.extension;
    yanked = false;
    published_at = o.now;
  }

  -- The statements of the transaction.
  unfoldable pub record_body : Org → PublishRequest → PublishMeta → String → ℕ → Handler (Unit {0})
  unfolding upsert_package version_row
  record_body org r meta sha artifact_len = do
    begun ← require (not (o.fails begin)) internal
    pkg ← upsert_package org r.name meta
    row ← (λ w.
        inserted
          (if o.fails insert_version
            then failed fault
            else insert_row version_clashes (version_row pkg r.version sha artifact_len meta)
                w.database.versions)
          w)
    require (not (o.fails commit)) internal

  -- The transaction: the metadata and the version together, or neither.
  unfoldable pub record_version :
      Org → PublishRequest → PublishMeta → String → ℕ → Handler (Unit {0})
  unfolding record_body
  record_version org r meta sha artifact_len = transaction (record_body org r meta sha artifact_len)

  -- The immutability check before anything is stored.
  unfoldable pub require_new : PublishRequest → Option Package → Handler (Unit {0})
  require_new r none = answer tt
  require_new r (some p) =
      query (o.fails find_version) (λ db. find (is_version p.id r.version) db.versions)
      >>= λ existing. require (not (is_some existing)) (conflict "version_exists")

  unfoldable pub require_unpublished : Org → PublishRequest → Handler (Unit {0})
  unfolding require_new
  require_unpublished org r =
      query (o.fails find_package) (λ db. find (is_package org.id r.name) db.packages) >>= λ pkg.
      require_new r pkg

  unfoldable pub find_publish_org : String → Handler Org
  find_publish_org slug = query (o.fails find_org) (λ db. find (has_slug slug) db.orgs) >>= λ row.
      lift (ok_or row org_not_found)

abbrev pub stored_artifact : Option ArtifactStore → Handler (Unit {0})
stored_artifact none w = (err internal, w)
stored_artifact (some store) w = (ok tt, record w { store = store })

abbrev pub tag_verdict : Option TagCheck → ApiResult (Unit {0})
tag_verdict none = err internal
tag_verdict (some missing) = err (bad_request "tag_not_found")
tag_verdict (some (verified sha)) = ok tt
tag_verdict (some skipped) = ok tt

abbrev pub matches_url : PublishRequest → Manifest → Bool
matches_url r m = m.org == r.org && m.name == r.name && m.version == r.version

module _ (d : Dependencies) (valid_manifest : Manifest → Bool) (s : AppState) where
  unfoldable pub check_tag : PublishMeta → ApiResult (Unit {0})
  unfolding verify
  check_tag meta = tag_verdict (
      verify s.policy (d.uses_git_tags meta.manifest.vcs) d.get_ref (codes meta.manifest.repo_url)
        meta.vcs_tag)

  -- The checks of the payload, before the database is asked again.
  unfoldable pub check_payload : PublishRequest → PublishMeta → Bytes → Handler (Unit {0})
  unfolding check_tag
  check_payload r meta artifact = do
    valid ← require (valid_manifest meta.manifest) (bad_request "invalid_manifest")
    matching ← require (matches_url r meta.manifest) (bad_request "manifest_url_mismatch")
    intact ← require (d.sha256_bytes artifact == meta.sha256) (bad_request "sha256_mismatch")
    lift (check_tag meta)

module _ (d : Dependencies) (o : Outside) where
  -- What follows the commit.
  unfoldable pub acknowledge : Org → Token → PublishRequest → String → Handler PublishResponse
  acknowledge org token r sha = do
    audited ← audit d o (record {
      org_id = org.id;
      token = token;
      action = AuditAction.publish;
      subject = r.org <> "/" <> r.name <> "@" <> r.version;
      detail = some ("sha256=" <> sha);
    })
    answer (record { org = r.org; name = r.name; version = r.version; sha256 = sha })

  -- From the checked payload on.
  unfoldable pub store_and_record : Org → PublishRequest → PublishMeta → Bytes → Handler (Unit {0})
  unfolding require_unpublished record_version put
  store_and_record org r meta artifact =
      let sha = d.sha256_bytes artifact in
      do
        unpublished ← require_unpublished o org r
        uploaded ← (λ w.
            stored_artifact (put d.external (artifact_key sha meta.extension) artifact w.store) w)
        others ← meanwhile o.race
        record_version o org r meta sha (length artifact)

module _ (d : Dependencies) (valid_manifest : Manifest → Bool) (s : AppState) (o : Outside) where
  unfoldable pub publish : PublishRequest → Handler PublishResponse
  unfolding require_token find_publish_org authorize_publish read_multipart check_payload
      store_and_record acknowledge
  publish r = do
    token ← require_token d s o r.authorization
    org ← find_publish_org o r.org
    authorized ← lift (authorize_publish token.org_id (parse token.role) org.id)
    (meta, artifact) ← lift (read_multipart r.body)
    checked ← check_payload d valid_manifest s r meta artifact
    recorded ← store_and_record d o org r meta artifact
    acknowledge d o org token r (d.sha256_bytes artifact)
