-- ===== src/Routes/Artifacts.antt =====
-- src/routes/artifacts.rs: downloads by digest, and single files of a package.
pub mod RoundTrip
use registry_api_contract.Prelude.{
  ℕ, String, Bool, true, false, Option, none, some, List, [], ◌∷◌, ◌==◌, find, length,
}
use registry_api_contract.Error.{
  ApiErr, ApiResult, ok, err, ok_or, not_found, internal, from_extract_error,
}
use registry_api_contract.Db.{Version}
use registry_api_contract.Text.{codes}
use registry_api_contract.Storage.{
  Bytes, External, Download, redirect, bytes, file, download, get_bytes,
}
use registry_api_contract.Files.{
  Archive, Extracted, extracted, not_extracted, extract_file, FileHeaders, served_file_headers,
}
use registry_api_contract.State.{
  Database, World, Dependencies, Outside, Handler, answer, ◌>>=◌, lift, query, find_artifact,
  find_version,
}
use registry_api_contract.Routes.{org_of, package_of, is_version, ArtifactFormat, artifact_format}

abbrev pub immutable : String
immutable = "public, max-age=31536000, immutable"

-- A redirect, or a body with its content type, cache control and content length.
pub data ArtifactResponse : Type 0 where
  found_at : String → ArtifactResponse
  content : String → String → ℕ → Bytes → ArtifactResponse

pub record FileResponse : Type 0 where
  pub headers : FileHeaders
  pub body : Bytes

abbrev pub has_sha : String → Version → Bool
has_sha sha v = v.sha256 == sha

module _ (d : Dependencies) (deserialize : String → Option ArtifactFormat) (o : Outside) where
  unfoldable pub artifact_response :
      (ArtifactFormat → String) → Version → Option Download → ApiResult ArtifactResponse
  unfolding artifact_format
  artifact_response content_type row none = err internal
  artifact_response content_type row (some (redirect url)) = ok (found_at url)
  artifact_response content_type row (some (bytes v)) =
      ok (content (content_type (artifact_format deserialize row.format)) immutable (length v) v)
  artifact_response content_type row (some (file v len)) =
      ok (content (content_type (artifact_format deserialize row.format)) immutable len v)

  unfoldable pub get_artifact : (ArtifactFormat → String) → String → Handler ArtifactResponse
  unfolding artifact_response download
  get_artifact content_type sha = do
    found ← query (o.fails find_artifact) (λ db. find (has_sha sha) db.versions)
    row ← lift (ok_or found not_found)
    (λ w. (artifact_response content_type row (download d.external row.artifact_key w.store), w))

  abbrev pub file_of : Extracted (Option Bytes) → ApiResult Bytes
  file_of (not_extracted e) = err (from_extract_error e)
  file_of (extracted none) = err not_found
  file_of (extracted (some body)) = ok body

  -- `read_archive` opens the bytes as an archive of a format.
  unfoldable pub get_file :
      String
      → (Bytes → ArtifactFormat → Archive)
      → String
      → String
      → String
      → String
      → Handler FileResponse
  unfolding org_of package_of get_bytes extract_file artifact_format served_file_headers
      from_extract_error
  get_file archive_root read_archive org name ver path = do
    org_row ← org_of o org
    pkg ← package_of o org_row name
    found ← query (o.fails find_version) (λ db. find (is_version pkg.id ver) db.versions)
    row ← lift (ok_or found not_found)
    archive ← (λ w. (ok_or (get_bytes d.external row.artifact_key w.store) internal, w))
    body ← lift (
        file_of (
          extract_file archive_root (read_archive archive (artifact_format deserialize row.format))
            path))
    answer (record { headers = served_file_headers (codes path); body = body })
