-- ===== src/Routes/Artifacts/RoundTrip.antt =====
-- From src/routes/publish.rs to src/routes/artifacts.rs: what is published can be downloaded.
use registry_api_contract.Prelude.{
  ℕ, String, ◌≡◌, refl, sym, ap, subst, ◌∙◌, ◌<◌, Bool, true, false, eq_iff, arith, Option, some,
  List, [], ◌∷◌, ◌++◌, any, find, length, In,
}
use registry_api_contract.Error.{ok}
use registry_api_contract.Db.{Version}
use registry_api_contract.HashMap.{get}
use registry_api_contract.Storage.{Bytes, Objects, memory, put, download, artifact_key, u64_limit}
use registry_api_contract.Storage.Capacity.{put_memory_stored}
use registry_api_contract.State.{
  World, AppState, Dependencies, Outside, ◌>>=◌, query, find_artifact,
}
use registry_api_contract.Auth.{auth_disabled}
use registry_api_contract.Routes.{ArtifactFormat, artifact_format}
use registry_api_contract.Routes.Payload.{
  Manifest, PublishMeta, PublishRequest, PublishResponse, read_multipart, artifact_field,
}
use registry_api_contract.Routes.Payload.Received.{read_multipart-Received}
use registry_api_contract.Routes.Publish.{publish, version_row}
use registry_api_contract.Routes.Publish.Accepted.{publish_ok}
use registry_api_contract.Routes.Publish.Immutable.{
  Accepted-versions, put_in_memory, resp_sha, same_key,
}
use registry_api_contract.Routes.Artifacts.{content, immutable, has_sha, get_artifact}

find-added :
    (p : Version → Bool) (rows : List Version) (v : Version)
    → any p rows ≡ false
    → p v ≡ true
    → find p (rows ++ v ∷ []) ≡ some v
find-added p [] v n t = rw t refl
find-added p (r ∷ rows) v n t = ground (arith, find-added p rows v, n, t)

module _ (d : Dependencies) (deserialize : String → Option ArtifactFormat)
    (content_type : ArtifactFormat → String) where
  -- A download from memory of the only row with a digest.
  download_row :
      (o : Outside) (w : World) (sha : String) (row : Version) (objects : Objects) (max_bytes : ℕ)
      (v : Bytes)
      → o.fails find_artifact ≡ false
      → find (has_sha sha) w.database.versions ≡ some row
      → w.store ≡ memory objects max_bytes
      → get row.artifact_key objects ≡ some v
      → get_artifact d deserialize o content_type sha w ≡ (
        ok (content (content_type (artifact_format deserialize row.format)) immutable (length v) v),
        w,
      )
  unfolding get_artifact ◌>>=◌ query
  download_row o w sha row objects max_bytes v f found m g = rw (f, found, m, download, g) refl

  -- With bearer tokens required and a store in memory of less than 2^64 bytes: after a publish that answers,
  -- and whose digest was on no version row that the other requests left, a download of the answer's digest,
  -- when its look-up of the version does not fail, gives exactly the bytes of the artifact that
  -- `read_multipart` read from the request, which stand in a field of its body and have that digest.
  pub publish_download :
      (valid_manifest : Manifest → Bool) (s : AppState) (o o' : Outside) (r : PublishRequest)
      (w : World) (resp : PublishResponse) (objects : Objects) (max_bytes : ℕ)
      → auth_disabled s ≡ false
      → w.store ≡ memory objects max_bytes
      → max_bytes < u64_limit
      → (publish d valid_manifest s o r w).0 ≡ ok resp
      → any (has_sha resp.sha256) (o.race w.database).versions ≡ false
      → o'.fails find_artifact ≡ false
      → (meta : PublishMeta) × (v : Bytes) × (kind : String) × (read_multipart r.body
          ≡ ok (meta, v))
        × In (artifact_field (some v)) r.body
        × (d.sha256_bytes v ≡ resp.sha256)
        × ((get_artifact d deserialize o' content_type resp.sha256
              (publish d valid_manifest s o r w).1).0
            ≡ ok (content kind immutable (length v) v))
  unfolding version_row
  publish_download valid_manifest s o o' r w resp objects max_bytes e m b h new f =
      let a = publish_ok d valid_manifest s o r w resp e h in
      let sha = d.sha256_bytes a.artifact in
      let key = artifact_key sha a.meta.extension in
      let up =
        subst (λ x. put d.external key a.artifact x ≡ some a.stored.store) m a.stored.uploaded in
      let (objects', stored, same) =
        put_in_memory d valid_manifest s o key a.artifact objects max_bytes a.stored.store up in
      let (_, _, reads) = put_memory_stored key a.artifact objects objects' max_bytes b stored in
      let after = ap (λ x. x.store) a.logged ∙ ap (λ x. x.store) a.stored.recorded.leaves ∙ same in
      let digest : sha ≡ resp.sha256 = ap resp_sha (sym a.response ∙ h) in
      let row = version_row o a.stored.recorded.pkg r.version sha (length a.artifact) a.meta in
      let found =
        ap (find (has_sha resp.sha256)) (Accepted-versions d valid_manifest s o r w a)
        ∙ find-added (has_sha resp.sha256) (o.race w.database).versions row new
            ((eq_iff sha resp.sha256).1 digest) in
      (
        a.meta,
        a.artifact,
        _,
        a.body,
        (read_multipart-Received r.body a.meta a.artifact a.body).1,
        digest,
        ap (λ x. x.0)
            (download_row o' _ resp.sha256 row objects' max_bytes a.artifact f found after
              (reads key ∙ same_key key (some a.artifact) (get key objects))),
      )
