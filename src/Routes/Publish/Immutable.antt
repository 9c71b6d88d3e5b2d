-- ===== src/Routes/Publish/Immutable.antt =====
-- Immutable releases: what a publish of src/routes/publish.rs does to the rows and artifacts that are
-- already there.
use registry_api_contract.Prelude.{
  ℕ, String, ◌≡◌, ◌≢◌, refl, sym, ap, subst, ◌∙◌, inl, inr, ◌<◌, Bool, true, false, ◌==◌, eq_iff,
  arith, some, Option-cases, List, [], ◌∷◌, ◌++◌, any_of-In, In, In-append_left, In-append_right,
  length, if◌then◌else◌, false≢true,
}
use registry_api_contract.Error.{ApiResult, ok, err, ApiResult-cases}
use registry_api_contract.Db.{Org, Package, Version, version_clashes}
use registry_api_contract.HashMap.{get}
use registry_api_contract.Storage.{
  Bytes, ArtifactStore, memory, put, put_memory, artifact_key, u64_limit, Objects,
}
use registry_api_contract.Storage.Capacity.{put_memory_stored}
use registry_api_contract.State.{World, AppState, Dependencies, Outside}
use registry_api_contract.Auth.{auth_disabled}
use registry_api_contract.Routes.{is_package, is_version}
use registry_api_contract.Routes.Payload.{Manifest, PublishMeta, PublishRequest, PublishResponse}
use registry_api_contract.Routes.Publish.{publish, package_row, version_row}
use registry_api_contract.Routes.Publish.Atomic.{publish_error_leaves_nothing}
use registry_api_contract.Routes.Publish.Upsert.{upsert_keeps_id}
use registry_api_contract.Routes.Publish.Transaction.{Recorded}
use registry_api_contract.Routes.Publish.Accepted.{Accepted, publish_ok}

-- Every row of the first table is in the second.
abbrev pub Within : List Version → List Version → Type 0
Within rows rows' = (v : Version) → In v rows → In v rows'

abbrev pub resp_sha : ApiResult PublishResponse → String
resp_sha (ok x) = x.sha256
resp_sha (err e) = ""

pub same_key : {A : Type 0} (k : String) (x y : A) → (if k == k then x else y) ≡ x
same_key k x y = ground (arith, eq_iff k k)

other_key : {A : Type 0} (k j : String) (x y : A) → k ≢ j → (if k == j then x else y) ≡ y
other_key k j x y n = ground (arith, eq_iff k j)

-- A recorded publish meets no version of its number in the package that it adds to.
clash :
    (o : Outside) (org : Org) (r : PublishRequest) (meta : PublishMeta) (sha : String) (n : ℕ)
    (v w : World) (p : Package) (row : Version)
    → Recorded o org r meta sha n v w
    → ((q : Package) → In q v.database.packages → is_package org.id r.name q ≡ true → q ≡ p)
    → In p v.database.packages
    → is_package org.id r.name p ≡ true
    → In row v.database.versions
    → is_version p.id r.version row ≡ true
    → ⊥
unfolding package_row version_row
clash o org r meta sha n v w p row rec one here is_p published is_v =
    let id =
      upsert_keeps_id (package_row o org r.name meta) p rec.pkg v.database.packages rec.packages
        rec.upserted rec.found one here is_p in
    let hit : version_clashes (version_row o rec.pkg r.version sha n meta) row ≡ true =
      ground (arith, eq_iff row.version r.version, eq_iff r.version row.version, id, is_v) in
    let there =
      any_of-In (version_clashes (version_row o rec.pkg r.version sha n meta)) v.database.versions
        row published hit in
    false≢true (sym rec.new ∙ there)

module _ (d : Dependencies) (valid_manifest : Manifest → Bool) (s : AppState) (o : Outside) where
  -- The version table of an answered publish: what the other requests left, and a row of the request.
  pub Accepted-versions :
      (r : PublishRequest) (w : World)
      (a : Accepted d valid_manifest s o r w (publish d valid_manifest s o r w))
      → (publish d valid_manifest s o r w).1.database.versions
        ≡ (o.race w.database).versions
          ++ version_row o a.stored.recorded.pkg r.version
              (d.sha256_bytes a.artifact)
              (length a.artifact)
              a.meta
            ∷ []
  Accepted-versions r w a =
      ap (λ x. x.database.versions) a.logged
      ∙ ap (λ x. x.database.versions) a.stored.recorded.leaves

  -- As long as the other requests keep the published rows, no publish removes or changes a published
  -- row, whether it answers or fails.
  pub publish_keeps_versions :
      (r : PublishRequest) (w : World)
      → auth_disabled s ≡ false
      → Within w.database.versions (o.race w.database).versions
      → Within w.database.versions (publish d valid_manifest s o r w).1.database.versions
  publish_keeps_versions r w e kept v i =
      elim (ApiResult-cases (publish d valid_manifest s o r w).0) [
        | inl (resp, h) ↦
            let a = publish_ok d valid_manifest s o r w resp e h in
            subst (In v) (sym (Accepted-versions r w a))
              (In-append_left v (o.race w.database).versions _ (kept v i))
        | inr (x, h) ↦ elim (publish_error_leaves_nothing d valid_manifest s o r w x e h) [
          | inl same ↦ subst (λ db. In v db.versions) (sym same) i
          | inr raced ↦ subst (λ db. In v db.versions) (sym raced) (kept v i)
        ]
      ]

  pub put_in_memory :
      (k : String) (v : Bytes) (objects : Objects) (max_bytes : ℕ) (store : ArtifactStore)
      → put d.external k v (memory objects max_bytes) ≡ some store
      → (objects' : Objects) × (put_memory k v objects max_bytes ≡ some objects')
        × (store ≡ memory objects' max_bytes)
  unfolding put
  put_in_memory k v objects max_bytes store h =
      elim (Option-cases (put_memory k v objects max_bytes)) [
        | inl e ↦ let q = rw e at h in cc
        | inr (m, e) ↦ let q = rw e at h in (m, e, cc)
      ]

  -- In the world `x`, the requested version is on record and its artifact in the store, whose other objects
  -- are those of `objects`.
  abbrev pub Released : PublishRequest → PublishResponse → Objects → ℕ → World → Type 0
  Released r resp objects max_bytes x =
      (row : Version) × (objects' : Objects) × (v : Bytes) × In row x.database.versions
      × (x.store ≡ memory objects' max_bytes)
      × (row.version ≡ r.version)
      × (row.yanked ≡ false)
      × (get row.artifact_key objects' ≡ some v)
      × (row.sha256 ≡ d.sha256_bytes v)
      × (row.size ≡ length v)
      × (row.sha256 ≡ resp.sha256)
      × ((j : String) → row.artifact_key ≢ j → get j objects' ≡ get j objects)

  -- With bearer tokens required and a store in memory, a publish that answers leaves a version row, not
  -- yanked, of the requested version, whose artifact key reads back bytes of the row's size and digest,
  -- the digest of the answer; every object under another key reads as before.
  pub publish_stores_release :
      (r : PublishRequest) (w : World) (resp : PublishResponse) (objects : Objects) (max_bytes : ℕ)
      → auth_disabled s ≡ false
      → w.store ≡ memory objects max_bytes
      → max_bytes < u64_limit
      → (publish d valid_manifest s o r w).0 ≡ ok resp
      → Released r resp objects max_bytes (publish d valid_manifest s o r w).1
  unfolding version_row
  publish_stores_release r w resp objects max_bytes e m b h =
      let a = publish_ok d valid_manifest s o r w resp e h in
      let sha = d.sha256_bytes a.artifact in
      let key = artifact_key sha a.meta.extension in
      let up =
        subst (λ x. put d.external key a.artifact x ≡ some a.stored.store) m a.stored.uploaded in
      let (objects', stored, same) =
        put_in_memory key a.artifact objects max_bytes a.stored.store up in
      let (_, _, reads) = put_memory_stored key a.artifact objects objects' max_bytes b stored in
      let after = ap (λ x. x.store) a.logged ∙ ap (λ x. x.store) a.stored.recorded.leaves ∙ same in
      let answered = sym a.response ∙ h in
      (
        version_row o a.stored.recorded.pkg r.version sha (length a.artifact) a.meta,
        objects',
        a.artifact,
        subst (In _) (sym (Accepted-versions r w a))
            (In-append_right _ (o.race w.database).versions _ (inl refl)),
        after,
        refl,
        refl,
        reads key ∙ same_key key (some a.artifact) (get key objects),
        refl,
        refl,
        ap resp_sha answered,
        λ j n. reads j ∙ other_key key j (some a.artifact) (get j objects) n,
      )

  -- With bearer tokens required, one organisation for the slug that is asked for, and, in what the other
  -- requests left, one package of that organisation for the name: a version that the other requests left
  -- published is never published again, that is, a publish of the same version of the same package does
  -- not answer.
  pub publish_never_again :
      (r : PublishRequest) (w : World) (resp : PublishResponse) (org : Org) (p : Package)
      (v : Version)
      → auth_disabled s ≡ false
      → ((q : Org) → In q w.database.orgs → q.slug ≡ r.org → q ≡ org)
      → ((q : Package)
          → In q (o.race w.database).packages
          → is_package org.id r.name q ≡ true
          → q ≡ p)
      → In p (o.race w.database).packages
      → is_package org.id r.name p ≡ true
      → In v (o.race w.database).versions
      → is_version p.id r.version v ≡ true
      → (publish d valid_manifest s o r w).0 ≢ ok resp
  publish_never_again r w resp org p v e one_org one_package here is_p published is_v h =
      let a = publish_ok d valid_manifest s o r w resp e h in
      let same_org = one_org a.org a.claimed.0 a.claimed.1 in
      clash o a.org r a.meta (d.sha256_bytes a.artifact) (length a.artifact) _ a.committed p v
        a.stored.recorded (rw same_org one_package) here (rw same_org is_p) published is_v
