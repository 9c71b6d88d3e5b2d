-- ===== src/Routes/Publish/Published.antt =====
-- What an answered publish of src/routes/publish.rs was asked for, and what it leaves, written out.
use registry_api_contract.Prelude.{
  ◌≡◌, refl, sym, ap, subst, ◌∙◌, ◌⊎◌, Bool, true, false, eq_iff, arith, some, In, [], ◌∷◌, ◌++◌,
  length,
}
use registry_api_contract.Error.{ApiResult, ok}
use registry_api_contract.Db.{Org, Token, Package, Version}
use registry_api_contract.Storage.{Bytes, ArtifactStore, put, artifact_key}
use registry_api_contract.Text.{Text, codes}
use registry_api_contract.Verify.{
  RefBody, RefResponse, transport_error, not_found, error_status, bad_body, body, check_response,
  verify, github, parse_github,
}
use registry_api_contract.Rbac.{parse}
use registry_api_contract.Rbac.Authority.{MayPublish}
use registry_api_contract.Audit.Record.{record_event}
use registry_api_contract.State.{Database, World, AppState, Dependencies, Outside}
use registry_api_contract.Auth.{auth_disabled, bearer_token, hash_token}
use registry_api_contract.Auth.Liveness.{IsLive, require_token_ok}
use registry_api_contract.Routes.Payload.{
  Manifest, PublishMeta, PublishRequest, PublishResponse, meta_field, artifact_field,
}
use registry_api_contract.Routes.Payload.Received.{read_multipart-Received}
use registry_api_contract.Routes.Publish.{publish, check_tag, matches_url, version_row, tag_verdict}
use registry_api_contract.Routes.Publish.Metadata.{Carries, Row, version_row-Row, upsert-Carries}
use registry_api_contract.Routes.Publish.Accepted.{Accepted, publish_event, publish_ok}

matches :
    (r : PublishRequest) (m : Manifest)
    → matches_url r m ≡ true
    → (m.org ≡ r.org) × (m.name ≡ r.name) × (m.version ≡ r.version)
matches r m t = (
  ground (arith, eq_iff m.org r.org, t),
  ground (arith, eq_iff m.name r.name, t),
  ground (arith, eq_iff m.version r.version, t),
)

answered : (x : RefResponse) → tag_verdict (check_response x) ≡ ok tt → (b : RefBody) × (x ≡ body b)
unfolding check_response
answered transport_error h = cc
answered not_found h = cc
answered error_status h = cc
answered bad_body h = cc
answered (body b) h = (b, refl)

-- Under the policy, a repository on GitHub that uses git tags answered the request for the tag with a body.
abbrev pub Tagged : Dependencies → AppState → PublishMeta → Type 0
Tagged d s meta =
    s.policy ≡ github
    → d.uses_git_tags meta.manifest.vcs ≡ true
    → (owner repo : Text) → parse_github (codes meta.manifest.repo_url) ≡ some (owner, repo)
    → (b : RefBody) × (d.get_ref owner repo meta.vcs_tag ≡ body b)

module _ (d : Dependencies) (valid_manifest : Manifest → Bool) (s : AppState) where
  check_tag-Tagged :
      (meta : PublishMeta) → check_tag d valid_manifest s meta ≡ ok tt → Tagged d s meta
  unfolding check_tag verify
  check_tag-Tagged meta h p u owner repo g =
      answered (d.get_ref owner repo meta.vcs_tag) (rw (p, u, g) at h)

module _ (d : Dependencies) (valid_manifest : Manifest → Bool) (s : AppState) (o : Outside) where
  -- What stands behind an answer to the request `r` in the world `v`, and what is there after it.
  pub record Published (r : PublishRequest) (v : World) (x : ApiResult PublishResponse × World)
      : Type 0 where
    pub token : Token
    pub org : Org
    pub meta : PublishMeta
    pub artifact : Bytes
    pub store : ArtifactStore
    pub pkg : Package
    pub row : Version
    pub authenticated :
        (p : Text) × (bearer_token r.authorization ≡ some p)
        × In token v.database.tokens
        × (token.token_hash ≡ hash_token d s o p)
        × IsLive o.now token
    pub claimed : In org v.database.orgs × (org.slug ≡ r.org)
    pub authorized : MayPublish org.id token.org_id (parse token.role)
    pub received : In (meta_field (some meta)) r.body × In (artifact_field (some artifact)) r.body
    pub valid : valid_manifest meta.manifest ≡ true
    pub matching :
        (meta.manifest.org ≡ r.org)
        × (meta.manifest.name ≡ r.name)
        × (meta.manifest.version ≡ r.version)
    pub intact : d.sha256_bytes artifact ≡ meta.sha256
    pub tagged : Tagged d s meta
    pub uploaded :
        put d.external (artifact_key (d.sha256_bytes artifact) meta.extension) artifact v.store
        ≡ some store
    pub stored : x.1.store ≡ store
    pub metadata : In pkg x.1.database.packages × Carries org r meta.manifest pkg
    pub other_packages :
        (q : Package)
        → In q (o.race v.database).packages
        → In q x.1.database.packages ⊎ ((q.org_id ≡ org.id) × (q.name ≡ r.name))
    pub released : Row d o pkg r meta artifact row
    pub keyed : row.artifact_key ≡ artifact_key (d.sha256_bytes artifact) meta.extension
    pub versions : x.1.database.versions ≡ (o.race v.database).versions ++ row ∷ []
    pub orgs : x.1.database.orgs ≡ (o.race v.database).orgs
    pub tokens : x.1.database.tokens ≡ (o.race v.database).tokens
    pub embeddings : x.1.database.embeddings ≡ (o.race v.database).embeddings
    pub logged :
        x.1.database.audit_log
        ≡ record_event d.hasher d.action_text o.attempts
            (publish_event d org token r (d.sha256_bytes artifact))
            (o.race v.database).audit_log
    pub response :
        x.0
        ≡ ok (record {
          org = r.org;
          name = r.name;
          version = r.version;
          sha256 = d.sha256_bytes artifact;
        })

  Accepted-Published :
      (r : PublishRequest) (v : World) (x : ApiResult PublishResponse × World)
      → auth_disabled s ≡ false
      → Accepted d valid_manifest s o r v x
      → Published r v x
  unfolding version_row
  Accepted-Published r v x e a =
      let rec = a.stored.recorded in
      let sha = d.sha256_bytes a.artifact in
      let db : x.1.database ≡ record (o.race v.database) {
        packages = rec.packages;
        versions =
            (o.race v.database).versions
            ++ version_row o rec.pkg r.version sha (length a.artifact) a.meta ∷ [];
        audit_log =
            record_event d.hasher d.action_text o.attempts (publish_event d a.org a.token r sha)
              (o.race v.database).audit_log;
      } =
        ap (λ y. y.database) a.logged ∙ rw (rec.leaves) refl in
      let (member, carries, others) =
        upsert-Carries d o a.org r a.meta (o.race v.database).packages rec.packages rec.pkg
          rec.upserted rec.found in
      record {
        token = a.token;
        org = a.org;
        meta = a.meta;
        artifact = a.artifact;
        store = a.stored.store;
        pkg = rec.pkg;
        row = version_row o rec.pkg r.version sha (length a.artifact) a.meta;
        authenticated = require_token_ok d s o r.authorization v a.token e a.authenticated;
        claimed = a.claimed;
        authorized = a.authorized;
        received = read_multipart-Received r.body a.meta a.artifact a.body;
        valid = a.valid;
        matching = matches r a.meta.manifest a.matching;
        intact = a.intact;
        tagged = check_tag-Tagged d valid_manifest s a.meta a.tagged;
        uploaded = a.stored.uploaded;
        stored = ap (λ y. y.store) a.logged ∙ ap (λ y. y.store) rec.leaves;
        metadata = (subst (λ y. In rec.pkg y.packages) (sym db) member, carries);
        other_packages =
            subst
              (λ (y : Database).
                (q : Package)
                → In q (o.race v.database).packages
                → In q y.packages ⊎ ((q.org_id ≡ a.org.id) × (q.name ≡ r.name)))
              (sym db) others;
        released = version_row-Row d o rec.pkg r a.meta a.artifact;
        keyed = refl;
        versions = ap (λ y. y.versions) db;
        orgs = ap (λ y. y.orgs) db;
        tokens = ap (λ y. y.tokens) db;
        embeddings = ap (λ y. y.embeddings) db;
        logged = ap (λ y. y.audit_log) db;
        response = a.response;
      }

  -- With bearer tokens required, an answered publish was asked for with a bearer text that hashes to a
  -- stored live token with the right to publish for the claimed organisation; its meta document and its artifact are fields of the body; the
  -- manifest is valid and has the URL's organisation, name and version; the artifact hashes to the declared
  -- digest; and if the policy asks GitHub about its tag, GitHub answered with the tag's reference. The
  -- artifact went into the store under the key of its digest. The package of that organisation and name has
  -- the manifest's description, repository, version scheme and keywords, and every other package that the
  -- other requests left is still there; the versions are those that they left and one new row, of that
  -- package, that version, the artifact's digest and size, not yanked; organisations, tokens and embeddings
  -- are as they left them, and the audit log is what its appender makes of it. The answer names the
  -- version and the digest.
  pub publish-Published :
      (r : PublishRequest) (v : World) (resp : PublishResponse)
      → auth_disabled s ≡ false
      → (publish d valid_manifest s o r v).0 ≡ ok resp
      → Published r v (publish d valid_manifest s o r v)
  publish-Published r v resp e h =
      Accepted-Published r v _ e (publish_ok d valid_manifest s o r v resp e h)
