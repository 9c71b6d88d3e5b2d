-- ===== src/Routes/Publish/Accepted.antt =====
-- What the publish handler of src/routes/publish.rs went through when it answers, and what it leaves.
use registry_api_contract.Prelude.{
  String, ◌<>◌, ◌≡◌, refl, Bool, true, false, eq_iff, arith, some, In, find-some, length,
}
use registry_api_contract.Error.{ApiResult, ok}
use registry_api_contract.Db.{Org, Token}
use registry_api_contract.Storage.{Bytes, ArtifactStore, put, artifact_key}
use registry_api_contract.Rbac.{parse}
use registry_api_contract.Rbac.Authority.{MayPublish, authorize_publish_iff}
use registry_api_contract.Audit.Record.{AuditAction, Event, record_event}
use registry_api_contract.State.{World, AppState, Dependencies, Outside, ◌>>=◌}
use registry_api_contract.State.Effects.{
  through, through_kept, through_meanwhile, through_query, through_require, through_lift,
}
use registry_api_contract.Auth.Liveness.{require_token-Keeps}
use registry_api_contract.Auth.{auth_disabled, require_token}
use registry_api_contract.Routes.Lookups.{found_row}
use registry_api_contract.Routes.{has_slug}
use registry_api_contract.Routes.Payload.{
  Manifest, PublishMeta, PublishRequest, PublishResponse, read_multipart,
}
use registry_api_contract.Routes.Publish.{
  publish, check_payload, check_tag, matches_url, find_publish_org, store_and_record, acknowledge,
}
use registry_api_contract.Routes.Publish.Atomic.{
  find_publish_org-Keeps, check_payload-Keeps, require_unpublished-Keeps,
}
use registry_api_contract.Routes.Publish.Transaction.{Recorded, record_version_ok, through_artifact}

abbrev pub publish_event : Dependencies → Org → Token → PublishRequest → String → Event
publish_event d org token r sha = record {
  org_id = org.id;
  token = token;
  action = AuditAction.publish;
  subject = r.org <> "/" <> r.name <> "@" <> r.version;
  detail = some ("sha256=" <> sha);
}

module _ (d : Dependencies) (o : Outside) where
  -- The upload and the commit.
  pub record Stored (org : Org) (r : PublishRequest) (meta : PublishMeta) (artifact : Bytes)
      (v w : World) : Type 0 where
    pub store : ArtifactStore
    pub uploaded :
        put d.external (artifact_key (d.sha256_bytes artifact) meta.extension) artifact v.store
        ≡ some store
    pub recorded :
        Recorded o org r meta
          (d.sha256_bytes artifact)
          (length artifact)
          (record { database = o.race v.database; store = store })
          w

module _ (d : Dependencies) (valid_manifest : Manifest → Bool) (s : AppState) (o : Outside) where
  -- What stands behind an answer.
  pub record Accepted (r : PublishRequest) (v : World) (x : ApiResult PublishResponse × World)
      : Type 0 where
    pub token : Token
    pub org : Org
    pub meta : PublishMeta
    pub artifact : Bytes
    pub committed : World
    pub authenticated : (require_token d s o r.authorization v).0 ≡ ok token
    pub claimed : In org v.database.orgs × (org.slug ≡ r.org)
    pub authorized : MayPublish org.id token.org_id (parse token.role)
    pub body : read_multipart r.body ≡ ok (meta, artifact)
    pub valid : valid_manifest meta.manifest ≡ true
    pub matching : matches_url r meta.manifest ≡ true
    pub intact : d.sha256_bytes artifact ≡ meta.sha256
    pub tagged : check_tag d valid_manifest s meta ≡ ok tt
    pub stored : Stored d o org r meta artifact v committed
    pub response :
        x.0
        ≡ ok (record {
          org = r.org;
          name = r.name;
          version = r.version;
          sha256 = d.sha256_bytes artifact;
        })
    pub logged : x.1 ≡ record committed {
      database = record committed.database {
        audit_log =
            record_event d.hasher d.action_text o.attempts
              (publish_event d org token r (d.sha256_bytes artifact))
              committed.database.audit_log;
      };
    }

  store_and_record_ok :
      (org : Org) (r : PublishRequest) (meta : PublishMeta) (a : Bytes) (v : World) {u : Unit {0}}
      → (store_and_record d o org r meta a v).0 ≡ ok u
      → Stored d o org r meta a v (store_and_record d o org r meta a v).1
  unfolding store_and_record
  store_and_record_ok org r meta a v h =
      through_kept (λ x. Stored d o org r meta a v x.1) _
        (require_unpublished-Keeps d valid_manifest s o org r) h
        λ u e h1.
          through_artifact (λ x. Stored d o org r meta a v x.1) _ _ h1
            λ store uploaded h2.
              through_meanwhile (λ x. Stored d o org r meta a v x.1) _ _ h2
                λ h3. record {
                  store = store;
                  uploaded = uploaded;
                  recorded = record_version_ok o org r meta (d.sha256_bytes a) (length a) _ h3;
                }

  -- What the checks of the payload establish.
  check_payload_ok :
      (r : PublishRequest) (meta : PublishMeta) (a : Bytes) (v : World) {u : Unit {0}}
      → (check_payload d valid_manifest s r meta a v).0 ≡ ok u
      → (valid_manifest meta.manifest ≡ true)
        × (matches_url r meta.manifest ≡ true)
        × (d.sha256_bytes a ≡ meta.sha256)
        × (check_tag d valid_manifest s meta ≡ ok tt)
  unfolding check_payload
  check_payload_ok r meta a v h =
      through_require
        (λ x.
          (valid_manifest meta.manifest ≡ true)
          × (matches_url r meta.manifest ≡ true)
          × (d.sha256_bytes a ≡ meta.sha256)
          × (check_tag d valid_manifest s meta ≡ ok tt))
        _ _ _ h
        λ valid h1.
          through_require
            (λ x.
              (valid_manifest meta.manifest ≡ true)
              × (matches_url r meta.manifest ≡ true)
              × (d.sha256_bytes a ≡ meta.sha256)
              × (check_tag d valid_manifest s meta ≡ ok tt))
            _ _ _ h1
            λ matching h2.
              through_require
                (λ x.
                  (valid_manifest meta.manifest ≡ true)
                  × (matches_url r meta.manifest ≡ true)
                  × (d.sha256_bytes a ≡ meta.sha256)
                  × (check_tag d valid_manifest s meta ≡ ok tt))
                _ _ _ h2
                λ intact h3.
                  (valid, matching, ground (arith, eq_iff (d.sha256_bytes a) meta.sha256), h3)

  find_publish_org_ok :
      (slug : String) (v : World) (org : Org)
      → (find_publish_org o slug v).0 ≡ ok org
      → In org v.database.orgs × (org.slug ≡ slug)
  unfolding find_publish_org
  find_publish_org_ok slug v org h =
      through_query (λ x. In org v.database.orgs × (org.slug ≡ slug)) _ _ _ h
        λ h1.
          let (member, hit) = find-some (has_slug slug) v.database.orgs org (found_row _ _ h1) in
          (member, ground (arith, eq_iff org.slug slug))

  acknowledge_response :
      (org : Org) (token : Token) (r : PublishRequest) (sha : String) (v : World)
      → (acknowledge d o org token r sha v).0
        ≡ ok (record { org = r.org; name = r.name; version = r.version; sha256 = sha })
  unfolding acknowledge ◌>>=◌
  acknowledge_response org token r sha v = refl

  acknowledge_world :
      (org : Org) (token : Token) (r : PublishRequest) (sha : String) (v : World)
      → (acknowledge d o org token r sha v).1 ≡ record v {
        database = record v.database {
          audit_log =
              record_event d.hasher d.action_text o.attempts
                (publish_event d org token r sha)
                v.database.audit_log;
        };
      }
  unfolding acknowledge ◌>>=◌
  acknowledge_world org token r sha v = refl

  -- With bearer tokens required, an answered publish was asked for by a live token with the right to
  -- publish for the claimed organisation, its manifest is valid and matches the URL, its bytes hash to
  -- the declared digest, its tag was not found missing; the artifact went into the store under the key
  -- of its digest; and the database is what the other requests left, plus the package's metadata and
  -- one new version row, plus what the audit log's appender recorded of it. The answer names that version and digest.
  pub publish_ok :
      (r : PublishRequest) (v : World) (resp : PublishResponse)
      → auth_disabled s ≡ false
      → (publish d valid_manifest s o r v).0 ≡ ok resp
      → Accepted r v (publish d valid_manifest s o r v)
  unfolding publish
  publish_ok r v resp e h =
      through_kept (Accepted r v) _ (require_token-Keeps d s o r.authorization e) h
        λ token authenticated h1.
          through_kept (Accepted r v) _ (find_publish_org-Keeps d valid_manifest s o r.org) h1
            λ org found h2. through_lift (Accepted r v) _ _ h2 λ u authorized h3.
              through_lift (Accepted r v) _ _ h3 λ (meta, artifact) body h4.
                through_kept (Accepted r v) _
                  (check_payload-Keeps d valid_manifest s o r meta artifact) h4
                  λ checked checks h5. through (Accepted r v) _ _ h5 λ recorded stored h6.
                    let (valid, matching, intact, tagged) =
                      check_payload_ok r meta artifact v checks in
                    record {
                      token = token;
                      org = org;
                      meta = meta;
                      artifact = artifact;
                      committed = (store_and_record d o org r meta artifact v).1;
                      authenticated = authenticated;
                      claimed = find_publish_org_ok r.org v org found;
                      authorized =
                          (authorize_publish_iff token.org_id (parse token.role) org.id).0
                            authorized;
                      body = body;
                      valid = valid;
                      matching = matching;
                      intact = intact;
                      tagged = tagged;
                      stored = store_and_record_ok org r meta artifact v stored;
                      response = acknowledge_response org token r (d.sha256_bytes artifact) _;
                      logged = acknowledge_world org token r (d.sha256_bytes artifact) _;
                    }
