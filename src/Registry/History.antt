-- ===== src/Registry/History.antt =====
-- Over any sequence of the writes of src/routes/mod.rs: the history of the registry is never rewritten.
use registry_api_contract.Prelude.{refl, Bool, Option, none, some, In-append_left}
use registry_api_contract.Db.{Org}
use registry_api_contract.Storage.{Bytes, ArtifactStore}
use registry_api_contract.Embeddings.{Floats}
use registry_api_contract.State.{World, AppState, Dependencies, Outside}
use registry_api_contract.State.Effects.{Keeps}
use registry_api_contract.Routes.Payload.{Manifest, PublishMeta, PublishRequest}
use registry_api_contract.Routes.Publish.{store_and_record, record_version, stored_artifact}
use registry_api_contract.Routes.Publish.Atomic.{require_unpublished-Keeps}
use registry_api_contract.Registry.Growth.{
  Grows, Grows-refl, Grows-trans, Growing, Growing-trans, grown_orgs, grown_tokens, grown_packages,
  grown_versions, grown_audit_log, other_table, set_yanked_grows,
}
use registry_api_contract.Registry.Parts.{
  IsFair, Frame, record_event_grows, in_turn, unchanged, transaction_kept, meanwhile_kept,
}
use registry_api_contract.Registry.Handlers.{
  record_body_kept, publish_kept, yank_kept, claim_org_kept, upsert_embedding_kept,
}
use registry_api_contract.Registry.{
  Write, put_version, post_yank, post_org, put_embedding, router, Reach, start, later,
}

-- Growth is kept by every statement among fair requests.
growth : (d : Dependencies) (o : Outside) → IsFair o → Frame d o Growing
growth d o fair = record {
  same = λ w. Grows-refl w.database;
  trans = Growing-trans;
  rolled_back = λ v w g. Grows-refl v.database;
  raced = λ w. fair.race w.database;
  orgs = λ w rows more. grown_orgs w.database rows more;
  tokens = λ w rows more. grown_tokens w.database rows more;
  packages = λ w rows more. grown_packages w.database rows more;
  yanked =
      λ w id yanked. grown_versions w.database _ (set_yanked_grows id yanked w.database.versions);
  audited =
      λ w e. grown_audit_log w.database _ (record_event_grows d o e w.database.audit_log fair);
  embeddings = λ w rows. other_table w.database rows;
}

artifact_grows : (x : Option ArtifactStore) (w : World) → Growing w (stored_artifact x w).1
artifact_grows none w = Grows-refl w.database
artifact_grows (some store) w = Grows-refl w.database

module _ (d : Dependencies) (s : AppState) (o : Outside) (fair : IsFair o) where
  store_and_record_grows :
      (r : PublishRequest) (org : Org) (meta : PublishMeta) (artifact : Bytes)
      → Keeps Growing (store_and_record d o org r meta artifact)
  unfolding store_and_record record_version
  store_and_record_grows r org meta artifact =
      let frame = growth d o fair in
      in_turn frame (unchanged frame (require_unpublished-Keeps d (λ m. Bool.true) s o org r))
        λ unpublished.
          in_turn frame (record { kept = λ w. artifact_grows _ w })
            λ uploaded. in_turn frame (meanwhile_kept frame) λ others. transaction_kept frame (
              record_body_kept d s frame org r meta _ _
                λ pkg w. grown_versions w.database _ λ x i. (x, In-append_left x _ _ i, refl))

module _ {F : Type 0} (fl : Floats F) (d : Dependencies) (valid_manifest : Manifest → Bool)
    (s : AppState) where
  -- A request among fair ones loses and rewrites nothing.
  router-Grows :
      (o : Outside) (q : Write F) (w : World)
      → IsFair o
      → Grows w.database (router fl d valid_manifest s o q w).database
  unfolding router
  router-Grows o (put_version r) w fair =
      (publish_kept d s (growth d o fair) valid_manifest r
          (store_and_record_grows d s o fair r)).kept
        w
  router-Grows o (post_yank r) w fair = (yank_kept d s (growth d o fair) r).kept w
  router-Grows o (post_org r) w fair = (claim_org_kept d s (growth d o fair) r).kept w
  router-Grows o (put_embedding r) w fair =
      (upsert_embedding_kept d s (growth d o fair) fl r).kept w

  -- Whatever requests to publish, to yank or restore, to claim and to embed come, whatever of them fails and
  -- in both modes of authentication, as long as what others commit meanwhile loses and rewrites nothing:
  -- each organisation, each token and each audit entry that was there is there unchanged; each package
  -- is there under its identifier, organisation and name; and each version is there with every column as
  -- it was, its digest and artifact key included, but for the yank state.
  pub Reach-Grows :
      {v w : World}
      → Reach fl d valid_manifest s (λ o u. IsFair o) v w
      → Grows v.database w.database
  Reach-Grows start = Grows-refl _
  Reach-Grows (later {w = w} o q before fair) =
      Grows-trans _ w.database _ (Reach-Grows before) (router-Grows o q w fair)
