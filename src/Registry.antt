-- ===== src/Registry.antt =====
-- The routes of src/routes/mod.rs that write, as steps of one registry.
pub mod Growth
pub mod Parts
pub mod Credentials
pub mod Handlers
pub mod History
pub mod Backing
pub mod Integrity
pub mod Logs
use registry_api_contract.Prelude.{Bool}
use registry_api_contract.Db.{AuditLog}
use registry_api_contract.Embeddings.{Floats}
use registry_api_contract.State.{Database, World, AppState, Dependencies, Outside}
use registry_api_contract.Routes.Payload.{Manifest, PublishRequest}
use registry_api_contract.Routes.Publish.{publish}
use registry_api_contract.Routes.Yank.{YankRequest, yank}
use registry_api_contract.Routes.Orgs.{ClaimOrgRequest, claim_org}
use registry_api_contract.Routes.Semantic.{EmbeddingUpsertRequest, upsert_embedding}

-- A request to one of these routes.
pub data Write (F : Type 0) : Type 0 where
  put_version : PublishRequest → Write F
  post_yank : YankRequest → Write F
  post_org : ClaimOrgRequest → Write F
  put_embedding : EmbeddingUpsertRequest F → Write F

module _ {F : Type 0} (fl : Floats F) (d : Dependencies) (valid_manifest : Manifest → Bool)
    (s : AppState) where
  -- `router`: the world that the handler of the route leaves.
  unfoldable pub router : Outside → Write F → World → World
  unfolding publish yank claim_org upsert_embedding
  router o (put_version r) w = (publish d valid_manifest s o r w).1
  router o (post_yank r) w = (yank d s o r w).1
  router o (post_org r) w = (claim_org d s o r w).1
  router o (put_embedding r) w = (upsert_embedding fl d s o r w).1

  -- The worlds that requests lead to from `v`, each with its own surroundings, which satisfy `P` where
  -- it comes.
  pub data Reach (P : Outside → World → Type 0) (v : World) : World → Type 0 where
    start : Reach P v v
    later : {w : World} (o : Outside) (q : Write F) → Reach P v w → P o w → Reach P v (router o q w)
