-- ===== src/Routes/Semantic.antt =====
-- src/routes/semantic.rs: the endpoints that write and rank the vectors of packages.
pub mod Ranking
pub mod Writes
pub mod Hits
use registry_api_contract.Prelude.{
  ℕ, zero, suc, ◌*◌, ◌-◌, min, max, String, Bool, true, false, Option, none, some, List, [], ◌∷◌,
  nat_eq, leb, find, map, length, if◌then◌else◌,
}
use registry_api_contract.Error.{ApiErr, ApiResult, ok, err, bad_request}
use registry_api_contract.Db.{Uuid, Org, Token, Package, Embedding}
use registry_api_contract.Text.{Text, codes}
use registry_api_contract.Rbac.{parse, authorize_publish}
use registry_api_contract.Search.{parse_tag_filter, has_all_tags}
use registry_api_contract.Search.Tags.{join_tags}
use registry_api_contract.State.{
  Database, World, AppState, Dependencies, Outside, Handler, answer, ◌>>=◌, lift, require, query,
  find_neighbor,
}
use registry_api_contract.Auth.{Authorization, require_token}
use registry_api_contract.Routes.{org_of, package_of, tags_of}
use registry_api_contract.Routes.Listing.{with_org}
use registry_api_contract.Embeddings.{Floats, Neighbor, upsert, search_embeddings}

pub record EmbeddingUpsertRequest (F : Type 0) : Type 0 where
  pub org : String
  pub name : String
  pub authorization : Authorization
  pub model : Text
  pub embedding : List F
  pub content : Text

pub record EmbeddingUpsertResponse : Type 0 where
  pub org : String
  pub name : String
  pub model : Text

pub record SemanticSearchRequest (F : Type 0) : Type 0 where
  pub model : Text
  pub embedding : List F
  pub limit : ℕ
  pub tags : List Text

pub record SemanticHit (D : Type 0) : Type 0 where
  pub org : String
  pub name : String
  pub description : Option String
  pub distance : D
  pub tags : List String

abbrev pub vector_unsupported : ApiErr
vector_unsupported = bad_request "vector_unsupported"

unfoldable pub require_pg : AppState → Handler (Unit {0})
unfolding require
require_pg s = require s.is_postgres vector_unsupported

module _ {F : Type 0} (fl : Floats F) (d : Dependencies) (s : AppState) (o : Outside) where
  unfoldable pub upsert_embedding : EmbeddingUpsertRequest F → Handler EmbeddingUpsertResponse
  unfolding require_pg require_token org_of package_of authorize_publish parse upsert ◌>>=◌ query
  upsert_embedding r = do
    pg ← require_pg s
    token ← require_token d s o r.authorization
    org ← org_of o r.org
    allowed ← lift (authorize_publish token.org_id (parse token.role) org.id)
    pkg ← package_of o org r.name
    written ← upsert fl d o pkg.id r.model r.embedding r.content
    answer (record { org = r.org; name = r.name; model = r.model })

-- `find_by_id(…).find_also_related(org)`
abbrev pub has_package_id : Uuid → Package → Bool
has_package_id id p = nat_eq p.id id

abbrev pub related : Database → Option Package → Option (Package × Option Org)
related db none = none
related db (some p) = some (with_org db.orgs p)

abbrev pub raw_limit : ℕ → ℕ
raw_limit limit = min (max limit 1) 100

-- With tags wanted, more neighbours are fetched than are shown.
abbrev pub fetch_limit : List Text → ℕ → ℕ
fetch_limit [] raw = raw
fetch_limit (t ∷ ts) raw = min (raw * 4) 100

module _ {F D : Type 0} (fl : Floats F)
    (ranked : Text → Text → ℕ → List Embedding → List (Neighbor D)) (s : AppState)
    (o : Outside) where
  abbrev pub hit : Package → Org → D → SemanticHit D
  hit p org distance = record {
    org = org.slug;
    name = p.name;
    description = p.description;
    distance = distance;
    tags = tags_of p;
  }

  -- What a neighbour contributes, if anything.
  abbrev pub shown : List Text → Neighbor D → Option (Package × Option Org) → Option (SemanticHit D)
  shown want n none = none
  shown want n (some (p, none)) = none
  shown want n (some (p, some org)) =
      if has_all_tags (map codes (tags_of p)) want then some (hit p org n.distance) else none

  -- One turn of the loop, with room for so many more items: the last one that fits ends it.
  abbrev pub proceed :
      Option (SemanticHit D)
      → ℕ
      → (ℕ → Handler (List (SemanticHit D)))
      → Handler (List (SemanticHit D))
  proceed none room later = later room
  proceed (some item) room later =
      if leb room 1 then answer (item ∷ []) else later (room - 1) >>= λ items. answer (item ∷ items)

  unfoldable pub semantic_items : List Text → ℕ → List (Neighbor D) → Handler (List (SemanticHit D))
  semantic_items want room [] = answer []
  semantic_items want room (n ∷ ns) =
      query (o.fails find_neighbor)
        (λ db. related db (find (has_package_id n.package_id) db.packages))
      >>= λ row. proceed (shown want n row) room (λ k. semantic_items want k ns)

  unfoldable pub semantic_search : SemanticSearchRequest F → Handler (List (SemanticHit D))
  unfolding require_pg parse_tag_filter search_embeddings semantic_items ◌>>=◌
  semantic_search r = do
    pg ← require_pg s
    neighbors ←
        search_embeddings fl ranked o r.model r.embedding
          (fetch_limit (parse_tag_filter (some (join_tags r.tags))) (raw_limit r.limit))
    semantic_items (parse_tag_filter (some (join_tags r.tags))) (raw_limit r.limit) neighbors
