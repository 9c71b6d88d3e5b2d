-- ===== src/Tests/Vectors.antt =====
-- The vector endpoints of src/routes/semantic.rs on the small registry.
use registry_api_contract.Prelude.{
  ℕ, ◌+◌, ◌≤◌, ◌≡◌, refl, true, false, some, List, [], ◌∷◌, In, All, arith, ltb, take, length, map,
  min, max, find,
}
use registry_api_contract.Error.{ApiResult, ok, err}
use registry_api_contract.Db.{Embedding, Org, Package, array}
use registry_api_contract.Text.{Text, codes, trim}
use registry_api_contract.State.{World, ◌>>=◌, query, require}
use registry_api_contract.Auth.{auth_disabled}
use registry_api_contract.Search.{has_all_tags}
use registry_api_contract.Search.Tags.{IsTag}
use registry_api_contract.Routes.{tags_of}
use registry_api_contract.Routes.Listing.{has_org_id}
use registry_api_contract.Embeddings.{Floats, Neighbor, valid_model}
use registry_api_contract.Embeddings.Padding.{Fits}
use registry_api_contract.Embeddings.Table.{OneEach}
use registry_api_contract.Routes.Semantic.{
  EmbeddingUpsertRequest, EmbeddingUpsertResponse, SemanticSearchRequest, SemanticHit,
  has_package_id, upsert_embedding, semantic_search,
}
use registry_api_contract.Routes.Semantic.Ranking.{all_items, neighbors}
use registry_api_contract.Routes.Semantic.Hits.{Shows, semantic_search-Shows}
use registry_api_contract.Routes.Semantic.Writes.{Embedded, upsert_embedding-Embedded}
use registry_api_contract.Tests.Fixtures.{dependencies, settings, calm, world, kit, credential}

-- Numbers below a million are finite.
abbrev floats : Floats ℕ
floats = record { nil = 0; is_finite = λ v. ltb v 1_000_000; show = λ v. (b'0' + v) ∷ [] }

abbrev put_vector : EmbeddingUpsertRequest ℕ
put_vector = record {
  org = "acme";
  name = "kit";
  authorization = credential;
  model = codes "mini-1";
  embedding = 1 ∷ 2 ∷ [];
  content = codes "a kit";
}

abbrev put_answer : EmbeddingUpsertResponse
put_answer = record { org = "acme"; name = "kit"; model = codes "mini-1" }

enabled : auth_disabled settings ≡ false
unfolding auth_disabled
enabled = refl

written : (upsert_embedding floats dependencies settings calm put_vector world).0 ≡ ok put_answer
unfolding upsert_embedding ◌>>=◌ query require trim
written = refl

no_vectors : OneEach world.database.embeddings
no_vectors a b i j p m = elim i [ ]

upsert_embedding-Embedded_example :
    Embedded floats dependencies settings calm put_vector world
      (upsert_embedding floats dependencies settings calm put_vector world).1
upsert_embedding-Embedded_example =
    upsert_embedding-Embedded floats dependencies settings calm put_vector world put_answer enabled
      no_vectors written

-- The rows of the model, in the order of the table.
abbrev ranked : Text → Text → ℕ → List Embedding → List (Neighbor ℕ)
ranked literal model limit rows =
    take limit (map (λ e. record { package_id = e.package_id; distance = 0 }) rows)

abbrev vector_world : World
vector_world = record world {
  database = record world.database {
    packages = record kit { tags = array (some "cli" ∷ []) } ∷ [];
    embeddings =
        record {
          id = 90;
          package_id = 15;
          embedding_model = codes "mini-1";
          native_dimensions = 2;
          embedding = codes "[1,2]";
          content = codes "a kit";
          content_sha256 = "digest-of-another";
          created_at = 900;
        }
        ∷ [];
  };
}

abbrev ask : SemanticSearchRequest ℕ
ask = record { model = codes "mini-1"; embedding = 1 ∷ []; limit = 0; tags = codes "cli" ∷ [] }

good_model : valid_model (codes "mini-1") ≡ true
unfolding valid_model
good_model = refl

fitting : Fits floats ask.embedding
fitting = record { nonempty = refl; short = omega arith; finite = refl }

tags_good : All IsTag ask.tags
unfolding trim
tags_good = (record { trimmed = refl; nonempty = refl; no_comma = refl }, tt)

semantic_search-Shows_example :
    (items : List (SemanticHit ℕ)) × (semantic_search floats ranked settings calm ask vector_world
      ≡ (ok items, vector_world))
    × (items
        ≡ take (min (max ask.limit 1) 100) (
            all_items floats ranked settings calm ask.tags vector_world.database
              (neighbors floats ranked settings calm ask.tags ask vector_world.database)))
    × ((n : Neighbor ℕ) (p : Package) (q : Org)
        → In n (neighbors floats ranked settings calm ask.tags ask vector_world.database)
        → find (has_package_id n.package_id) vector_world.database.packages ≡ some p
        → find (has_org_id p.org_id) vector_world.database.orgs ≡ some q
        → ((t : Text) → In t ask.tags → In t (map codes (tags_of p)))
        → (item : SemanticHit ℕ) × In item (
            all_items floats ranked settings calm ask.tags vector_world.database
              (neighbors floats ranked settings calm ask.tags ask vector_world.database))
          × (item.org ≡ q.slug)
          × (item.name ≡ p.name)
          × (item.distance ≡ n.distance))
    × (length items ≤ 100)
    × ((item : SemanticHit ℕ)
        → In item items
        → Shows floats ranked settings calm ask.tags vector_world.database
            (neighbors floats ranked settings calm ask.tags ask vector_world.database)
            item)
semantic_search-Shows_example =
    semantic_search-Shows floats ranked settings calm ask vector_world refl good_model fitting
      tags_good refl refl

abbrev shown_count : ApiResult (List (SemanticHit ℕ)) → ℕ
shown_count (ok items) = length items
shown_count (err e) = 0

shown_one : shown_count (semantic_search floats ranked settings calm ask vector_world).0 ≡ 1
unfolding semantic_search ◌>>=◌ query require trim has_all_tags tags_of
shown_one = refl
