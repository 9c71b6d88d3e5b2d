-- ===== src/Tests/Searches.antt =====
-- The listing and the search of src/routes/ on the small registry.
use registry_api_contract.Prelude.{ℕ, ◌≡◌, refl, none, some, List, [], ◌∷◌, length}
use registry_api_contract.Error.{ApiResult, ok, err}
use registry_api_contract.Db.{array}
use registry_api_contract.Text.{trim, codes}
use registry_api_contract.Search.{parse_tag_filter, has_all_tags}
use registry_api_contract.Routes.Listing.{
  ListParams, PackageSummary, PackageListResponse, default_list_limit, list_packages,
}
use registry_api_contract.Routes.Listing.Shown.{Shown, total, list_packages-Shown}
use registry_api_contract.State.{World, ◌>>=◌, query}
use registry_api_contract.Routes.{tags_of}
use registry_api_contract.Tests.Fixtures.{calm, world, kit}
use registry_api_contract.Tests.Reads.{by_rank, Precedes, by_rank-Sorts}
use registry_api_contract.Tests.Like.{like, like-Matches}
use registry_api_contract.Routes.Finding.{SearchParams, SearchResponse, search}
use registry_api_contract.Routes.Finding.Hits.{Found, search-Found}
use registry_api_contract.Search.{contains_escaped}

-- The package carries two tags, and one of them is asked for.
abbrev tagged_world : World
tagged_world = record world {
  database = record world.database {
    packages = record kit { tags = array (some "cli" ∷ some "http" ∷ []) } ∷ [];
  };
}

abbrev tagged_cli : ListParams
tagged_cli = record { tags = some (codes "cli"); limit = default_list_limit; offset = 0 }

list_packages-Shown_example :
    (response : PackageListResponse) × (list_packages
        (λ ps. ps)
        by_rank
        calm
        tagged_cli
        tagged_world
      ≡ (ok response, tagged_world))
    × Shown
        (λ ps. ps)
        by_rank
        calm
        (λ ps p i. i)
        Precedes
        by_rank-Sorts
        (parse_tag_filter tagged_cli.tags)
        tagged_cli
        tagged_world.database
        response.items
    × (response.total
        ≡ total
            (λ ps. ps)
            by_rank
            calm
            (λ ps p i. i)
            Precedes
            by_rank-Sorts
            (parse_tag_filter tagged_cli.tags)
            tagged_world.database)
list_packages-Shown_example =
    list_packages-Shown (λ ps. ps) by_rank calm (λ ps p i. i) Precedes by_rank-Sorts tagged_cli
      tagged_world (record { versions_found = refl; rows_found = refl; counted = refl })

abbrev listed_items : ApiResult PackageListResponse → List PackageSummary
listed_items (ok r) = r.items
listed_items (err e) = []

listed_once :
    length (listed_items (list_packages (λ ps. ps) by_rank calm tagged_cli tagged_world).0) ≡ 1
unfolding list_packages ◌>>=◌ query parse_tag_filter trim has_all_tags tags_of
listed_once = refl

abbrev query_it : SearchParams
query_it = record { q = codes "it"; tags = some (codes "cli, http") }

search-Found_example :
    (items : List PackageSummary) × (search like (λ ps. ps) by_rank calm query_it tagged_world
      ≡ (ok (record { query = codes "it"; items = items }), tagged_world))
    × Found like
        (λ ps. ps)
        by_rank
        calm
        like-Matches
        (λ ps p. (λ i. i, λ i. i))
        query_it
        tagged_world.database
        items
search-Found_example =
    search-Found like (λ ps. ps) by_rank calm like-Matches (λ ps p. (λ i. i, λ i. i)) query_it
      tagged_world refl refl

abbrev hits : ApiResult SearchResponse → ℕ
hits (ok r) = length r.items
hits (err e) = 0

-- A query of one wildcard finds nothing, since it is taken literally.
found_literally :
    (hits (search like (λ ps. ps) by_rank calm query_it tagged_world).0 ≡ 1)
    × (hits
          (search like
            (λ ps. ps)
            by_rank
            calm
            (record { q = codes "%"; tags = none })
            tagged_world).0
        ≡ 0)
unfolding search ◌>>=◌ query parse_tag_filter trim has_all_tags tags_of contains_escaped like
found_literally = (refl, refl)
