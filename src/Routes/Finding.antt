-- ===== src/Routes/Finding.antt =====
-- The handler of src/routes/search.rs: packages whose name or description has the query in it.
pub mod Hits
pub mod Matching
use registry_api_contract.Prelude.{
  String, Bool, true, false, ◌||◌, if◌then◌else◌, Option, none, some, List, [], ◌∷◌, map, keep,
  take,
}
use registry_api_contract.Db.{Org, Package, Version}
use registry_api_contract.Text.{Text, codes}
use registry_api_contract.Search.{parse_tag_filter, has_all_tags, contains_escaped}
use registry_api_contract.State.{
  Database, World, Outside, Handler, answer, ◌>>=◌, query, search_packages, find_versions,
}
use registry_api_contract.Routes.{tags_of}
use registry_api_contract.Routes.Packages.{in_package}
use registry_api_contract.Routes.Listing.{PackageSummary, summary, joined}

pub record SearchParams : Type 0 where
  pub q : Text
  pub tags : Option Text

pub record SearchResponse : Type 0 where
  pub query : Text
  pub items : List PackageSummary

-- `LIKE` on a column that may be null, whose null is not matched.
abbrev pub like_nullable : (Text → Bool) → Option String → Bool
like_nullable matches none = false
like_nullable matches (some s) = matches (codes s)

-- `like` is the database's `LIKE` with the backslash as its escape, `as_found` the order of its rows.
module _ (like : Text → Text → Bool) (as_found : List Package → List Package)
    (sort_desc : List String → List String) (o : Outside) where
  abbrev pub matches_query : Text → Package × Option Org → Bool
  matches_query q (p, org) =
      like (contains_escaped q) (codes p.name)
      || like_nullable (like (contains_escaped q)) p.description

  -- One row with its organisation, before those that come later.
  abbrev pub show_row :
      Package → Org → Handler (List PackageSummary) → Handler (List PackageSummary)
  show_row p org later = do
    versions ← query (o.fails find_versions) (λ db. keep (in_package p.id) db.versions)
    rest ← later
    answer (summary as_found sort_desc o p org versions ∷ rest)

  unfoldable pub search_items :
      List Text → List (Package × Option Org) → Handler (List PackageSummary)
  unfolding tags_of has_all_tags
  search_items want [] = answer []
  search_items want ((p, none) ∷ rows) = search_items want rows
  search_items want ((p, some org) ∷ rows) =
      let later = search_items want rows in
      if has_all_tags (map codes (tags_of p)) want then show_row p org later else later

  unfoldable pub search : SearchParams → Handler SearchResponse
  unfolding search_items parse_tag_filter contains_escaped
  search params = do
    rows ←
        query (o.fails search_packages)
          (λ db. take 50 (keep (matches_query params.q) (joined as_found sort_desc o db)))
    items ← search_items (parse_tag_filter params.tags) rows
    answer (record { query = params.q; items = items })
