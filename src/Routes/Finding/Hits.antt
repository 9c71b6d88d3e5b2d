-- ===== src/Routes/Finding/Hits.antt =====
-- What the search of src/routes/search.rs finds.
use registry_api_contract.Prelude.{
  ◌≤◌, String, ◌≡◌, ◌⊎◌, refl, sym, ap, subst, arith, Bool, true, false, Option, some, List, map,
  In, In-map, In-keep, take_of_length-le, find, ◌↔◌, keep, keep-In, length-keep, take, length,
  length-take,
}
use registry_api_contract.Error.{ok}
use registry_api_contract.Db.{Org, Package}
use registry_api_contract.Text.{Text, codes}
use registry_api_contract.Search.{parse_tag_filter}
use registry_api_contract.Search.Like.{Matches}
use registry_api_contract.Search.Tags.{has_all_tags_iff}
use registry_api_contract.State.{
  Database, World, Outside, ◌>>=◌, query, search_packages, find_versions,
}
use registry_api_contract.Routes.{tags_of}
use registry_api_contract.Routes.Listing.{
  PackageSummary, summary, summaries, carries, joined, with_org, has_org_id,
}
use registry_api_contract.Routes.Packages.{in_package}
use registry_api_contract.Routes.Listing.Answers.{summaries_answers}
use registry_api_contract.Routes.Listing.Summaries.{summaries_ok}
use registry_api_contract.Routes.Listing.Pages.{Listed, Described-Listed, In-take}
use registry_api_contract.Routes.Finding.{SearchParams, matches_query, search}
use registry_api_contract.Routes.Finding.Matching.{
  Contains, NamedPackage, matches_query-Contains, Contains-matches_query, search_items-summaries,
}

module _ (like : Text → Text → Bool) (as_found : List Package → List Package)
    (sort_desc : List String → List String) (o : Outside)
    (like-Matches : (pattern s : Text) → (like pattern s ≡ true) ↔ Matches pattern s)
    (as_found-In : (ps : List Package) (p : Package) → In p (as_found ps) ↔ In p ps) where
  abbrev pub Named : Text → PackageSummary → Type 0
  Named q item =
      Contains q (codes item.name)
      ⊎ ((text : String) × (item.description ≡ some text) × Contains q (codes text))

  abbrev pub matching : SearchParams → Database → List (Package × Option Org)
  matching params db =
      keep (matches_query like as_found sort_desc o params.q) (joined as_found sort_desc o db)

  -- The rows that the search shows: of the first matches, the ones that carry the tags.
  abbrev pub found_rows : SearchParams → Database → List (Package × Option Org)
  found_rows params db = keep (carries (parse_tag_filter params.tags)) (
      take 50
        (keep (matches_query like as_found sort_desc o params.q) (joined as_found sort_desc o db)))

  -- A hit: a listed package whose name or description has the query in it.
  pub record Hit (params : SearchParams) (db : Database) (item : PackageSummary) : Type 0 where
    pub listed :
        Listed as_found sort_desc o
          (λ ps p. (as_found-In ps p).0)
          (parse_tag_filter params.tags)
          db
          item
    pub named : Named params.q item

  -- What a search answers: at most 50 items, each of a hit, and, when the matches are not more than that, one
  -- for every stored package that has an organisation, fits the query and carries the tags.
  pub record Found (params : SearchParams) (db : Database) (items : List PackageSummary)
      : Type 0 where
    pub few : length items ≤ 50
    pub each : (item : PackageSummary) → In item items → Hit params db item
    pub complete :
        (p : Package) (org : Org)
        → length (matching params db) ≤ 50
        → In p db.packages
        → find (has_org_id p.org_id) db.orgs ≡ some org
        → ((t : Text) → In t (parse_tag_filter params.tags) → In t (map codes (tags_of p)))
        → NamedPackage params.q p
        → In (summary as_found sort_desc o p org (keep (in_package p.id) db.versions)) items

  -- What is known of a row that the search shows.
  row_known :
      (params : SearchParams) (db : Database) (p : Package) (org : Org)
      → In (p, some org) (found_rows params db)
      → In (p, some org) (joined as_found sort_desc o db)
        × (matches_query like as_found sort_desc o params.q (p, some org) ≡ true)
        × ((t : Text) → In t (parse_tag_filter params.tags) → In t (map codes (tags_of p)))
  unfolding carries
  row_known params db p org i =
      let whole = joined as_found sort_desc o db in
      let matches = matches_query like as_found sort_desc o params.q in
      let want = parse_tag_filter params.tags in
      let (j, carried) = keep-In (carries want) (take 50 (keep matches whole)) (p, some org) i in
      let (k, matched) =
        keep-In matches whole (p, some org) (In-take 50 (keep matches whole) (p, some org) j) in
      (k, matched, (has_all_tags_iff (map codes (tags_of p)) want).0 carried)

  -- A stored package that fits the query and the tags has its row among those shown, when the matches are
  -- not more than are read.
  row_found :
      (params : SearchParams) (db : Database) (p : Package) (org : Org)
      → length (matching params db) ≤ 50
      → In p db.packages
      → find (has_org_id p.org_id) db.orgs ≡ some org
      → ((t : Text) → In t (parse_tag_filter params.tags) → In t (map codes (tags_of p)))
      → NamedPackage params.q p
      → In (p, some org) (found_rows params db)
  unfolding carries
  row_found params db p org fits i f t n =
      let want = parse_tag_filter params.tags in
      let there =
        In-map (with_org db.orgs) (as_found db.packages) p ((as_found-In db.packages p).1 i) in
      let row = subst (λ r. In (p, r) (joined as_found sort_desc o db)) f there in
      let hit =
        In-keep (matches_query like as_found sort_desc o params.q) (joined as_found sort_desc o db)
          (p, some org) row
          (Contains-matches_query like as_found sort_desc o like-Matches params.q p org n) in
      In-keep (carries want) (take 50 (matching params db)) (p, some org)
        (subst (In (p, some org)) (sym (take_of_length-le 50 (matching params db) fits)) hit)
        ((has_all_tags_iff (map codes (tags_of p)) want).1 t)

  summaries-Found :
      (params : SearchParams) (v : World) (items : List PackageSummary)
      → (summaries as_found sort_desc o (found_rows params v.database) v).0 ≡ ok items
      → Found params v.database items
  summaries-Found params v items h =
      let rows = found_rows params v.database in
      let want = parse_tag_filter params.tags in
      let s = summaries_ok as_found sort_desc o rows v items h in
      let fits = s.few in
      let kept = length-keep (carries want) (take 50 (matching params v.database)) in
      let short = length-take 50 (matching params v.database) in
      record {
        few = omega (arith, fits, kept, short);
        each = λ item i.
            let (p, org, j, d) = s.each item i in
            let (k, m, t) = row_known params v.database p org j in
            record {
              listed =
                  Described-Listed as_found sort_desc o (λ ps p. (as_found-In ps p).0) want v item
                    rows
                    (λ p' org' j'.
                      let (k', m', t') = row_known params v.database p' org' j' in (k', t'))
                    (p, org, j, d);
              named = subst (Named params.q) (sym d) (
                  matches_query-Contains like as_found sort_desc o like-Matches params.q p
                    (some org) m);
            };
        complete =
            λ p org few i f t n. s.shown p org (row_found params v.database p org few i f t n);
      }

  -- When no statement fails, the search answers and changes nothing. The answer repeats the query and shows at
  -- most 50 packages, each of them stored, with every tag that was asked for, and with the query, taken literally,
  -- in its name or its description. When at most 50 stored packages match the query, it shows all of those that
  -- have an organisation and carry the tags. The order of the database, `as_found`, is taken to return the stored
  -- packages, and its `LIKE` to match just what the pattern describes.
  pub search-Found :
      (params : SearchParams) (v : World)
      → o.fails search_packages ≡ false
      → o.fails find_versions ≡ false
      → (items : List PackageSummary) × (search like as_found sort_desc o params v
          ≡ (ok (record { query = params.q; items = items }), v))
        × Found params v.database items
  unfolding search ◌>>=◌ query
  search-Found params v f g =
      let (items, e) = summaries_answers as_found sort_desc o g (found_rows params v.database) v in
      let same =
        ap (λ m. m v)
          (search_items-summaries like as_found sort_desc o like-Matches
            (parse_tag_filter params.tags) (take 50 (matching params v.database))) in
      (items, rw (f, same, e) refl, summaries-Found params v items (ap (λ r. r.0) e))
