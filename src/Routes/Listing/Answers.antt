-- ===== src/Routes/Listing/Answers.antt =====
-- That the listing of src/routes/list.rs answers.
use registry_api_contract.Prelude.{
  String, ◌≡◌, refl, false, Option, none, some, List, [], ◌∷◌, keep, take, length,
}
use registry_api_contract.Error.{ok}
use registry_api_contract.Db.{Org, Package}
use registry_api_contract.Text.{Text}
use registry_api_contract.Search.{parse_tag_filter}
use registry_api_contract.State.{
  World, Outside, ◌>>=◌, query, find_versions, list_packages_rows, count_packages,
}
use registry_api_contract.Routes.Packages.{in_package}
use registry_api_contract.Routes.Listing.{
  ListParams, PackageSummary, PackageListResponse, list_limit, scan_cap, page, carries, summary,
  summaries, joined, list_all, list_tagged, list_wanted, list_packages,
}

-- The statements of the listing that the database does not fail.
pub record Undisturbed (o : Outside) : Type 0 where
  pub versions_found : o.fails find_versions ≡ false
  pub rows_found : o.fails list_packages_rows ≡ false
  pub counted : o.fails count_packages ≡ false

module _ (newest_first : List Package → List Package) (sort_desc : List String → List String)
    (o : Outside) where
  pub summaries_answers :
      o.fails find_versions ≡ false
      → (rows : List (Package × Option Org)) (v : World)
      → (items : List PackageSummary) × (summaries newest_first sort_desc o rows v ≡ (ok items, v))
  unfolding summaries ◌>>=◌ query
  summaries_answers f [] v = ([], refl)
  summaries_answers f ((p, none) ∷ rows) v = summaries_answers f rows v
  summaries_answers f ((p, some org) ∷ rows) v =
      let (rest, e) = summaries_answers f rows v in
      (
        summary newest_first sort_desc o p org (keep (in_package p.id) v.database.versions) ∷ rest,
        rw (f, e) refl,
      )

  list_wanted_answers :
      Undisturbed o
      → (want : List Text) (params : ListParams) (v : World)
      → (response : PackageListResponse) × (list_wanted newest_first sort_desc o want params v
          ≡ (ok response, v))
  unfolding list_wanted list_all list_tagged ◌>>=◌ query
  list_wanted_answers u [] params v =
      let (items, e) =
        summaries_answers u.versions_found
          (page params.offset (list_limit params) (joined newest_first sort_desc o v.database)) v in
      (
        record { items = items; total = length v.database.packages },
        rw (u.counted, u.rows_found, e) refl,
      )
  list_wanted_answers u (t ∷ ts) params v =
      let whole =
        keep (carries (t ∷ ts)) (take scan_cap (joined newest_first sort_desc o v.database)) in
      let (items, e) =
        summaries_answers u.versions_found (page params.offset (list_limit params) whole) v in
      (record { items = items; total = length whole }, rw (u.rows_found, e) refl)

  pub list_packages_answers :
      Undisturbed o
      → (params : ListParams) (v : World)
      → (response : PackageListResponse) × (list_packages newest_first sort_desc o params v
          ≡ (ok response, v))
  unfolding list_packages
  list_packages_answers u params v = list_wanted_answers u (parse_tag_filter params.tags) params v
