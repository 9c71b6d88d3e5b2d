-- ===== src/Routes/Listing.antt =====
-- src/routes/list.rs: the list of packages, newest first, with a tag filter and pages.
pub mod Answers
pub mod Pages
pub mod Shown
pub mod Summaries
use registry_api_contract.Prelude.{
  ℕ, min, max, String, Bool, true, false, Option, none, some, List, [], ◌∷◌, nat_eq, map, keep,
  find, take, drop, length,
}
use registry_api_contract.Error.{ApiResult, ok, err}
use registry_api_contract.Db.{Uuid, Org, Package, Version}
use registry_api_contract.Text.{Text, codes}
use registry_api_contract.Search.{parse_tag_filter, has_all_tags}
use registry_api_contract.State.{
  Database, World, Outside, Handler, answer, ◌>>=◌, query, list_packages_rows, count_packages,
  find_versions,
}
use registry_api_contract.Routes.{latest_visible_version, tags_of}
use registry_api_contract.Routes.Packages.{in_package}

pub record ListParams : Type 0 where
  pub tags : Option Text
  pub limit : ℕ
  pub offset : ℕ

abbrev pub default_list_limit : ℕ
default_list_limit = 50

abbrev pub scan_cap : ℕ
scan_cap = 2000

pub record PackageSummary : Type 0 where
  pub org : String
  pub name : String
  pub description : Option String
  pub tags : List String
  pub latest : Option String

pub record PackageListResponse : Type 0 where
  pub items : List PackageSummary
  pub total : ℕ

abbrev pub list_limit : ListParams → ℕ
list_limit params = min (max params.limit 1) 200

abbrev pub has_org_id : Uuid → Org → Bool
has_org_id id o = nat_eq o.id id

-- `find_also_related`
abbrev pub with_org : List Org → Package → Package × Option Org
with_org orgs p = (p, find (has_org_id p.org_id) orgs)

-- A window of a list.
abbrev pub page : {A : Type 0} → ℕ → ℕ → List A → List A
page offset limit xs = take limit (drop offset xs)

unfoldable pub carries : List Text → Package × Option Org → Bool
unfolding tags_of has_all_tags
carries want (p, o) = has_all_tags (map codes (tags_of p)) want

-- `newest_first` is the database's `ORDER BY created_at DESC`, whose order of equal times is its own.
module _ (newest_first : List Package → List Package) (sort_desc : List String → List String)
    (o : Outside) where
  abbrev pub summary : Package → Org → List Version → PackageSummary
  summary p org versions = record {
    org = org.slug;
    name = p.name;
    description = p.description;
    tags = tags_of p;
    latest = latest_visible_version sort_desc versions;
  }

  unfoldable pub summaries : List (Package × Option Org) → Handler (List PackageSummary)
  summaries [] = answer []
  summaries ((p, none) ∷ rows) = summaries rows
  summaries ((p, some org) ∷ rows) = do
    versions ← query (o.fails find_versions) (λ db. keep (in_package p.id) db.versions)
    rest ← summaries rows
    answer (summary p org versions ∷ rest)

  abbrev pub joined : Database → List (Package × Option Org)
  joined db = map (with_org db.orgs) (newest_first db.packages)

  -- With no tag wanted.
  unfoldable pub list_all : ListParams → Handler PackageListResponse
  unfolding summaries
  list_all params = do
    total ← query (o.fails count_packages) (λ db. length db.packages)
    rows ←
        query (o.fails list_packages_rows)
          (λ db. page params.offset (list_limit params) (joined db))
    items ← summaries rows
    answer (record { items = items; total = total })

  -- With tags wanted: the filter runs over the newest rows, up to the cap.
  unfoldable pub list_tagged : List Text → ListParams → Handler PackageListResponse
  unfolding summaries carries
  list_tagged want params = do
    rows ← query (o.fails list_packages_rows) (λ db. take scan_cap (joined db))
    items ← summaries (page params.offset (list_limit params) (keep (carries want) rows))
    answer (record { items = items; total = length (keep (carries want) rows) })

  unfoldable pub list_wanted : List Text → ListParams → Handler PackageListResponse
  unfolding list_all list_tagged
  list_wanted [] params = list_all params
  list_wanted (t ∷ ts) params = list_tagged (t ∷ ts) params

  unfoldable pub list_packages : ListParams → Handler PackageListResponse
  unfolding list_wanted parse_tag_filter
  list_packages params = list_wanted (parse_tag_filter params.tags) params
