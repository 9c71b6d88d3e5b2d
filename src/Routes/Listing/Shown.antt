-- ===== src/Routes/Listing/Shown.antt =====
-- What a reader of the list of packages of src/routes/list.rs sees, in terms of the stored rows.
use registry_api_contract.Prelude.{
  ℕ, ◌≤◌, min, max, String, ◌≡◌, ◌↔◌, true, refl, sym, subst, ◌⊎◌, arith, Option, none, some, List,
  [], ◌∷◌, map, In, In-keep, keep, keep-In, find, find-some, take, drop, length, nat_eq, nat_eq_iff,
  false,
}
use registry_api_contract.Error.{ok}
use registry_api_contract.Db.{Org, Package, Version}
use registry_api_contract.Text.{Text, codes}
use registry_api_contract.Search.{parse_tag_filter}
use registry_api_contract.Search.Tags.{has_all_tags_iff}
use registry_api_contract.State.{Database, World, Outside}
use registry_api_contract.Routes.{tags_of}
use registry_api_contract.Routes.Packages.{in_package}
use registry_api_contract.Routes.Packages.Latest.{Sorts, latest_visible_version_lem}
use registry_api_contract.Routes.Listing.{
  ListParams, PackageSummary, PackageListResponse, has_org_id, carries, summary, list_packages,
}
use registry_api_contract.Routes.Listing.Answers.{Undisturbed}
use registry_api_contract.Routes.Listing.Pages.{Page, window, total_of, list_packages-Page}

-- A version of the package that is not yanked.
abbrev pub IsVisible : Database → Package → Version → Type 0
IsVisible db p row = In row db.versions × (row.package_id ≡ p.id) × (row.yanked ≡ false)

-- The item of a package: its organisation's slug, its columns, and a version that is that of a visible
-- row and precedes or equals those of all of them, or none when no row is visible.
pub record Shows (precedes : String → String → Type 0) (db : Database) (item : PackageSummary)
    (p : Package) (org : Org) : Type 0 where
  pub slug : item.org ≡ org.slug
  pub name : item.name ≡ p.name
  pub description : item.description ≡ p.description
  pub tags : item.tags ≡ tags_of p
  pub latest :
      (v : String)
      → item.latest ≡ some v
      → ((row : Version) × IsVisible db p row × (row.version ≡ v))
        × ((row : Version) → IsVisible db p row → (row.version ≡ v) ⊎ precedes v row.version)
  pub no_latest : item.latest ≡ none → (row : Version) → IsVisible db p row → ⊥

in_package_iff :
    (db : Database) (p : Package) (row : Version)
    → (In row (keep (in_package p.id) db.versions) → In row db.versions × (row.package_id ≡ p.id))
      × (In row db.versions → row.package_id ≡ p.id → In row (keep (in_package p.id) db.versions))
in_package_iff db p row = (
  λ i.
      let (j, hit) = keep-In (in_package p.id) db.versions row i in
      (j, ground (arith, nat_eq_iff row.package_id p.id, hit)),
  λ i e.
      In-keep (in_package p.id) db.versions row i
        (ground (arith, nat_eq_iff row.package_id p.id, e)),
)

carries_iff :
    (want : List Text) (p : Package) (org : Option Org)
    → (carries want (p, org) ≡ true) ↔ ((t : Text) → In t want → In t (map codes (tags_of p)))
unfolding carries
carries_iff want p org = has_all_tags_iff (map codes (tags_of p)) want

module _ (newest_first : List Package → List Package) (sort_desc : List String → List String)
    (o : Outside)
    (newest_first-In : (ps : List Package) (p : Package) → In p (newest_first ps) → In p ps)
    (precedes : String → String → Type 0) (sorts : Sorts precedes sort_desc) where
  summary-Shows :
      (db : Database) (p : Package) (org : Org)
      → Shows precedes db
          (summary newest_first sort_desc o p org (keep (in_package p.id) db.versions))
          p
          org
  summary-Shows db p org =
      let rows = keep (in_package p.id) db.versions in
      let (leads, empty) = latest_visible_version_lem precedes sort_desc rows sorts in
      record {
        slug = refl;
        name = refl;
        description = refl;
        tags = refl;
        latest = λ v e.
            let ((row, i, y, same), first) = leads v e in
            let (j, k) = (in_package_iff db p row).0 i in
            (
              (row, (j, k, y), same),
              λ row' (i', k', y'). first row' ((in_package_iff db p row').1 i' k') y',
            );
        no_latest =
            λ e row (i, k, y). let yanked = empty e row ((in_package_iff db p row).1 i k) in cc;
      }

  -- The packages in the order of the database, each with the organisation of its identifier.
  abbrev pub owned : Database → List (Package × Option Org)
  owned db =
      map (λ p. (p, find (λ (q : Org). nat_eq q.id p.org_id) db.orgs)) (newest_first db.packages)

  -- The rows of a page: 1 to 200 from the offset on, of all packages or of the newest 2000 that carry the
  -- tags wanted.
  abbrev pub rows_of : List Text → ListParams → Database → List (Package × Option Org)
  rows_of [] params db = take (min (max params.limit 1) 200) (drop params.offset (owned db))
  rows_of (t ∷ ts) params db =
      take (min (max params.limit 1) 200)
        (drop params.offset (keep (carries (t ∷ ts)) (take 2000 (owned db))))

  -- All packages, or with tags those of the newest 2000 that carry them.
  abbrev pub total : List Text → Database → ℕ
  total [] db = length db.packages
  total (t ∷ ts) db = length (keep (carries (t ∷ ts)) (take 2000 (owned db)))

  counted_rows :
      (want : List Text) (db : Database) {n : ℕ}
      → n ≡ total_of newest_first sort_desc o newest_first-In want db
      → n ≡ total want db
  counted_rows [] db e = e
  counted_rows (t ∷ ts) db e = e

  pub record Shown (want : List Text) (params : ListParams) (db : Database)
      (items : List PackageSummary) : Type 0 where
    pub carried :
        (p : Package) (org : Option Org)
        → (carries want (p, org) ≡ true) ↔ ((t : Text) → In t want → In t (map codes (tags_of p)))
    pub few : length items ≤ min (max params.limit 1) 200
    pub each :
        (item : PackageSummary)
        → In item items
        → (p : Package) × (org : Org) × In p db.packages
          × In org db.orgs
          × (org.id ≡ p.org_id)
          × ((t : Text) → In t want → In t (map codes (tags_of p)))
          × Shows precedes db item p org
    pub every :
        (p : Package) (org : Org)
        → In (p, some org) (rows_of want params db)
        → (item : PackageSummary) × In item items × Shows precedes db item p org

  Page-Shown :
      (want : List Text) (params : ListParams) (db : Database) (items : List PackageSummary)
      → Page newest_first sort_desc o newest_first-In want params db items
      → Shown want params db items
  Page-Shown want params db items page = record {
    carried = carries_iff want;
    few = page.few;
    each = λ item i.
        let l = page.each item i in
        let (member, hit) = find-some (has_org_id l.pkg.org_id) db.orgs l.org l.owned in
        (
          l.pkg,
          l.org,
          l.stored,
          member,
          ground (arith, nat_eq_iff l.org.id l.pkg.org_id, hit),
          l.tagged,
          subst (λ x. Shows precedes db x l.pkg l.org) (sym l.described)
              (summary-Shows db l.pkg l.org),
        );
    every = λ p org i. (_, page.shown p org (in_window want _ i), summary-Shows db p org);
  }
    where
      in_window :
          (want : List Text) (x : Package × Option Org)
          → In x (rows_of want params db)
          → In x (window newest_first sort_desc o newest_first-In want params db)
      in_window [] x i = i
      in_window (t ∷ ts) x i = i

  -- When no statement fails, the listing answers and changes nothing. The items of the answer are at most the
  -- limit asked for, taken into 1 to 200. Each of them shows a stored package, with every tag that was asked
  -- for, and the stored organisation of its identifier: the slug, the name, the description, the tags, and
  -- a version of the package's that is not yanked and that precedes or equals every other such version, or
  -- none when all are yanked. And every row of the page that has an organisation is shown so; the page is
  -- taken, from the offset on, from the packages from the newest on, or with tags from those of the newest
  -- 2000 that carry them, which `carries` tells exactly; and the total is the number of stored packages, or
  -- with tags of those 2000 that carry them. The order of the database, `newest_first`, is taken to return
  -- stored packages only, and the order of versions to sort as documented.
  pub list_packages-Shown :
      (params : ListParams) (v : World)
      → Undisturbed o
      → (response : PackageListResponse) × (list_packages newest_first sort_desc o params v
          ≡ (ok response, v))
        × Shown (parse_tag_filter params.tags) params v.database response.items
        × (response.total ≡ total (parse_tag_filter params.tags) v.database)
  list_packages-Shown params v calm =
      let (response, e, (page, counted)) =
        list_packages-Page newest_first sort_desc o newest_first-In params v calm in
      (
        response,
        e,
        Page-Shown _ params v.database response.items page,
        counted_rows _ v.database counted,
      )
