-- ===== src/Routes/Listing/Pages.antt =====
-- What the pages of src/routes/list.rs hold.
use registry_api_contract.Prelude.{
  ℕ, zero, suc, ◌≤◌, String, ◌≡◌, refl, sym, ap, subst, inl, inr, arith, Option, some, List, [],
  ◌∷◌, map, In, In-map_inv, keep, keep-In, find, take, drop, length, length-take,
}
use registry_api_contract.Error.{ok, ok_injective}
use registry_api_contract.Db.{Org, Package}
use registry_api_contract.Text.{Text, codes}
use registry_api_contract.Search.{parse_tag_filter}
use registry_api_contract.Search.Tags.{has_all_tags_iff}
use registry_api_contract.State.{Database, World, Outside}
use registry_api_contract.State.Effects.{through_kept, through_query}
use registry_api_contract.Routes.{tags_of}
use registry_api_contract.Routes.Listing.{
  ListParams, PackageSummary, PackageListResponse, list_limit, scan_cap, has_org_id, with_org, page,
  carries, summary, summaries, joined, list_all, list_tagged, list_wanted, list_packages,
}
use registry_api_contract.Routes.Packages.{in_package}
use registry_api_contract.Routes.Listing.Answers.{Undisturbed, list_packages_answers}
use registry_api_contract.Routes.Listing.Summaries.{summaries-Keeps, Describes, summaries_ok}

pub In-take : {A : Type 0} (n : ℕ) (xs : List A) (x : A) → In x (take n xs) → In x xs
In-take zero xs x i = elim i [ ]
In-take (suc n) [] x i = elim i [ ]
In-take (suc n) (y ∷ ys) x (inl e) = inl e
In-take (suc n) (y ∷ ys) x (inr i) = inr (In-take n ys x i)

In-drop : {A : Type 0} (n : ℕ) (xs : List A) (x : A) → In x (drop n xs) → In x xs
In-drop zero xs x i = i
In-drop (suc n) [] x i = elim i [ ]
In-drop (suc n) (y ∷ ys) x i = inr (In-drop n ys x i)

In-page :
    {A : Type 0} (offset limit : ℕ) (xs : List A) (x : A) → In x (page offset limit xs) → In x xs
In-page offset limit xs x i = In-drop offset xs x (In-take limit (drop offset xs) x i)

length-page : {A : Type 0} (offset limit : ℕ) (xs : List A) → length (page offset limit xs) ≤ limit
length-page offset limit xs = let k = length-take limit (drop offset xs) in omega (arith, k)

module _ (newest_first : List Package → List Package) (sort_desc : List String → List String)
    (o : Outside)
    (newest_first-In : (ps : List Package) (p : Package) → In p (newest_first ps) → In p ps) where
  -- A listed package: stored, with the organisation that is found by its identifier, and with every tag wanted.
  pub record Listed (want : List Text) (db : Database) (item : PackageSummary) : Type 0 where
    pub pkg : Package
    pub org : Org
    pub stored : In pkg db.packages
    pub owned : find (has_org_id pkg.org_id) db.orgs ≡ some org
    pub tagged : (t : Text) → In t want → In t (map codes (tags_of pkg))
    pub described : Describes newest_first sort_desc o db item pkg org

  -- The rows of a page: of all rows, or of the newest ones that carry the tags wanted.
  abbrev pub window : List Text → ListParams → Database → List (Package × Option Org)
  window [] params db = page params.offset (list_limit params) (joined newest_first sort_desc o db)
  window (t ∷ ts) params db =
      page params.offset (list_limit params)
        (keep (carries (t ∷ ts)) (take scan_cap (joined newest_first sort_desc o db)))

  -- The items of an answer: no more than a page holds, each of a listed package, and one for every row
  -- of the page that has an organisation.
  pub record Page (want : List Text) (params : ListParams) (db : Database)
      (items : List PackageSummary) : Type 0 where
    pub few : length items ≤ list_limit params
    pub each : (item : PackageSummary) → In item items → Listed want db item
    pub shown :
        (p : Package) (org : Org)
        → In (p, some org) (window want params db)
        → In (summary newest_first sort_desc o p org (keep (in_package p.id) db.versions)) items

  joined-In :
      (db : Database) (p : Package) (org : Org)
      → In (p, some org) (joined newest_first sort_desc o db)
      → In p db.packages × (find (has_org_id p.org_id) db.orgs ≡ some org)
  joined-In db p org i =
      let (q, j, e) = In-map_inv (with_org db.orgs) (newest_first db.packages) (p, some org) i in
      let same : p ≡ q = ap (λ r. r.0) e in
      let found : some org ≡ find (has_org_id q.org_id) db.orgs = ap (λ r. r.1) e in
      (newest_first-In db.packages p (rw same j), rw same (sym found))

  pub Described-Listed :
      (want : List Text) (v : World) (item : PackageSummary) (rows : List (Package × Option Org))
      → ((p : Package) (org : Org)
          → In (p, some org) rows
          → In (p, some org) (joined newest_first sort_desc o v.database)
            × ((t : Text) → In t want → In t (map codes (tags_of p))))
      → (p : Package) × (org : Org) × In (p, some org) rows
        × Describes newest_first sort_desc o v.database item p org
      → Listed want v.database item
  Described-Listed want v item rows known (p, org, i, e) =
      let (j, tagged) = known p org i in
      let (stored, owned) = joined-In v.database p org j in
      record { pkg = p; org = org; stored = stored; owned = owned; tagged = tagged; described = e }

  summaries-Page :
      (want : List Text) (params : ListParams) (v : World) (whole : List (Package × Option Org))
      (items : List PackageSummary)
      → ((p : Package) (org : Org)
          → In (p, some org) whole
          → In (p, some org) (joined newest_first sort_desc o v.database)
            × ((t : Text) → In t want → In t (map codes (tags_of p))))
      → window want params v.database ≡ page params.offset (list_limit params) whole
      → (summaries newest_first sort_desc o (page params.offset (list_limit params) whole) v).0
        ≡ ok items
      → Page want params v.database items
  summaries-Page want params v whole items known same h =
      let rows = page params.offset (list_limit params) whole in
      let s = summaries_ok newest_first sort_desc o rows v items h in
      record {
        few =
            let short = length-page params.offset (list_limit params) whole in
            let fits = s.few in omega (arith, short, fits);
        each = λ item i.
            Described-Listed want v item rows
              (λ p org j.
                known p org (In-page params.offset (list_limit params) whole (p, some org) j))
              (s.each item i);
        shown = λ p org i. s.shown p org (subst (In (p, some org)) same i);
      }

  -- The number of rows that the pages are taken from.
  abbrev pub total_of : List Text → Database → ℕ
  total_of [] db = length db.packages
  total_of (t ∷ ts) db =
      length (keep (carries (t ∷ ts)) (take scan_cap (joined newest_first sort_desc o db)))

  abbrev pub Answered : List Text → ListParams → Database → PackageListResponse → Type 0
  Answered want params db response =
      Page want params db response.items × (response.total ≡ total_of want db)

  list_all_ok :
      (params : ListParams) (v : World) (response : PackageListResponse)
      → (list_all newest_first sort_desc o params v).0 ≡ ok response
      → Answered [] params v.database response
  unfolding list_all
  list_all_ok params v response h =
      let Goal : Type 0 = Answered [] params v.database response in
      let whole = joined newest_first sort_desc o v.database in
      through_query (λ x. Goal) _ _ _ h
        λ h1.
          through_query (λ x. Goal) _ _ _ h1
            λ h2.
              through_kept (λ x. Goal) _
                (summaries-Keeps newest_first sort_desc o
                  (page params.offset (list_limit params) whole))
                h2
                λ items found h3. subst (Answered [] params v.database) (ok_injective h3) (
                  summaries-Page [] params v whole items (λ p org j. (j, λ t i. elim i [ ])) refl
                      found,
                  refl,
                )

  list_tagged_ok :
      (w : Text) (ws : List Text) (params : ListParams) (v : World) (response : PackageListResponse)
      → (list_tagged newest_first sort_desc o (w ∷ ws) params v).0 ≡ ok response
      → Answered (w ∷ ws) params v.database response
  unfolding list_tagged
  list_tagged_ok w ws params v response h =
      let want = w ∷ ws in
      let Goal : Type 0 = Answered want params v.database response in
      let rows = take scan_cap (joined newest_first sort_desc o v.database) in
      let whole = keep (carries want) rows in
      through_query (λ x. Goal) _ _ _ h
        λ h1.
          through_kept (λ x. Goal) _
            (summaries-Keeps newest_first sort_desc o
              (page params.offset (list_limit params) whole))
            h1
            λ items found h2. subst (Answered want params v.database) (ok_injective h2) (
              summaries-Page want params v whole items
                  (λ p org j.
                    let (i, hit) = keep-In (carries want) rows (p, some org) j in
                    (
                      In-take scan_cap (joined newest_first sort_desc o v.database) (p, some org) i,
                      (has_all_tags_iff (map codes (tags_of p)) want).0 hit,
                    ))
                  refl found,
              refl,
            )

  list_wanted_ok :
      (want : List Text) (params : ListParams) (v : World) (response : PackageListResponse)
      → (list_wanted newest_first sort_desc o want params v).0 ≡ ok response
      → Answered want params v.database response
  unfolding list_wanted
  list_wanted_ok [] = list_all_ok
  list_wanted_ok (t ∷ ts) = list_tagged_ok t ts

  list_packages_ok :
      (params : ListParams) (v : World) (response : PackageListResponse)
      → (list_packages newest_first sort_desc o params v).0 ≡ ok response
      → Answered (parse_tag_filter params.tags) params v.database response
  unfolding list_packages
  list_packages_ok params v response h =
      list_wanted_ok (parse_tag_filter params.tags) params v response h

  -- When no statement fails, the listing answers and changes nothing, and the answer is the page of the
  -- request with the total. The order of the database, `newest_first`, is taken to return stored packages only.
  pub list_packages-Page :
      (params : ListParams) (v : World)
      → Undisturbed o
      → (response : PackageListResponse) × (list_packages newest_first sort_desc o params v
          ≡ (ok response, v))
        × Answered (parse_tag_filter params.tags) params v.database response
  list_packages-Page params v calm =
      let (response, e) = list_packages_answers newest_first sort_desc o calm params v in
      (response, e, list_packages_ok params v response (ap (λ r. r.0) e))
