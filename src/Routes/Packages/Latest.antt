-- ===== src/Routes/Packages/Latest.antt =====
-- The `latest` version of src/routes/packages.rs and src/routes/mod.rs.
use registry_api_contract.Prelude.{
  String, ◌≡◌, refl, sym, ap, subst, ◌⊎◌, ◌↔◌, inl, inr, Bool, true, false, not, Bool-cases, none,
  some, List, [], ◌∷◌, map, keep, In, In-map, In-map_inv, In-keep, keep-In,
}
use registry_api_contract.Db.{Version}
use registry_api_contract.Routes.{latest_visible_version}

-- The contract of `sort_desc`: it keeps the versions, and puts one first that none of the others precedes.
pub record Sorts (precedes : String → String → Type 0) (sort_desc : List String → List String)
    : Type 0 where
  pub members : (vs : List String) (v : String) → In v (sort_desc vs) ↔ In v vs
  pub leads :
      (vs : List String) (v w : String) (rest : List String)
      → sort_desc vs ≡ v ∷ rest
      → In w rest
      → precedes v w

shown : (c : Bool) → not c ≡ true → c ≡ false
shown true h = cc
shown false h = refl

module _ (precedes : String → String → Type 0) (sort_desc : List String → List String) where
  -- Some row that is not yanked has the version, which precedes those of all such rows.
  abbrev pub Latest : List Version → String → Type 0
  Latest rows v =
      ((row : Version) × In row rows × (row.yanked ≡ false) × (row.version ≡ v))
      × ((row : Version)
          → In row rows
          → row.yanked ≡ false
          → (row.version ≡ v) ⊎ precedes v row.version)

  abbrev pub visible : List Version → List String
  visible rows = map (λ r. r.version) (keep (λ r. not r.yanked) rows)

  visible-In :
      (rows : List Version) (row : Version)
      → In row rows
      → row.yanked ≡ false
      → In row.version (visible rows)
  visible-In rows row i y =
      In-map (λ r. r.version) (keep (λ r. not r.yanked) rows) row
        (In-keep (λ r. not r.yanked) rows row i (ap not y))

  from_visible :
      (rows : List Version) (v : String)
      → In v (visible rows)
      → (row : Version) × In row rows × (row.yanked ≡ false) × (row.version ≡ v)
  from_visible rows v i =
      let (row, j, e) = In-map_inv (λ r. r.version) (keep (λ r. not r.yanked) rows) v i in
      let (k, t) = keep-In (λ r. not r.yanked) rows row j in (row, k, shown row.yanked t, sym e)

  latest_none :
      (rows : List Version)
      → sort_desc (visible rows) ≡ []
      → latest_visible_version sort_desc rows ≡ none
  unfolding latest_visible_version
  latest_none rows e = rw (latest_visible_version, e) refl

  latest_some :
      (rows : List Version) (v : String) (vs : List String)
      → sort_desc (visible rows) ≡ v ∷ vs
      → latest_visible_version sort_desc rows ≡ some v
  unfolding latest_visible_version
  latest_some rows v vs e = rw (latest_visible_version, e) refl

  sorted-In :
      (rows : List Version) (row : Version) (vs : List String)
      → Sorts precedes sort_desc
      → sort_desc (visible rows) ≡ vs
      → In row rows
      → row.yanked ≡ false
      → In row.version vs
  sorted-In rows row vs sorts e i y =
      subst (In row.version) e
        ((sorts.members (visible rows) row.version).1 (visible-In rows row i y))

  Latest-first :
      (rows : List Version) (v : String) (vs : List String)
      → Sorts precedes sort_desc
      → sort_desc (visible rows) ≡ v ∷ vs
      → Latest rows v
  Latest-first rows v vs sorts e = (
    from_visible rows v ((sorts.members (visible rows) v).0 (subst (In v) (sym e) (inl refl))),
    λ row i y. elim (sorted-In rows row (v ∷ vs) sorts e i y) [
      | inl same ↦ inl same
      | inr later ↦ inr (sorts.leads (visible rows) v row.version vs e later)
    ],
  )

  -- With a version order that sorts as documented: the latest visible version, where there is one, is that
  -- of a row that is not yanked, and precedes or equals the version of every such row, whenever it was
  -- published; and where there is none, every row is yanked.
  pub latest_visible_version_lem :
      (rows : List Version)
      → Sorts precedes sort_desc
      → ((v : String) → latest_visible_version sort_desc rows ≡ some v → Latest rows v)
        × (latest_visible_version sort_desc rows ≡ none
            → (row : Version) → In row rows
            → row.yanked ≡ true)
  latest_visible_version_lem rows sorts = go (sort_desc (visible rows)) refl
    where
      go :
          (vs : List String)
          → sort_desc (visible rows) ≡ vs
          → ((v : String) → latest_visible_version sort_desc rows ≡ some v → Latest rows v)
            × (latest_visible_version sort_desc rows ≡ none
                → (row : Version) → In row rows
                → row.yanked ≡ true)
      go [] e = (
        λ v h. let k = latest_none rows e in cc,
        λ h row i. elim (Bool-cases row.yanked) [
          | inl y ↦ y
          | inr y ↦ elim (sorted-In rows row [] sorts e i y) [ ]
        ],
      )
      go (v ∷ vs) e = (
        λ u h.
            let k = latest_some rows v vs e in
            let same : v ≡ u = cc in subst (Latest rows) same (Latest-first rows v vs sorts e),
        λ h row i. let k = latest_some rows v vs e in cc,
      )
