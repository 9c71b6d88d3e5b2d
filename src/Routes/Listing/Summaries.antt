-- ===== src/Routes/Listing/Summaries.antt =====
-- What the summaries of src/routes/list.rs show.
use registry_api_contract.Prelude.{
  ◌≤◌, String, ◌≡◌, refl, ap, subst, inl, inr, arith, Option, none, some, List, [], ◌∷◌, In, keep,
  length,
}
use registry_api_contract.Error.{ok, ok_injective}
use registry_api_contract.Db.{Org, Package}
use registry_api_contract.State.{Database, World, Outside}
use registry_api_contract.State.Effects.{
  Keeps, Keeps->>=, Unchanged, Unchanged-trans, lift-Keeps, query-Keeps, through_kept,
  through_query,
}
use registry_api_contract.Routes.Packages.{in_package}
use registry_api_contract.Routes.Listing.{PackageSummary, summary, summaries}

module _ (newest_first : List Package → List Package) (sort_desc : List String → List String)
    (o : Outside) where
  pub summaries-Keeps :
      (rows : List (Package × Option Org))
      → Keeps Unchanged (summaries newest_first sort_desc o rows)
  unfolding summaries
  summaries-Keeps [] = lift-Keeps (ok [])
  summaries-Keeps ((p, none) ∷ rows) = summaries-Keeps rows
  summaries-Keeps ((p, some org) ∷ rows) = Keeps->>= Unchanged-trans (query-Keeps _ _) λ versions.
      Keeps->>= Unchanged-trans (summaries-Keeps rows)
        λ rest. lift-Keeps (ok (summary newest_first sort_desc o p org versions ∷ rest))

  -- An item describes a row: a package with its organisation, and its versions as stored.
  abbrev pub Describes : Database → PackageSummary → Package → Org → Type 0
  Describes db item p org =
      item ≡ summary newest_first sort_desc o p org (keep (in_package p.id) db.versions)

  -- The items of some rows: no more than there are, each of a row that has an organisation, and one for
  -- every such row.
  pub record Summarised (rows : List (Package × Option Org)) (db : Database)
      (items : List PackageSummary) : Type 0 where
    pub few : length items ≤ length rows
    pub each :
        (item : PackageSummary)
        → In item items
        → (p : Package) × (org : Org) × In (p, some org) rows × Describes db item p org
    pub shown :
        (p : Package) (org : Org)
        → In (p, some org) rows
        → In (summary newest_first sort_desc o p org (keep (in_package p.id) db.versions)) items

  some_inj : {x y : Org} → some x ≡ some y → x ≡ y
  some_inj e = cc

  same_summary :
      (db : Database) {p q : Package} {org org' : Org}
      → p ≡ q
      → org ≡ org'
      → summary newest_first sort_desc o p org (keep (in_package p.id) db.versions)
        ≡ summary newest_first sort_desc o q org' (keep (in_package q.id) db.versions)
  same_summary db e f = rw (e, f) refl

  pub summaries_ok :
      (rows : List (Package × Option Org)) (v : World) (items : List PackageSummary)
      → (summaries newest_first sort_desc o rows v).0 ≡ ok items
      → Summarised rows v.database items
  unfolding summaries
  summaries_ok [] v items h =
      subst (Summarised [] v.database) (ok_injective h)
        (record { few = omega arith; each = λ item i. elim i [ ]; shown = λ p org i. elim i [ ] })
  summaries_ok ((p, none) ∷ rows) v items h =
      let s = summaries_ok rows v items h in
      record {
        few = let k = s.few in omega (arith, k);
        each = λ item i. let (q, org, j, e) = s.each item i in (q, org, inr j, e);
        shown = λ q org i. elim i [
          | inl e ↦ let clash : some org ≡ none = ap (λ r. r.1) e in cc
          | inr j ↦ s.shown q org j
        ];
      }
  summaries_ok ((p, some org) ∷ rows) v items h =
      through_query (λ x. Summarised ((p, some org) ∷ rows) v.database items) _ _ _ h
        λ h1.
          through_kept (λ x. Summarised ((p, some org) ∷ rows) v.database items) _
            (summaries-Keeps rows) h1
            λ rest found h2.
              let s = summaries_ok rows v rest found in
              subst (Summarised ((p, some org) ∷ rows) v.database) (ok_injective h2) (record {
                few = let k = s.few in omega (arith, k);
                each = λ item i. elim i [
                  | inl e ↦ (p, org, inl refl, e)
                  | inr j ↦ let (q, org', k, e) = s.each item j in (q, org', inr k, e)
                ];
                shown = λ q org' i. elim i [
                  | inl e ↦
                      inl (same_summary v.database (ap (λ r. r.0) e) (some_inj (ap (λ r. r.1) e)))
                  | inr j ↦ inr (s.shown q org' j)
                ];
              })
