-- ===== src/Routes/Finding/Matching.antt =====
-- Which rows the search of src/routes/search.rs matches and shows.
use registry_api_contract.Prelude.{
  String, ◌≡◌, ◌⊎◌, inl, inr, refl, ap, arith, Bool, true, Bool-cases, Option, none, some, List, [],
  ◌∷◌, ◌++◌, map, ◌↔◌, keep,
}
use registry_api_contract.Db.{Org, Package}
use registry_api_contract.Text.{Text, codes}
use registry_api_contract.Search.{has_all_tags, contains_escaped}
use registry_api_contract.Search.Like.{Matches, contains_escaped-contains}
use registry_api_contract.State.{Outside}
use registry_api_contract.Routes.{tags_of}
use registry_api_contract.Routes.Listing.{summaries, carries}
use registry_api_contract.Routes.Finding.{like_nullable, matches_query, show_row, search_items}

-- The text has the query in it, as it is written.
abbrev pub Contains : Text → Text → Type 0
Contains q s = (before : Text) × (after : Text) × (s ≡ before ++ (q ++ after))

-- The query is in the name or the description.
abbrev pub NamedPackage : Text → Package → Type 0
NamedPackage q p =
    Contains q (codes p.name)
    ⊎ ((text : String) × (p.description ≡ some text) × Contains q (codes text))

module _ (like : Text → Text → Bool) (as_found : List Package → List Package)
    (sort_desc : List String → List String) (o : Outside)
    (like-Matches : (pattern s : Text) → (like pattern s ≡ true) ↔ Matches pattern s) where
  -- The loop of the search is the one of the listing, on the rows that carry the tags.
  pub search_items-summaries :
      (want : List Text) (rows : List (Package × Option Org))
      → search_items like as_found sort_desc o want rows
        ≡ summaries as_found sort_desc o (keep (carries want) rows)
  unfolding search_items summaries carries
  search_items-summaries want [] = refl
  search_items-summaries want ((p, none) ∷ rows) =
      let rest = search_items-summaries want rows in
      elim (Bool-cases (has_all_tags (map codes (tags_of p)) want)) [
        | inl e ↦ rw e rest
        | inr e ↦ rw e rest
      ]
  search_items-summaries want ((p, some org) ∷ rows) =
      let rest = search_items-summaries want rows in
      elim (Bool-cases (has_all_tags (map codes (tags_of p)) want)) [
        | inl e ↦ rw e (ap (show_row like as_found sort_desc o p org) rest)
        | inr e ↦ rw e rest
      ]

  pub like_nullable-Contains :
      (q : Text) (description : Option String)
      → like_nullable (like (contains_escaped q)) description ≡ true
      → (text : String) × (description ≡ some text) × Contains q (codes text)
  like_nullable-Contains q none h = cc
  like_nullable-Contains q (some text) h = (
    text,
    refl,
    (contains_escaped-contains q (codes text)).0
        ((like-Matches (contains_escaped q) (codes text)).0 h),
  )

  pub matches_query-Contains :
      (q : Text) (p : Package) (org : Option Org)
      → matches_query like as_found sort_desc o q (p, org) ≡ true
      → Contains q (codes p.name)
        ⊎ ((text : String) × (p.description ≡ some text) × Contains q (codes text))
  matches_query-Contains q p org h = elim (Bool-cases (like (contains_escaped q) (codes p.name))) [
    | inl e ↦ inl (
        (contains_escaped-contains q (codes p.name)).0
          ((like-Matches (contains_escaped q) (codes p.name)).0 e))
    | inr e ↦ inr (like_nullable-Contains q p.description (rw e at h))
  ]

  pub Contains-like : (q s : Text) → Contains q s → like (contains_escaped q) s ≡ true
  Contains-like q s c =
      (like-Matches (contains_escaped q) s).1 ((contains_escaped-contains q s).1 c)

  pub Contains-matches_query :
      (q : Text) (p : Package) (org : Org)
      → NamedPackage q p
      → matches_query like as_found sort_desc o q (p, some org) ≡ true
  Contains-matches_query q p org (inl c) = rw (Contains-like q (codes p.name) c) refl
  Contains-matches_query q p org (inr (text, e, c)) =
      let hit : like_nullable (like (contains_escaped q)) p.description ≡ true =
        rw e (Contains-like q (codes text) c) in
      ground (arith, hit)
