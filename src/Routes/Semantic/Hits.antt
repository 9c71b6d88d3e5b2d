-- ===== src/Routes/Semantic/Hits.antt =====
-- Which packages `semantic_search` of src/routes/semantic.rs shows.
use registry_api_contract.Prelude.{
  ℕ, min, max, ◌≤◌, ◌≡◌, refl, sym, ap, subst, ◌∙◌, ◌⊎◌, inl, inr, true, false, Bool-cases, Option,
  none, some, Option-cases, List, [], ◌∷◌, In, All, find, map, take, length, length-take, arith,
}
use registry_api_contract.Error.{ok}
use registry_api_contract.Db.{Org, Package, Embedding}
use registry_api_contract.Text.{Text, codes}
use registry_api_contract.Search.{has_all_tags}
use registry_api_contract.Search.Tags.{IsTag, has_all_tags_iff, parse_tag_filter-join}
use registry_api_contract.State.{Database, World, AppState, Outside, find_neighbor, nearest}
use registry_api_contract.Routes.{tags_of}
use registry_api_contract.Routes.Listing.{has_org_id}
use registry_api_contract.Routes.Listing.Pages.{In-take}
use registry_api_contract.Embeddings.{Floats, Neighbor, valid_model}
use registry_api_contract.Embeddings.Padding.{Fits}
use registry_api_contract.Routes.Semantic.{
  SemanticSearchRequest, SemanticHit, has_package_id, raw_limit, hit, shown, semantic_search,
}
use registry_api_contract.Routes.Semantic.Ranking.{
  row_of, all_items, neighbors, semantic_search-take,
}

module _ {F D : Type 0} (fl : Floats F)
    (ranked : Text → Text → ℕ → List Embedding → List (Neighbor D)) (s : AppState)
    (o : Outside) where
  -- An item shows a neighbour: a stored package, with the organisation that its identifier finds and every tag wanted.
  pub record Shows (want : List Text) (db : Database) (ns : List (Neighbor D))
      (item : SemanticHit D) : Type 0 where
    pub neighbor : Neighbor D
    pub pkg : Package
    pub org : Org
    pub near : In neighbor ns
    pub found : find (has_package_id neighbor.package_id) db.packages ≡ some pkg
    pub owned : find (has_org_id pkg.org_id) db.orgs ≡ some org
    pub tagged : (t : Text) → In t want → In t (map codes (tags_of pkg))
    pub slug : item.org ≡ org.slug
    pub name : item.name ≡ pkg.name
    pub description : item.description ≡ pkg.description
    pub distance : item.distance ≡ neighbor.distance
    pub tags : item.tags ≡ tags_of pkg

  shown_some :
      (want : List Text) (n : Neighbor D) (p : Package) (org : Option Org) (item : SemanticHit D)
      → shown fl ranked s o want n (some (p, org)) ≡ some item
      → (q : Org) × (org ≡ some q)
        × (has_all_tags (map codes (tags_of p)) want ≡ true)
        × (item ≡ hit fl ranked s o p q n.distance)
  shown_some want n p none item h = cc
  shown_some want n p (some q) item h =
      elim (Bool-cases (has_all_tags (map codes (tags_of p)) want)) [
        | inl e ↦ let k = rw e at h in (q, refl, e, cc)
        | inr e ↦ let k = rw e at h in cc
      ]

  row_of-Shows :
      (want : List Text) (db : Database) (ns : List (Neighbor D)) (n : Neighbor D)
      (item : SemanticHit D)
      → In n ns
      → shown fl ranked s o want n (row_of fl ranked s o db n) ≡ some item
      → Shows want db ns item
  row_of-Shows want db ns n item i h =
      elim (Option-cases (find (has_package_id n.package_id) db.packages)) [
        | inl e ↦ let k = rw (e, shown) at h in cc
        | inr (p, e) ↦
            let (q, owned, tags, described) =
              shown_some want n p (find (has_org_id p.org_id) db.orgs) item (rw e at h) in
            record {
              neighbor = n;
              pkg = p;
              org = q;
              near = i;
              found = e;
              owned = owned;
              tagged = (has_all_tags_iff (map codes (tags_of p)) want).0 tags;
              slug = ap (λ x. x.org) described;
              name = ap (λ x. x.name) described;
              description = ap (λ x. x.description) described;
              distance = ap (λ x. x.distance) described;
              tags = ap (λ x. x.tags) described;
            }
      ]

  all_items-Shows :
      (want : List Text) (db : Database) (all ns : List (Neighbor D)) (item : SemanticHit D)
      → ((n : Neighbor D) → In n ns → In n all)
      → In item (all_items fl ranked s o want db ns)
      → Shows want db all item
  all_items-Shows want db all [] item sub i = elim i [ ]
  all_items-Shows want db all (n ∷ ns) item sub i =
      elim (Option-cases (shown fl ranked s o want n (row_of fl ranked s o db n))) [
        | inl e ↦ all_items-Shows want db all ns item (λ m j. sub m (inr j)) (rw e at i)
        | inr (x, e) ↦
            elim (let k : (item ≡ x) ⊎ In item (all_items fl ranked s o want db ns) = rw e at i in
              k) [
                | inl same ↦
                    row_of-Shows want db all n item (sub n (inl refl)) (e ∙ ap some (sym same))
                | inr j ↦ all_items-Shows want db all ns item (λ m l. sub m (inr l)) j
              ]
      ]

  shown_hit :
      (want : List Text) (db : Database) (n : Neighbor D) (p : Package) (q : Org)
      → find (has_package_id n.package_id) db.packages ≡ some p
      → find (has_org_id p.org_id) db.orgs ≡ some q
      → ((t : Text) → In t want → In t (map codes (tags_of p)))
      → shown fl ranked s o want n (row_of fl ranked s o db n)
        ≡ some (hit fl ranked s o p q n.distance)
  shown_hit want db n p q e f t =
      rw (e, f, (has_all_tags_iff (map codes (tags_of p)) want).1 t) refl

  all_items-In :
      (want : List Text) (db : Database) (ns : List (Neighbor D)) (n : Neighbor D)
      (item : SemanticHit D)
      → In n ns
      → shown fl ranked s o want n (row_of fl ranked s o db n) ≡ some item
      → In item (all_items fl ranked s o want db ns)
  all_items-In want db [] n item i e = elim i [ ]
  all_items-In want db (m ∷ ns) n item (inl same) e =
      let here =
        subst (λ k. shown fl ranked s o want k (row_of fl ranked s o db k) ≡ some item) same e in
      rw here (inl refl)
  all_items-In want db (m ∷ ns) n item (inr i) e =
      let there = all_items-In want db ns n item i e in
      elim (Option-cases (shown fl ranked s o want m (row_of fl ranked s o db m))) [
        | inl f ↦ rw f there
        | inr (x, f) ↦ rw f (inr there)
      ]

  -- On Postgres, with a valid model and a vector that fits, and when no statement fails, semantic search answers and
  -- changes nothing. It shows the first items, up to the limit taken into 1 to 100, of those that the neighbours
  -- yield in the order of the database, where every neighbour that can be shown yields one; the neighbours are as
  -- many as the limit, or with tags four times as many, up to 100. Each item shows a neighbour that is a stored package with every tag that was asked
  -- for: its name, its description and its tags, the slug of the organisation that its identifier finds, and the
  -- neighbour's distance. The tags that were asked for are taken to
  -- be ones that the comma-separated form can carry.
  pub semantic_search-Shows :
      (r : SemanticSearchRequest F) (w : World)
      → s.is_postgres ≡ true
      → valid_model r.model ≡ true
      → Fits fl r.embedding
      → All IsTag r.tags
      → o.fails nearest ≡ false
      → o.fails find_neighbor ≡ false
      → (items : List (SemanticHit D)) × (semantic_search fl ranked s o r w ≡ (ok items, w))
        × (items
            ≡ take (min (max r.limit 1) 100) (
                all_items fl ranked s o r.tags w.database
                  (neighbors fl ranked s o r.tags r w.database)))
        × ((n : Neighbor D) (p : Package) (q : Org)
            → In n (neighbors fl ranked s o r.tags r w.database)
            → find (has_package_id n.package_id) w.database.packages ≡ some p
            → find (has_org_id p.org_id) w.database.orgs ≡ some q
            → ((t : Text) → In t r.tags → In t (map codes (tags_of p)))
            → (item : SemanticHit D) × In item (
                all_items fl ranked s o r.tags w.database
                  (neighbors fl ranked s o r.tags r w.database))
              × (item.org ≡ q.slug)
              × (item.name ≡ p.name)
              × (item.distance ≡ n.distance))
        × (length items ≤ 100)
        × ((item : SemanticHit D)
            → In item items
            → Shows r.tags w.database (neighbors fl ranked s o r.tags r w.database) item)
  semantic_search-Shows r w pg valid fits tags f g =
      let ns = neighbors fl ranked s o r.tags r w.database in
      let whole = all_items fl ranked s o r.tags w.database ns in
      let e =
        subst
          (λ want. semantic_search fl ranked s o r w ≡ (
            ok (
                take (raw_limit r.limit) (
                  all_items fl ranked s o want w.database
                    (neighbors fl ranked s o want r w.database))),
            w,
          ))
          (parse_tag_filter-join r.tags tags)
          (semantic_search-take fl ranked s o r w pg valid fits f g) in
      let few = length-take (raw_limit r.limit) whole in
      (
        take (raw_limit r.limit) whole,
        e,
        refl,
        λ n p q i e f t. (
          hit fl ranked s o p q n.distance,
          all_items-In r.tags w.database ns n _ i (shown_hit r.tags w.database n p q e f t),
          refl,
          refl,
          refl,
        ),
        omega (arith, few),
        λ item i.
            all_items-Shows r.tags w.database ns ns item (λ n j. j)
              (In-take (raw_limit r.limit) whole item i),
      )
