-- ===== src/Routes/Semantic/Ranking.antt =====
-- What `semantic_search` of src/routes/semantic.rs answers.
use registry_api_contract.Prelude.{
  ℕ, zero, suc, ◌-◌, ◌≤◌, min, max, ◌≡◌, refl, ap, ◌*◌, ◌∙◌, inl, inr, true, false, Option, none,
  some, Option-cases, List, [], ◌∷◌, ◌++◌, find, take, length, replicate, leb, arith,
}
use registry_api_contract.Error.{ok}
use registry_api_contract.Db.{Org, Package, Embedding}
use registry_api_contract.Text.{Text}
use registry_api_contract.Search.{parse_tag_filter}
use registry_api_contract.Search.Tags.{join_tags}
use registry_api_contract.State.{
  Database, World, AppState, Outside, Handler, answer, ◌>>=◌, query, require, find_neighbor,
  nearest,
}
use registry_api_contract.Embeddings.{
  Floats, Neighbor, vector_dim, valid_model, to_pgvector_literal, search_embeddings,
}
use registry_api_contract.Embeddings.Padding.{Fits, pad_to_dim_of}
use registry_api_contract.Routes.Semantic.{
  SemanticSearchRequest, SemanticHit, require_pg, vector_unsupported, has_package_id, related,
  raw_limit, fetch_limit, shown, proceed, semantic_items, semantic_search,
}

bind_ok :
    {A B : Type 0} (m : Handler A) (f : A → Handler B) (w : World) (a : A)
    → m w ≡ (ok a, w)
    → (m >>= f) w ≡ f a w
unfolding ◌>>=◌
bind_ok m f w a h = rw h refl

raw_limit_bounds : (limit : ℕ) → (1 ≤ raw_limit limit) × (raw_limit limit ≤ 100)
raw_limit_bounds limit = (omega arith, omega arith)

fetch_limit_bounds :
    (want : List Text) (raw : ℕ)
    → 1 ≤ raw
    → raw ≤ 100
    → min (max (fetch_limit want raw) 1) 100 ≡ fetch_limit want raw
fetch_limit_bounds [] raw a b = omega arith
fetch_limit_bounds (t ∷ ts) raw a b = omega arith

-- How many neighbours are asked for: as many as are shown, or with tags up to four times as many.
abbrev pub wanted_neighbors : List Text → ℕ → ℕ
wanted_neighbors [] limit = min (max limit 1) 100
wanted_neighbors (t ∷ ts) limit = min (min (max limit 1) 100 * 4) 100

fetch_limit_lem :
    (want : List Text) (limit : ℕ)
    → fetch_limit want (raw_limit limit) ≡ wanted_neighbors want limit
fetch_limit_lem [] limit = refl
fetch_limit_lem (t ∷ ts) limit = refl

module _ {F D : Type 0} (fl : Floats F)
    (ranked : Text → Text → ℕ → List Embedding → List (Neighbor D)) (s : AppState)
    (o : Outside) where
  abbrev pub row_of : Database → Neighbor D → Option (Package × Option Org)
  row_of db n = related db (find (has_package_id n.package_id) db.packages)

  abbrev pub with_item : Option (SemanticHit D) → List (SemanticHit D) → List (SemanticHit D)
  with_item none items = items
  with_item (some item) items = item ∷ items

  -- The items of all neighbours, in their order.
  abbrev pub all_items : List Text → Database → List (Neighbor D) → List (SemanticHit D)
  all_items want db [] = []
  all_items want db (n ∷ ns) =
      with_item (shown fl ranked s o want n (row_of db n)) (all_items want db ns)

  step :
      (want : List Text) (room : ℕ) (n : Neighbor D) (ns : List (Neighbor D)) (w : World)
      → o.fails find_neighbor ≡ false
      → semantic_items fl ranked s o want room (n ∷ ns) w
        ≡ proceed fl ranked s o
            (shown fl ranked s o want n (row_of w.database n))
            room
            (λ k. semantic_items fl ranked s o want k ns)
            w
  unfolding semantic_items ◌>>=◌ query
  step want room n ns w f = rw f refl

  semantic_items-take :
      (want : List Text) (room : ℕ) (ns : List (Neighbor D)) (w : World)
      → o.fails find_neighbor ≡ false
      → semantic_items fl ranked s o want (suc room) ns w
        ≡ (ok (take (suc room) (all_items want w.database ns)), w)
  unfolding semantic_items ◌>>=◌ query
  semantic_items-take want room [] w f = refl
  semantic_items-take want zero (n ∷ ns) w f =
      step want 1 n ns w f
      ∙ elim (Option-cases (shown fl ranked s o want n (row_of w.database n))) [
        | inl e ↦ rw e (semantic_items-take want zero ns w f)
        | inr (item, e) ↦ rw e refl
      ]
  semantic_items-take want (suc room) (n ∷ ns) w f =
      step want (suc (suc room)) n ns w f
      ∙ elim (Option-cases (shown fl ranked s o want n (row_of w.database n))) [
        | inl e ↦ rw e (semantic_items-take want (suc room) ns w f)
        | inr (item, e) ↦ rw e (more item room ns (semantic_items-take want room ns w f))
      ]
    where
      more :
          (item : SemanticHit D) (room : ℕ) (ns : List (Neighbor D))
          → semantic_items fl ranked s o want (suc room) ns w
            ≡ (ok (take (suc room) (all_items want w.database ns)), w)
          → proceed fl ranked s o
              (some item)
              (suc (suc room))
              (λ k. semantic_items fl ranked s o want k ns)
              w
            ≡ (ok (item ∷ take (suc room) (all_items want w.database ns)), w)
      more item room ns h =
          let far : leb (suc (suc room)) 1 ≡ false = ground arith in
          let less : suc (suc room) - 1 ≡ suc room = omega arith in
          rw (far, less)
            (bind_ok (semantic_items fl ranked s o want (suc room) ns)
              (λ items. answer (item ∷ items)) w (take (suc room) (all_items want w.database ns)) h)

  -- The neighbours that the database ranks for a request.
  abbrev pub neighbors : List Text → SemanticSearchRequest F → Database → List (Neighbor D)
  neighbors want r db =
      ranked
        (to_pgvector_literal fl (r.embedding ++ replicate (vector_dim - length r.embedding) fl.nil))
        r.model (wanted_neighbors want r.limit) db.embeddings

  search_embeddings_of :
      (model : Text) (v : List F) (limit : ℕ) (w : World)
      → valid_model model ≡ true
      → Fits fl v
      → o.fails nearest ≡ false
      → min (max limit 1) 100 ≡ limit
      → search_embeddings fl ranked o model v limit w ≡ (
        ok (
            ranked
              (to_pgvector_literal fl (v ++ replicate (vector_dim - length v) fl.nil))
              model
              limit
              w.database.embeddings),
        w,
      )
  unfolding search_embeddings ◌>>=◌ require
  search_embeddings_of model v limit w valid fits f same =
      rw (valid, pad_to_dim_of fl v fits, f, same) refl

  pub semantic_search-take :
      (r : SemanticSearchRequest F) (w : World)
      → s.is_postgres ≡ true
      → valid_model r.model ≡ true
      → Fits fl r.embedding
      → o.fails nearest ≡ false
      → o.fails find_neighbor ≡ false
      → semantic_search fl ranked s o r w ≡ (
        ok (
            take (raw_limit r.limit) (
              all_items
                (parse_tag_filter (some (join_tags r.tags)))
                w.database
                (neighbors (parse_tag_filter (some (join_tags r.tags))) r w.database))),
        w,
      )
  unfolding semantic_search require_pg require
  semantic_search-take r w pg valid fits f g =
      let want = parse_tag_filter (some (join_tags r.tags)) in
      let (low, high) = raw_limit_bounds r.limit in
      let found =
        search_embeddings_of r.model r.embedding (fetch_limit want (raw_limit r.limit)) w valid fits
          f (fetch_limit_bounds want (raw_limit r.limit) low high)
        ∙ ap
            (λ k. (
              ok (
                  ranked
                    (to_pgvector_literal fl
                      (r.embedding ++ replicate (vector_dim - length r.embedding) fl.nil))
                    r.model k w.database.embeddings),
              w,
            ))
            (fetch_limit_lem want r.limit) in
      bind_ok (require s.is_postgres vector_unsupported) _ w tt (rw pg refl)
      ∙ bind_ok
          (search_embeddings fl ranked o r.model r.embedding (fetch_limit want (raw_limit r.limit)))
          _ w (neighbors want r w.database) found
      ∙ at_room want (raw_limit r.limit) (neighbors want r w.database) w low g
    where
      at_room :
          (want : List Text) (room : ℕ) (ns : List (Neighbor D)) (w : World)
          → 1 ≤ room
          → o.fails find_neighbor ≡ false
          → semantic_items fl ranked s o want room ns w
            ≡ (ok (take room (all_items want w.database ns)), w)
      at_room want zero ns w low g = absurd (omega arith)
      at_room want (suc room) ns w low g = semantic_items-take want room ns w g
