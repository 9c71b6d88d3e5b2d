-- ===== src/Embeddings/Table.antt =====
-- The table of vectors under the upsert of src/embeddings.rs, whose key is a package and a model.
use registry_api_contract.Prelude.{
  ◌≡◌, refl, sym, ap, subst, ◌∙◌, ◌⊎◌, ◌↔◌, inl, inr, Bool, true, false, false≢true, Bool-cases,
  some, List, [], ◌∷◌, ◌++◌, nat_eq_iff, any, find, map, In, In-map, In-map_inv, In-append_inv,
  In-append_left, none_of-In, arith, if◌then◌else◌,
}
use registry_api_contract.Db.{Uuid, Embedding}
use registry_api_contract.Text.Pieces.{same_text_iff, same_text_refl}
use registry_api_contract.State.{Dependencies, Outside}
use registry_api_contract.Embeddings.{Floats, same_space, re_embedded, upserted}

-- A package has one vector for a model, as the unique index demands.
abbrev pub OneEach : List Embedding → Type 0
OneEach rows =
    (a b : Embedding)
    → In a rows
    → In b rows
    → a.package_id ≡ b.package_id
    → a.embedding_model ≡ b.embedding_model
    → a ≡ b

module _ {F : Type 0} (fl : Floats F) (d : Dependencies) (o : Outside) (new : Embedding) where
  abbrev in_space : Embedding → Bool
  in_space = same_space fl d o new.package_id new.embedding_model

  abbrev turned : Embedding → Embedding
  turned old = if in_space old then re_embedded fl d o new old else old

  in_space_of :
      (x : Embedding)
      → x.package_id ≡ new.package_id
      → x.embedding_model ≡ new.embedding_model
      → in_space x ≡ true
  in_space_of x p m =
      rw (p, m, (nat_eq_iff new.package_id new.package_id).1 refl)
        (same_text_refl new.embedding_model)

  space_of :
      (x : Embedding)
      → in_space x ≡ true
      → (x.package_id ≡ new.package_id) × (x.embedding_model ≡ new.embedding_model)
  space_of x h = (
    (nat_eq_iff x.package_id new.package_id).0 (ground arith),
    (same_text_iff x.embedding_model new.embedding_model).0 (ground arith),
  )

  turned_in : (x : Embedding) → in_space x ≡ true → turned x ≡ re_embedded fl d o new x
  turned_in x h = rw h refl

  turned_out : (x : Embedding) → in_space x ≡ false → turned x ≡ x
  turned_out x h = rw h refl

  find-turned :
      (rows : List Embedding)
      → any in_space rows ≡ true
      → (x : Embedding) × (find in_space (map turned rows) ≡ some (re_embedded fl d o new x))
  find-turned [] h = cc
  find-turned (x ∷ rows) h = elim (Bool-cases (in_space x)) [
    | inl e ↦ (x, rw (turned_in x e, in_space_of (re_embedded fl d o new x) refl refl) refl)
    | inr e ↦ let (y, k) = find-turned rows (rw e at h) in (y, rw (turned_out x e, e) k)
  ]

  find_last :
      (rows : List Embedding)
      → any in_space rows ≡ false
      → find in_space (rows ++ new ∷ []) ≡ some new
  find_last [] h = rw (in_space_of new refl refl) refl
  find_last (x ∷ rows) h = elim (Bool-cases (in_space x)) [
    | inl e ↦ let k = rw e at h in cc
    | inr e ↦ rw e (find_last rows (rw e at h))
  ]

  -- The package's row for the model is the new one, under the identifier of the one it replaces.
  pub upserted_find :
      (rows : List Embedding)
      → (id : Uuid) × (find
            (same_space fl d o new.package_id new.embedding_model)
            (upserted fl d o new rows)
          ≡ some (record new { id = id }))
  upserted_find rows = elim (Bool-cases (any in_space rows)) [
    | inl e ↦ let (x, k) = find-turned rows e in (x.id, rw e k)
    | inr e ↦ (new.id, rw e (find_last rows e))
  ]

  same_turned :
      (x y : Embedding)
      → (turned x).package_id ≡ (turned y).package_id
      → (turned x).embedding_model ≡ (turned y).embedding_model
      → (x.package_id ≡ y.package_id) × (x.embedding_model ≡ y.embedding_model)
  same_turned x y p m =
      let (px, mx) = keeps_space x in
      let (py, my) = keeps_space y in (sym px ∙ p ∙ py, sym mx ∙ m ∙ my)
    where
      keeps_space :
          (z : Embedding)
          → ((turned z).package_id ≡ z.package_id)
            × ((turned z).embedding_model ≡ z.embedding_model)
      keeps_space z = elim (Bool-cases (in_space z)) [
        | inl e ↦ let (p, m) = space_of z e in rw (turned_in z e) (sym p, sym m)
        | inr e ↦ rw (turned_out z e) (refl, refl)
      ]

  clash_free :
      (rows : List Embedding) (x : Embedding)
      → any in_space rows ≡ false
      → In x rows
      → x.package_id ≡ new.package_id
      → x.embedding_model ≡ new.embedding_model
      → ⊥
  clash_free rows x e i p m = false≢true (sym (none_of-In in_space rows x e i) ∙ in_space_of x p m)

  pub upserted-OneEach : (rows : List Embedding) → OneEach rows → OneEach (upserted fl d o new rows)
  upserted-OneEach rows one = elim (Bool-cases (any in_space rows)) [
    | inl e ↦ rw e (λ a b i j p m.
        let (x, k, q) = In-map_inv turned rows a i in
        let (y, l, r) = In-map_inv turned rows b j in
        let (sp, sm) =
          same_turned x y (sym (ap (λ z. z.package_id) q) ∙ p ∙ ap (λ z. z.package_id) r)
            (sym (ap (λ z. z.embedding_model) q) ∙ m ∙ ap (λ z. z.embedding_model) r) in
        q ∙ ap turned (one x y k l sp sm) ∙ sym r)
    | inr e ↦ rw e (λ a b i j p m.
        appended e a b (In-append_inv a rows (new ∷ []) i) (In-append_inv b rows (new ∷ []) j) p m)
  ]
    where
      appended :
          any in_space rows ≡ false
          → (a b : Embedding) → In a rows ⊎ In a (new ∷ [])
          → In b rows ⊎ In b (new ∷ [])
          → a.package_id ≡ b.package_id
          → a.embedding_model ≡ b.embedding_model
          → a ≡ b
      appended e a b (inl i) (inl j) p m = one a b i j p m
      appended e a b (inl i) (inr (inl j)) p m =
          absurd (
            clash_free rows a e i (p ∙ ap (λ z. z.package_id) j)
              (m ∙ ap (λ z. z.embedding_model) j))
      appended e a b (inr (inl i)) (inl j) p m = absurd (
          clash_free rows b e j (sym p ∙ ap (λ z. z.package_id) i)
            (sym m ∙ ap (λ z. z.embedding_model) i))
      appended e a b (inr (inl i)) (inr (inl j)) p m = i ∙ sym j
      appended e a b (inr (inr i)) j p m = absurd i
      appended e a b i (inr (inr j)) p m = absurd j

  -- The vectors of other packages, and of other models, are the ones that there were.
  pub upserted_others :
      (rows : List Embedding) (x : Embedding)
      → same_space fl d o new.package_id new.embedding_model x ≡ false
      → In x rows ↔ In x (upserted fl d o new rows)
  upserted_others rows x out = elim (Bool-cases (any in_space rows)) [
    | inl e ↦ rw e (
      λ i. subst (λ y. In y (map turned rows)) (turned_out x out) (In-map turned rows x i),
      λ i.
          let (y, j, q) = In-map_inv turned rows x i in
          elim (Bool-cases (in_space y)) [
            | inl f ↦
                let same : x ≡ re_embedded fl d o new y = q ∙ turned_in y f in
                absurd (
                  false≢true (
                    sym out
                    ∙ in_space_of x (ap (λ z. z.package_id) same)
                        (ap (λ z. z.embedding_model) same)))
            | inr f ↦ rw (q ∙ turned_out y f) j
          ],
    )
    | inr e ↦ rw e (
      λ i. In-append_left x rows (new ∷ []) i,
      λ i. elim (In-append_inv x rows (new ∷ []) i) [
        | inl j ↦ j
        | inr j ↦ elim j [
          | inl q ↦ absurd (
              false≢true (
                sym out ∙ in_space_of x (ap (λ z. z.package_id) q) (ap (λ z. z.embedding_model) q)))
          | inr k ↦ absurd k
        ]
      ],
    )
  ]
