-- ===== src/Routes/Publish/Upsert.antt =====
-- The package row that a publish of src/routes/publish.rs creates or updates.
use registry_api_contract.Prelude.{
  ◌≡◌, refl, sym, ap, subst, ◌∙◌, ◌⊎◌, inl, inr, true, false, some, List, [], ◌∷◌, ◌++◌, map, any,
  any_of-In, none_of-In, In-append_inv, In-map, In-map_inv, In, In-append_left, find, find-some,
  if◌then◌else◌, Bool-cases,
}
use registry_api_contract.Db.{Package, done, package_clashes}
use registry_api_contract.Routes.{is_package}
use registry_api_contract.Routes.Publish.{upsert_row, updated_package}

-- What the upsert of `new` makes of a row.
abbrev pub upserted : Package → Package → Package
upserted new old = if is_package new.org_id new.name old then updated_package new old else old

upsert_row_present :
    (new : Package) (rows rows' : List Package)
    → any (is_package new.org_id new.name) rows ≡ true
    → upsert_row new rows ≡ done rows'
    → rows' ≡ map (upserted new) rows
unfolding upsert_row
upsert_row_present new rows rows' e h = let k = rw e at h in cc

upsert_row_absent :
    (new : Package) (rows rows' : List Package)
    → any (is_package new.org_id new.name) rows ≡ false
    → upsert_row new rows ≡ done rows'
    → rows' ≡ rows ++ new ∷ []
unfolding upsert_row
upsert_row_absent new rows rows' e h = elim (Bool-cases (any (package_clashes new) rows)) [
  | inl c ↦ let k = rw (e, c) at h in cc
  | inr c ↦ let k = rw (e, c) at h in cc
]

upserted_id : (new q : Package) → (upserted new q).id ≡ q.id
upserted_id new q = elim (Bool-cases (is_package new.org_id new.name q)) [
  | inl e ↦ rw e refl
  | inr e ↦ rw e refl
]

other_row : (new q : Package) → is_package new.org_id new.name q ≡ false → upserted new q ≡ q
other_row new q e = rw e refl

-- When the upsert of `new` stores a table, every old row is in it, with the new metadata where the
-- organisation and the name are those of `new` and otherwise as it was; and every row in it is one of
-- these, or is `new` itself where no old row had its organisation and name.
pub upsert_row_lem :
    (new : Package) (rows rows' : List Package)
    → upsert_row new rows ≡ done rows'
    → ((q : Package) → In q rows → In (upserted new q) rows')
      × ((p : Package)
          → In p rows'
          → ((q : Package) × In q rows × (p ≡ upserted new q))
            ⊎ ((p ≡ new) × (any (is_package new.org_id new.name) rows ≡ false)))
upsert_row_lem new rows rows' h = elim (Bool-cases (any (is_package new.org_id new.name) rows)) [
  | inl e ↦
      let all = upsert_row_present new rows rows' e h in
      (
        λ q i. subst (In (upserted new q)) (sym all) (In-map (upserted new) rows q i),
        λ p i. inl (In-map_inv (upserted new) rows p (subst (In p) all i)),
      )
  | inr e ↦
      let all = upsert_row_absent new rows rows' e h in
      (
        λ q i. subst (In (upserted new q)) (sym all) (
            In-append_left _ rows _
              (subst (λ x. In x rows) (sym (other_row new q (none_of-In _ rows q e i))) i)),
        λ p i. elim (In-append_inv p rows (new ∷ []) (subst (In p) all i)) [
          | inl j ↦ inl (p, j, sym (other_row new p (none_of-In _ rows p e j)))
          | inr j ↦ elim j [ inl same ↦ inr (same, e) | inr j' ↦ elim j' [ ] ]
        ],
      )
]

-- The identity of a package outlasts its upserts.
pub upsert_keeps_id :
    (new p pkg : Package) (rows rows' : List Package)
    → upsert_row new rows ≡ done rows'
    → find (is_package new.org_id new.name) rows' ≡ some pkg
    → ((q : Package) → In q rows → is_package new.org_id new.name q ≡ true → q ≡ p)
    → In p rows
    → is_package new.org_id new.name p ≡ true
    → pkg.id ≡ p.id
upsert_keeps_id new p pkg rows rows' h f one here is_p =
    let (member, hit) = find-some (is_package new.org_id new.name) rows' pkg f in
    let (_, sources) = upsert_row_lem new rows rows' h in
    elim (sources pkg member) [
      | inl (q, i, e) ↦ elim (Bool-cases (is_package new.org_id new.name q)) [
        | inl t ↦ let same = one q i t in ap (λ x. x.id) e ∙ upserted_id new q ∙ ap (λ x. x.id) same
        | inr t ↦
            let same = other_row new q t in
            let found = subst (λ x. is_package new.org_id new.name x ≡ true) (e ∙ same) hit in cc
      ]
      | inr (e, none_there) ↦
          let there = any_of-In (is_package new.org_id new.name) rows p here is_p in cc
    ]
