-- ===== src/Routes/Publish/Metadata.antt =====
-- The package row and the version row that a publish of src/routes/publish.rs stores, field by field.
use registry_api_contract.Prelude.{
  ◌≡◌, refl, sym, ap, subst, ◌∙◌, ◌⊎◌, inl, inr, true, false, eq_iff, nat_eq_iff, arith, some, In,
  List, find, find-some, length, Bool-cases, map, false≢true,
}
use registry_api_contract.Db.{Org, Package, Version, array, done}
use registry_api_contract.Storage.{Bytes}
use registry_api_contract.State.{Dependencies, Outside}
use registry_api_contract.Routes.{is_package}
use registry_api_contract.Routes.Payload.{Manifest, PublishMeta, PublishRequest}
use registry_api_contract.Routes.Publish.{package_row, version_row, upsert_row, updated_package}
use registry_api_contract.Routes.Publish.Upsert.{upserted, upsert_row_lem}

-- The package row `pkg` of an organisation has the request's name and the manifest's metadata.
pub record Carries (org : Org) (r : PublishRequest) (m : Manifest) (pkg : Package) : Type 0 where
  pub org_id : pkg.org_id ≡ org.id
  pub name : pkg.name ≡ r.name
  pub description : pkg.description ≡ m.description
  pub vcs : pkg.vcs ≡ m.vcs
  pub repo_url : pkg.repo_url ≡ m.repo_url
  pub version_scheme : pkg.version_scheme ≡ m.version_scheme
  pub tags : pkg.tags ≡ array (map some m.keywords)

module _ (d : Dependencies) (o : Outside) where
  -- The version row of the request in the package `pkg`.
  pub record Row (pkg : Package) (r : PublishRequest) (meta : PublishMeta) (artifact : Bytes)
      (row : Version) : Type 0 where
    pub package_id : row.package_id ≡ pkg.id
    pub version : row.version ≡ r.version
    pub sha256 : row.sha256 ≡ d.sha256_bytes artifact
    pub size : row.size ≡ length artifact
    pub format : row.format ≡ meta.extension
    pub vcs_tag : row.vcs_tag ≡ meta.vcs_tag
    pub vcs_commit : row.vcs_commit ≡ meta.vcs_commit
    pub yanked : row.yanked ≡ false
    pub published_at : row.published_at ≡ o.now

  pub version_row-Row :
      (pkg : Package) (r : PublishRequest) (meta : PublishMeta) (artifact : Bytes)
      → Row pkg r meta artifact
          (version_row o pkg r.version (d.sha256_bytes artifact) (length artifact) meta)
  unfolding version_row
  version_row-Row pkg r meta artifact = record {
    package_id = refl;
    version = refl;
    sha256 = refl;
    size = refl;
    format = refl;
    vcs_tag = refl;
    vcs_commit = refl;
    yanked = refl;
    published_at = refl;
  }

  same_package :
      (org : Org) (r : PublishRequest) (q : Package)
      → is_package org.id r.name q ≡ true
      → (q.org_id ≡ org.id) × (q.name ≡ r.name)
  same_package org r q t =
      (ground (arith, nat_eq_iff q.org_id org.id, t), ground (arith, eq_iff q.name r.name, t))

  package_row-Carries :
      (org : Org) (r : PublishRequest) (meta : PublishMeta)
      → Carries org r meta.manifest (package_row o org r.name meta)
  unfolding package_row
  package_row-Carries org r meta = record {
    org_id = refl;
    name = refl;
    description = refl;
    vcs = refl;
    repo_url = refl;
    version_scheme = refl;
    tags = refl;
  }

  updated-Carries :
      (org : Org) (r : PublishRequest) (meta : PublishMeta) (q : Package)
      → is_package org.id r.name q ≡ true
      → Carries org r meta.manifest (updated_package (package_row o org r.name meta) q)
  unfolding package_row
  updated-Carries org r meta q t =
      let (i, n) = same_package org r q t in
      record {
        org_id = i;
        name = n;
        description = refl;
        vcs = refl;
        repo_url = refl;
        version_scheme = refl;
        tags = refl;
      }

  package_row_key :
      (org : Org) (r : PublishRequest) (meta : PublishMeta) (q : Package)
      → is_package (package_row o org r.name meta).org_id (package_row o org r.name meta).name q
        ≡ is_package org.id r.name q
  unfolding package_row
  package_row_key org r meta q = refl

  upserted_hit :
      (org : Org) (r : PublishRequest) (meta : PublishMeta) (q : Package)
      → is_package org.id r.name q ≡ true
      → upserted (package_row o org r.name meta) q
        ≡ updated_package (package_row o org r.name meta) q
  upserted_hit org r meta q t = rw (package_row_key org r meta q, t) refl

  upserted_miss :
      (org : Org) (r : PublishRequest) (meta : PublishMeta) (q : Package)
      → is_package org.id r.name q ≡ false
      → upserted (package_row o org r.name meta) q ≡ q
  upserted_miss org r meta q t = rw (package_row_key org r meta q, t) refl

  -- The package that is read back has the metadata, and every other package is still there.
  pub upsert-Carries :
      (org : Org) (r : PublishRequest) (meta : PublishMeta) (rows rows' : List Package)
      (pkg : Package)
      → upsert_row (package_row o org r.name meta) rows ≡ done rows'
      → find (is_package org.id r.name) rows' ≡ some pkg
      → In pkg rows'
        × Carries org r meta.manifest pkg
        × ((q : Package) → In q rows → In q rows' ⊎ ((q.org_id ≡ org.id) × (q.name ≡ r.name)))
  upsert-Carries org r meta rows rows' pkg h f =
      let new = package_row o org r.name meta in
      let (member, hit) = find-some (is_package org.id r.name) rows' pkg f in
      let (kept, sources) = upsert_row_lem new rows rows' h in
      (
        member,
        elim (sources pkg member) [
          | inl (q, i, e) ↦ elim (Bool-cases (is_package org.id r.name q)) [
            | inl t ↦
                subst (Carries org r meta.manifest) (sym (e ∙ upserted_hit org r meta q t))
                  (updated-Carries org r meta q t)
            | inr t ↦ absurd (
                false≢true (
                  sym t
                  ∙ ap (is_package org.id r.name) (sym (e ∙ upserted_miss org r meta q t))
                  ∙ hit))
          ]
          | inr (e, absent) ↦
              subst (Carries org r meta.manifest) (sym e) (package_row-Carries org r meta)
        ],
        λ q i. elim (Bool-cases (is_package org.id r.name q)) [
          | inl t ↦ inr (same_package org r q t)
          | inr t ↦ inl (subst (λ x. In x rows') (upserted_miss org r meta q t) (kept q i))
        ],
      )
