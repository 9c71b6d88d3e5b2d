-- ===== src/Routes/Semantic/Writes.antt =====
-- What `upsert_embedding` of src/routes/semantic.rs writes.
use registry_api_contract.Prelude.{
  ◌≡◌, refl, sym, subst, ◌↔◌, inl, inr, true, false, Bool-cases, some, List, In, find, [], ◌∷◌,
  ◌++◌, ap, ◌∙◌, map, length, append_assoc,
}
use registry_api_contract.Error.{ok, bad_request}
use registry_api_contract.Db.{Org, Token, Package, Embedding}
use registry_api_contract.Text.{Text}
use registry_api_contract.Rbac.{parse}
use registry_api_contract.Rbac.Authority.{MayPublish, authorize_publish_iff}
use registry_api_contract.State.{
  World, AppState, Dependencies, Outside, answer, upsert_embedding_row,
}
use registry_api_contract.State.Effects.{through, through_kept, through_lift, through_require}
use registry_api_contract.Auth.{auth_disabled}
use registry_api_contract.Auth.Liveness.{Bears, require_token-Keeps, require_token_ok}
use registry_api_contract.Routes.Yank.Flip.{named_package}
use registry_api_contract.Routes.Lookups.{org_of-Keeps, org_of_ok, package_of-Keeps, package_of_ok}
use registry_api_contract.Embeddings.{
  Floats, valid_model, pad_to_dim, embedding_row, same_space, to_pgvector_literal, literal_tail,
  upserted, write_embedding, upsert,
}
use registry_api_contract.Embeddings.Padding.{Fits, Padded, pad_to_dim_ok}
use registry_api_contract.Embeddings.Table.{
  OneEach, upserted_find, upserted-OneEach, upserted_others,
}
use registry_api_contract.Routes.Semantic.{
  EmbeddingUpsertRequest, EmbeddingUpsertResponse, require_pg, upsert_embedding,
}

-- Texts with commas between them.
abbrev pub comma_separated : List Text → Text
comma_separated [] = []
comma_separated (t ∷ []) = t
comma_separated (t ∷ u ∷ ts) = t ++ (b',' ∷ comma_separated (u ∷ ts))

module _ {F : Type 0} (fl : Floats F) (d : Dependencies) (s : AppState) (o : Outside) where
  -- The table of vectors after a write for a package: its row, and all others.
  pub record Written (pkg : Package) (r : EmbeddingUpsertRequest F) (v w : World) : Type 0 where
    pub valid : valid_model r.model ≡ true
    pub fits : Fits fl r.embedding
    pub vector : List F
    pub padded : Padded fl r.embedding vector
    pub row : Embedding
    pub stored : find (same_space fl d o pkg.id r.model) w.database.embeddings ≡ some row
    pub columns :
        (row.package_id ≡ pkg.id)
        × (row.embedding_model ≡ r.model)
        × (row.native_dimensions ≡ length r.embedding)
        × (row.embedding ≡ b'[' ∷ (comma_separated (map fl.show vector) ++ b']' ∷ []))
        × (row.content ≡ r.content)
        × (row.content_sha256 ≡ d.sha256_text r.content)
        × (row.created_at ≡ o.now)
    pub one_each : OneEach w.database.embeddings
    pub others :
        (x : Embedding)
        → same_space fl d o pkg.id r.model x ≡ false
        → In x v.database.embeddings ↔ In x w.database.embeddings
    pub rest : w ≡ record v { database = record v.database { embeddings = w.database.embeddings } }

  tail_text :
      (v : F) (vs : List F)
      → fl.show v ++ literal_tail fl vs ≡ comma_separated (map fl.show (v ∷ vs)) ++ b']' ∷ []
  tail_text v [] = refl
  tail_text v (u ∷ vs) =
      ap (λ t. fl.show v ++ (b',' ∷ t)) (tail_text u vs)
      ∙ sym (append_assoc (fl.show v) (b',' ∷ comma_separated (map fl.show (u ∷ vs))) (b']' ∷ []))

  literal :
      (vector : List F)
      → to_pgvector_literal fl vector ≡ b'[' ∷ (comma_separated (map fl.show vector) ++ b']' ∷ [])
  unfolding to_pgvector_literal
  literal [] = refl
  literal (v ∷ vs) = ap (◌∷◌ b'[') (tail_text v vs)

  write_embedding_ok :
      (new : Embedding) (v : World) {u : Unit {0}}
      → (write_embedding fl d o new v).0 ≡ ok u
      → (write_embedding fl d o new v).1 ≡ record v {
        database = record v.database { embeddings = upserted fl d o new v.database.embeddings };
      }
  write_embedding_ok new v h = elim (Bool-cases (o.fails upsert_embedding_row)) [
    | inl e ↦ let k = rw e at h in cc
    | inr e ↦ rw e refl
  ]

  stored_row :
      (pkg : Package) (r : EmbeddingUpsertRequest F) (v : World) (vector : List F) {u : Unit {0}}
      → valid_model r.model ≡ true
      → Fits fl r.embedding × Padded fl r.embedding vector
      → OneEach v.database.embeddings
      → (write_embedding fl d o
          (embedding_row fl d o pkg.id r.model r.embedding vector r.content)
          v).0
        ≡ ok u
      → Written pkg r v
          (write_embedding fl d o
            (embedding_row fl d o pkg.id r.model r.embedding vector r.content)
            v).1
  unfolding embedding_row
  stored_row pkg r v vector valid (fits, padded) one h =
      let new : Embedding = embedding_row fl d o pkg.id r.model r.embedding vector r.content in
      let (id, stored) = upserted_find fl d o new v.database.embeddings in
      let after : World = record v {
        database = record v.database { embeddings = upserted fl d o new v.database.embeddings };
      } in
      let there : Written pkg r v after = record {
        valid = valid;
        fits = fits;
        vector = vector;
        padded = padded;
        row = record new { id = id };
        stored = stored;
        columns = (refl, refl, refl, literal vector, refl, refl, refl);
        one_each = upserted-OneEach fl d o new v.database.embeddings one;
        others = upserted_others fl d o new v.database.embeddings;
        rest = refl;
      } in
      subst (Written pkg r v) (sym (write_embedding_ok new v h)) there

  upsert-Written :
      (pkg : Package) (r : EmbeddingUpsertRequest F) (v : World) {u : Unit {0}}
      → OneEach v.database.embeddings
      → (upsert fl d o pkg.id r.model r.embedding r.content v).0 ≡ ok u
      → Written pkg r v (upsert fl d o pkg.id r.model r.embedding r.content v).1
  unfolding upsert
  upsert-Written pkg r v one h =
      through_require (λ x. Written pkg r v x.1) (valid_model r.model)
        (bad_request "invalid_embedding") _ {w = v} h
        λ valid h1.
          through_lift (λ x. Written pkg r v x.1) (pad_to_dim fl r.embedding)
            (λ padded.
              write_embedding fl d o
                (embedding_row fl d o pkg.id r.model r.embedding padded r.content))
            {w = v} h1
            λ vector e h2.
              stored_row pkg r v vector valid (pad_to_dim_ok fl r.embedding vector e) one h2

  -- What stands behind an answer.
  pub record Embedded (r : EmbeddingUpsertRequest F) (v w : World) : Type 0 where
    pub postgres : s.is_postgres ≡ true
    pub token : Token
    pub org : Org
    pub pkg : Package
    pub authenticated : Bears d s o r.authorization v token
    pub claimed : In org v.database.orgs × (org.slug ≡ r.org)
    pub authorized : MayPublish org.id token.org_id (parse token.role)
    pub found : In pkg v.database.packages × (pkg.org_id ≡ org.id) × (pkg.name ≡ r.name)
    pub written : Written pkg r v w

  -- With bearer tokens required, an upsert of a vector that is answered came, on Postgres, with a bearer text
  -- that hashes to a stored live token, with the right to publish for the organisation of the slug in the path,
  -- and had a valid model and a vector that fits. It leaves, under that organisation's package of the name in
  -- the path and the model, one row with the vector padded to the column's width, as bracketed texts of its
  -- numbers with commas between, the width of the vector that was sent, the content with the digest of the
  -- content, and the time; the vectors of other packages and models, and all else, are as they were; and no
  -- package has two vectors for a model, as none had before.
  pub upsert_embedding-Embedded :
      (r : EmbeddingUpsertRequest F) (v : World) (answered : EmbeddingUpsertResponse)
      → auth_disabled s ≡ false
      → OneEach v.database.embeddings
      → (upsert_embedding fl d s o r v).0 ≡ ok answered
      → Embedded r v (upsert_embedding fl d s o r v).1
  unfolding upsert_embedding require_pg
  upsert_embedding-Embedded r v answered e one h =
      through_require (λ x. Embedded r v x.1) _ _ _ h
        λ pg h1.
          through_kept (λ x. Embedded r v x.1) _ (require_token-Keeps d s o r.authorization e) h1
            λ token authenticated h2.
              through_kept (λ x. Embedded r v x.1) _ (org_of-Keeps o r.org) h2
                λ org claimed h3.
                  through_lift (λ x. Embedded r v x.1) _ _ h3
                    λ u authorized h4.
                      through_kept (λ x. Embedded r v x.1) _ (package_of-Keeps o org r.name) h4
                        λ pkg found h5.
                          through (λ x. Embedded r v x.1)
                            (upsert fl d o pkg.id r.model r.embedding r.content)
                            (λ u. answer (record { org = r.org; name = r.name; model = r.model }))
                            {w = v} h5
                            λ u' written h6. record {
                              postgres = pg;
                              token = token;
                              org = org;
                              pkg = pkg;
                              authenticated =
                                  require_token_ok d s o r.authorization v token e authenticated;
                              claimed = org_of_ok o r.org v org claimed;
                              authorized =
                                  (authorize_publish_iff token.org_id (parse token.role) org.id).0
                                    authorized;
                              found =
                                  let (member, hit) = package_of_ok o org r.name v pkg found in
                                  let (mine, named) = named_package org.id r.name pkg hit in
                                  (member, mine, named);
                              written = upsert-Written pkg r v one written;
                            }
