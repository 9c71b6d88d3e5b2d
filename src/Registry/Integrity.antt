-- ===== src/Registry/Integrity.antt =====
-- Over any sequence of the writes of src/routes/mod.rs: every version on record has its artifact in the
-- store, with the digest of its row.
use registry_api_contract.Prelude.{
  ◌≡◌, refl, sym, subst, inl, inr, Bool, true, Option, none, some, In-append_inv, length,
}
use registry_api_contract.Db.{Org, Package}
use registry_api_contract.Storage.{Bytes, ArtifactStore, put, artifact_key}
use registry_api_contract.Embeddings.{Floats}
use registry_api_contract.State.{World, AppState, Dependencies, Outside, ◌>>=◌, after, meanwhile}
use registry_api_contract.State.Effects.{Keeps}
use registry_api_contract.Routes.Payload.{Manifest, PublishMeta, PublishRequest}
use registry_api_contract.Routes.Publish.{
  store_and_record, record_version, stored_artifact, version_row,
}
use registry_api_contract.Routes.Publish.Atomic.{require_unpublished-Keeps}
use registry_api_contract.Registry.Parts.{
  Frame, in_turn, unchanged, transaction_kept, meanwhile_kept,
}
use registry_api_contract.Registry.Backing.{
  IsFaithful, Backed, StoreGrows, StoreGrows-put, Backed-put, AllBacked, IsSupplied, Stocks, stock,
}
use registry_api_contract.Registry.Handlers.{
  record_body_kept, publish_kept, yank_kept, claim_org_kept, upsert_embedding_kept,
}
use registry_api_contract.Registry.{
  Write, put_version, post_yank, post_org, put_embedding, router, Reach, start, later,
}

module _ (d : Dependencies) (s : AppState) (o : Outside) (faithful : IsFaithful d)
    (B : ArtifactStore → Type 0)
    (closed : (st st' : ArtifactStore) → StoreGrows d st st' → B st → B st')
    (supplied : (st : ArtifactStore) → B st → IsSupplied d o st) where
  -- The store holds the artifact of a row about to be written.
  Uploaded : PublishRequest → PublishMeta → Bytes → ArtifactStore → Type 0
  Uploaded r meta artifact st =
      B st
      × ((pkg : Package)
          → Backed d (version_row o pkg r.version (d.sha256_bytes artifact) (length artifact) meta)
              st)

  -- The transaction, after the upload.
  recorded_stocks :
      (r : PublishRequest) (org : Org) (meta : PublishMeta) (artifact : Bytes)
      → Frame d o (Stocks d (Uploaded r meta artifact))
      → Keeps
          (Stocks d (Uploaded r meta artifact))
          (record_version o org r meta (d.sha256_bytes artifact) (length artifact))
  unfolding record_version Uploaded
  recorded_stocks r org meta artifact frame = transaction_kept frame (
      record_body_kept d s frame org r meta _ _ λ pkg w. record {
        grows = λ x b. b;
        backs = λ (b, rows) h x i. elim (In-append_inv x w.database.versions _ i) [
          | inl j ↦ h x j
          | inr (inl e) ↦ subst (λ y. Backed d y w.store) (sym e) (rows pkg)
          | inr (inr j) ↦ elim j [ ]
        ];
      })

  row-Backed :
      (r : PublishRequest) (meta : PublishMeta) (artifact : Bytes) (pkg : Package)
      (st st' : ArtifactStore)
      → put d.external (artifact_key (d.sha256_bytes artifact) meta.extension) artifact st
        ≡ some st'
      → Backed d (version_row o pkg r.version (d.sha256_bytes artifact) (length artifact) meta) st'
  unfolding version_row
  row-Backed r meta artifact pkg st st' h = Backed-put d faithful _ artifact st st' refl refl h

  -- The upload, which comes first, makes the transaction's premise true.
  uploaded_stocks :
      (r : PublishRequest) (org : Org) (meta : PublishMeta) (artifact : Bytes) (w : World)
      (y : Option ArtifactStore)
      → put d.external (artifact_key (d.sha256_bytes artifact) meta.extension) artifact w.store ≡ y
      → Stocks d B w
          (after
            (λ uploaded. meanwhile o.race >>= λ others.
              record_version o org r meta (d.sha256_bytes artifact) (length artifact))
            (stored_artifact y w).0
            (stored_artifact y w).1).1
  unfolding Uploaded
  uploaded_stocks r org meta artifact w none h = (stock d o B closed supplied).same w
  uploaded_stocks r org meta artifact w (some store) h =
      let grown = StoreGrows-put d faithful artifact meta.extension w.store store h in
      let frame =
        stock d o (Uploaded r meta artifact)
          (λ st st' g (b, rows). (closed st st' g b, λ pkg. g _ (rows pkg)))
          (λ st (b, rows). supplied st b) in
      let rest =
        (in_turn frame (meanwhile_kept frame)
            λ others. recorded_stocks r org meta artifact frame).kept
          (record w { store = store }) in
      record {
        grows = λ x b. rest.grows x (grown x b);
        backs = λ b h'.
            rest.backs
              (closed w.store store grown b, λ pkg. row-Backed r meta artifact pkg w.store store h)
              (λ x i. grown x (h' x i));
      }

  store_and_record_stocks :
      (r : PublishRequest) (org : Org) (meta : PublishMeta) (artifact : Bytes)
      → Keeps (Stocks d B) (store_and_record d o org r meta artifact)
  unfolding store_and_record ◌>>=◌
  store_and_record_stocks r org meta artifact =
      let frame = stock d o B closed supplied in
      in_turn frame (unchanged frame (require_unpublished-Keeps d (λ m. true) s o org r))
        λ unpublished. record { kept = λ w. uploaded_stocks r org meta artifact w _ refl }

module _ {F : Type 0} (fl : Floats F) (d : Dependencies) (valid_manifest : Manifest → Bool)
    (s : AppState) (faithful : IsFaithful d) where
  router-AllBacked :
      (o : Outside) (q : Write F) (w : World)
      → IsSupplied d o w.store
      → AllBacked d w
      → AllBacked d (router fl d valid_manifest s o q w)
  unfolding router
  router-AllBacked o q w supply backed = (steps q).backs (λ x b. b) backed
    where
      later_store :
          (st st' : ArtifactStore)
          → StoreGrows d st st'
          → StoreGrows d w.store st
          → StoreGrows d w.store st'
      later_store st st' g b x held = g x (b x held)

      supplied : (st : ArtifactStore) → StoreGrows d w.store st → IsSupplied d o st
      supplied st b v x i = elim (supply v x i) [ inl same ↦ inl same | inr held ↦ inr (b x held) ]

      frame : Frame d o (Stocks d (StoreGrows d w.store))
      frame = stock d o (StoreGrows d w.store) later_store supplied

      steps : (q : Write F) → Stocks d (StoreGrows d w.store) w (router fl d valid_manifest s o q w)
      steps (put_version r) =
          (publish_kept d s frame valid_manifest r (
              store_and_record_stocks d s o faithful (StoreGrows d w.store) later_store supplied
                r)).kept
            w
      steps (post_yank r) = (yank_kept d s frame r).kept w
      steps (post_org r) = (claim_org_kept d s frame r).kept w
      steps (put_embedding r) = (upsert_embedding_kept d s frame fl r).kept w

  -- With digests in 64 hexadecimal digits and backends that store what they are given: if every version
  -- on record has an artifact of its digest under its key, then so has every version in each registry
  -- that requests to publish, to yank or restore, to claim and to embed lead to, in both modes of
  -- authentication and whatever of them fails, as long as what others commit meanwhile adds no version
  -- whose artifact is not in the store and rewrites none but for the yank state.
  pub Reach-AllBacked :
      {v w : World}
      → Reach fl d valid_manifest s (λ o u. IsSupplied d o u.store) v w
      → AllBacked d v
      → AllBacked d w
  Reach-AllBacked start backed = backed
  Reach-AllBacked (later {w = w} o q before supply) backed =
      router-AllBacked o q w supply (Reach-AllBacked before backed)
