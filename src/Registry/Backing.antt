-- ===== src/Registry/Backing.antt =====
-- Versions and their artifacts: src/storage.rs under the rows that src/routes/publish.rs writes.
use registry_api_contract.Prelude.{
  ℕ, String, ◌≡◌, refl, sym, ap, subst, ◌∙◌, inl, inr, ◌⊎◌, Bool, nat_eq, ◌==◌, eq_iff, arith, some,
  Option-cases, Bool-cases, In, In-map_inv, length, if◌then◌else◌,
}
use registry_api_contract.Db.{Version, Uuid}
use registry_api_contract.Text.{codes}
use registry_api_contract.HashMap.{get, insert, get-insert}
use registry_api_contract.Storage.{
  Bytes, Objects, ArtifactStore, memory, local, s3, put, put_memory, artifact_key,
}
use registry_api_contract.Storage.Keys.{artifact_key_injective}
use registry_api_contract.State.{Database, World, Dependencies, Outside}
use registry_api_contract.Routes.Yank.{set_yanked}
use registry_api_contract.Routes.Publish.Immutable.{same_key}
use registry_api_contract.Registry.Growth.{SameRelease}
use registry_api_contract.Registry.Parts.{Frame}

-- What a store holds, in whichever backend.
abbrev pub contents : ArtifactStore → Objects
contents (memory objects _) = objects
contents (local files) = files
contents (s3 objects) = objects

put_memory-insert :
    (k : String) (v : Bytes) (objects objects' : Objects) (max_bytes : ℕ)
    → put_memory k v objects max_bytes ≡ some objects'
    → objects' ≡ insert k v objects
unfolding put_memory
put_memory-insert k v objects objects' max_bytes h = ground arith

module _ (d : Dependencies) where
  -- The digests are hexadecimal and of one length, and a backend outside the process stores what it is given.
  pub record IsFaithful : Type 0 where
    pub hex : (v : Bytes) → length (codes (d.sha256_bytes v)) ≡ 64
    pub writes :
        (k : String) (v : Bytes) (files files' : Objects)
        → d.external.write k v files ≡ some files'
        → (j : String) → get j files' ≡ (if k == j then some v else get j files)

  -- The version's key reads back bytes of its digest.
  pub record Backed (x : Version) (store : ArtifactStore) : Type 0 where
    pub artifact : Bytes
    pub held : get x.artifact_key (contents store) ≡ some artifact
    pub digest : x.sha256 ≡ d.sha256_bytes artifact
    pub addressed : x.artifact_key ≡ artifact_key x.sha256 x.format

  -- Whatever it backs, the second store backs too.
  abbrev pub StoreGrows : ArtifactStore → ArtifactStore → Type 0
  StoreGrows store store' = (x : Version) → Backed x store → Backed x store'

  put-contents :
      IsFaithful
      → (k : String) (v : Bytes) (store store' : ArtifactStore)
      → put d.external k v store ≡ some store'
      → (j : String) → get j (contents store') ≡ (if k == j then some v else get j (contents store))
  unfolding put
  put-contents faithful k v (memory objects max_bytes) store' h j =
      elim (Option-cases (put_memory k v objects max_bytes)) [
        | inl e ↦ let q = rw e at h in cc
        | inr (m, e) ↦
            let q : memory m max_bytes ≡ store' = (let z = rw e at h in cc) in
            subst (λ st. get j (contents st) ≡ (if k == j then some v else get j objects)) q
              (rw (put_memory-insert k v objects m max_bytes e) (get-insert k j v objects))
      ]
  put-contents faithful k v (local files) store' h j =
      elim (Option-cases (d.external.write k v files)) [
        | inl e ↦ let q = rw e at h in cc
        | inr (m, e) ↦
            let q : local m ≡ store' = (let z = rw e at h in cc) in
            subst (λ st. get j (contents st) ≡ (if k == j then some v else get j files)) q
              (faithful.writes k v files m e j)
      ]
  put-contents faithful k v (s3 objects) store' h j =
      elim (Option-cases (d.external.write k v objects)) [
        | inl e ↦ let q = rw e at h in cc
        | inr (m, e) ↦
            let q : s3 m ≡ store' = (let z = rw e at h in cc) in
            subst (λ st. get j (contents st) ≡ (if k == j then some v else get j objects)) q
              (faithful.writes k v objects m e j)
      ]

  -- What is backed stays backed when an artifact is put under the key of its own digest, even
  -- where that key is in use: the bytes change at most for bytes of the same digest.
  pub StoreGrows-put :
      IsFaithful
      → (v : Bytes) (extension : String) (store store' : ArtifactStore)
      → put d.external (artifact_key (d.sha256_bytes v) extension) v store ≡ some store'
      → StoreGrows store store'
  StoreGrows-put faithful v extension store store' h x b =
      let key = artifact_key (d.sha256_bytes v) extension in
      let reads = put-contents faithful key v store store' h x.artifact_key in
      elim (Bool-cases (key == x.artifact_key)) [
        | inl e ↦
            let same : key ≡ x.artifact_key = (eq_iff key x.artifact_key).0 e in
            let long : length (codes x.sha256) ≡ length (codes (d.sha256_bytes v)) =
              ap (λ t. length (codes t)) b.digest
              ∙ faithful.hex b.artifact
              ∙ sym (faithful.hex v) in
            record {
              artifact = v;
              held = reads ∙ rw e refl;
              digest =
                  artifact_key_injective x.sha256 (d.sha256_bytes v) x.format extension long
                    (sym b.addressed ∙ sym same);
              addressed = b.addressed;
            }
        | inr e ↦ record {
          artifact = b.artifact;
          held = reads ∙ rw e b.held;
          digest = b.digest;
          addressed = b.addressed;
        }
      ]

  pub Backed-put :
      IsFaithful
      → (x : Version) (v : Bytes) (store store' : ArtifactStore) → x.sha256 ≡ d.sha256_bytes v
      → x.artifact_key ≡ artifact_key x.sha256 x.format
      → put d.external x.artifact_key v store ≡ some store'
      → Backed x store'
  Backed-put faithful x v store store' digest addressed h = record {
    artifact = v;
    held =
        put-contents faithful x.artifact_key v store store' h x.artifact_key
        ∙ same_key x.artifact_key (some v) _;
    digest = digest;
    addressed = addressed;
  }

  -- The yank state has no part in it.
  pub Backed-release :
      (x y : Version) (store : ArtifactStore) → SameRelease x y → Backed x store → Backed y store
  Backed-release x y store same b = record {
    artifact = b.artifact;
    held = ap (λ z. get z.artifact_key (contents store)) same ∙ b.held;
    digest = ap (λ z. z.sha256) same ∙ b.digest;
    addressed =
        ap (λ z. z.artifact_key) same
        ∙ b.addressed
        ∙ ap (λ z. artifact_key z.sha256 z.format) (sym same);
  }

  -- Every version on record is backed.
  abbrev pub AllBacked : World → Type 0
  AllBacked w = (x : Version) → In x w.database.versions → Backed x w.store

  -- What other requests commit: versions that were there, or whose artifacts are in the store.
  abbrev pub IsSupplied : Outside → ArtifactStore → Type 0
  IsSupplied o store =
      (v : Database) (x : Version)
      → In x (o.race v).versions
      → ((y : Version) × In y v.versions × SameRelease y x) ⊎ Backed x store

  -- From a store that `B` holds of, as it does of every later one, versions stay backed.
  pub record Stocks (B : ArtifactStore → Type 0) (v w : World) : Type 0 where
    pub grows : StoreGrows v.store w.store
    pub backs : B v.store → AllBacked v → AllBacked w

  -- A part that touches neither the versions nor the store.
  abbrev pub aside : {B : ArtifactStore → Type 0} (w : World) → Stocks B w w
  aside w = record { grows = λ x b. b; backs = λ b h. h }

  set_yanked-release :
      (id : Uuid) (yanked : Bool) (x : Version) → SameRelease x (set_yanked id yanked x)
  set_yanked-release id yanked x = elim (Bool-cases (nat_eq x.id id)) [
    | inl e ↦ rw e refl
    | inr e ↦ rw e refl
  ]

  pub stock :
      (o : Outside) (B : ArtifactStore → Type 0)
      → ((s s' : ArtifactStore) → StoreGrows s s' → B s → B s')
      → ((s : ArtifactStore) → B s → IsSupplied o s)
      → Frame d o (Stocks B)
  stock o B closed supplied = record {
    same = aside;
    trans = λ u v w p q. record {
      grows = λ x b. q.grows x (p.grows x b);
      backs = λ b h. q.backs (closed u.store v.store p.grows b) (p.backs b h);
    };
    rolled_back = λ v w p. record { grows = p.grows; backs = λ b h x i. p.grows x (h x i) };
    raced = λ w. record {
      grows = λ x b. b;
      backs = λ b h x i. elim (supplied w.store b w.database x i) [
        | inl (y, j, same) ↦ Backed-release y x w.store same (h y j)
        | inr backed ↦ backed
      ];
    };
    orgs = λ w rows more. record { grows = λ x b. b; backs = λ b h. h };
    tokens = λ w rows more. record { grows = λ x b. b; backs = λ b h. h };
    packages = λ w rows more. record { grows = λ x b. b; backs = λ b h. h };
    yanked = λ w id yanked. record {
      grows = λ x b. b;
      backs = λ b h x i.
          let (y, j, e) = In-map_inv (set_yanked id yanked) w.database.versions x i in
          Backed-release y x w.store
            (subst (SameRelease y) (sym e) (set_yanked-release id yanked y)) (h y j);
    };
    audited = λ w e. record { grows = λ x b. b; backs = λ b h. h };
    embeddings = λ w rows. record { grows = λ x b. b; backs = λ b h. h };
  }
