-- ===== src/Registry/Handlers.antt =====
-- Each handler of src/routes/ that writes, as a whole, keeps what its statements keep, whether it answers or
-- fails and in both modes of authentication.
use registry_api_contract.Prelude.{
  ◌++◌, [], ◌∷◌, ℕ, String, inl, inr, Bool, true, false, Option, none, some, List, Bool-cases,
}
use registry_api_contract.Error.{ok, err, bad_request}
use registry_api_contract.Db.{
  Uuid, Org, Token, Package, Version, Embedding, version_clashes, org_clashes, same_uuid?,
}
use registry_api_contract.State.{
  World, AppState, Dependencies, Outside, upsert_embedding_row, insert_version, insert_org,
}
use registry_api_contract.State.Effects.{
  Keeps, Keeps->>=, Unchanged, Unchanged-trans, lift-Keeps, query-Keeps, require-Keeps,
}
use registry_api_contract.Text.{Text}
use registry_api_contract.Storage.{Bytes}
use registry_api_contract.Embeddings.{
  Floats, valid_model, pad_to_dim, upsert, write_embedding, embedding_row,
}
use registry_api_contract.Routes.Lookups.{org_of-Keeps, package_of-Keeps}
use registry_api_contract.Routes.Payload.{Manifest, PublishMeta, PublishRequest}
use registry_api_contract.Routes.Publish.{
  publish, upsert_package, record_body, store_and_record, acknowledge, version_row,
}
use registry_api_contract.Routes.Publish.Atomic.{find_publish_org-Keeps, check_payload-Keeps}
use registry_api_contract.Routes.Yank.{YankRequest, yank, updated, acknowledge_yank}
use registry_api_contract.Routes.Yank.Flip.{version_of-Keeps}
use registry_api_contract.Routes.Orgs.{
  ClaimOrgRequest, claim_org, claim_unless_taken, claim_org_serialized, claim_body, check_quota,
  acknowledge_claim, org_row,
}
use registry_api_contract.Routes.Semantic.{EmbeddingUpsertRequest, require_pg, upsert_embedding}
use registry_api_contract.Registry.Parts.{
  Frame, in_turn, unchanged, transaction_kept, meanwhile_kept, version_insert_kept, org_insert_kept,
  upsert_kept, audit_kept,
}
use registry_api_contract.Registry.Credentials.{require_token_kept}

module _ (d : Dependencies) (s : AppState) {o : Outside} {R : World → World → Type 0}
    (frame : Frame d o R) where
  -- Publishing.
  upsert_package_kept :
      (org : Org) (name : String) (meta : PublishMeta) → Keeps R (upsert_package o org name meta)
  unfolding upsert_package
  upsert_package_kept org name meta =
      in_turn frame (upsert_kept frame _ _)
        λ u. in_turn frame (unchanged frame (query-Keeps _ _)) λ row. unchanged frame (lift-Keeps _)

  pub record_body_kept :
      (org : Org) (r : PublishRequest) (meta : PublishMeta) (sha : String) (n : ℕ)
      → ((pkg : Package) (w : World)
          → R w (record w {
            database = record w.database {
              versions = w.database.versions ++ version_row o pkg r.version sha n meta ∷ [];
            };
          }))
      → Keeps R (record_body o org r meta sha n)
  unfolding record_body
  record_body_kept org r meta sha n added =
      in_turn frame (unchanged frame (require-Keeps _ _)) λ begun.
        in_turn frame (upsert_package_kept org r.name meta) λ pkg.
          in_turn frame
            (version_insert_kept frame (o.fails insert_version) version_clashes
              (version_row o pkg r.version sha n meta) (added pkg))
            λ row. unchanged frame (require-Keeps _ _)

  pub publish_kept :
      (valid_manifest : Manifest → Bool) (r : PublishRequest)
      → ((org : Org) (meta : PublishMeta) (artifact : Bytes)
          → Keeps R (store_and_record d o org r meta artifact))
      → Keeps R (publish d valid_manifest s o r)
  unfolding publish acknowledge
  publish_kept valid_manifest r recorded =
      in_turn frame (require_token_kept d s frame r.authorization) λ token.
        in_turn frame (unchanged frame (find_publish_org-Keeps d valid_manifest s o r.org)) λ org.
          in_turn frame (unchanged frame (lift-Keeps _)) λ authorized.
            in_turn frame (unchanged frame (lift-Keeps _)) λ (meta, artifact).
              in_turn frame
                (unchanged frame (check_payload-Keeps d valid_manifest s o r meta artifact))
                λ checked. in_turn frame (recorded org meta artifact) λ u.
                  in_turn frame (audit_kept frame _) λ audited. unchanged frame (lift-Keeps (ok _))

  -- Yanking.
  updated_kept :
      (fails : Bool) (row : Version) (yanked : Bool) → Keeps R (updated d s o fails row yanked)
  updated_kept true row yanked = record { kept = λ w. frame.same w }
  updated_kept false row yanked = record { kept = λ w. frame.yanked w row.id yanked }

  pub yank_kept : (r : YankRequest) → Keeps R (yank d s o r)
  unfolding yank acknowledge_yank
  yank_kept r = in_turn frame (require_token_kept d s frame r.authorization) λ token.
      in_turn frame (unchanged frame (org_of-Keeps o r.org)) λ org.
        in_turn frame (unchanged frame (lift-Keeps _)) λ authorized.
          in_turn frame (unchanged frame (package_of-Keeps o org r.name)) λ pkg.
            in_turn frame (unchanged frame (version_of-Keeps d s o pkg r.version)) λ row.
              in_turn frame (updated_kept _ row r.yanked) λ flipped.
                in_turn frame (audit_kept frame _) λ audited. unchanged frame (lift-Keeps (ok _))

  -- Claims.
  check_quota-Keeps :
      (scoped : Bool) (token : Token) → Keeps Unchanged (check_quota d s o scoped token)
  unfolding check_quota
  check_quota-Keeps true token = Keeps->>= Unchanged-trans (query-Keeps _ _) λ n. require-Keeps _ _
  check_quota-Keeps false token = lift-Keeps (ok tt)

  claim_body_kept : (token : Token) (r : ClaimOrgRequest) → Keeps R (claim_body d s o token r)
  unfolding claim_body
  claim_body_kept token r = in_turn frame (unchanged frame (require-Keeps _ _)) λ begun.
      in_turn frame (unchanged frame (require-Keeps _ _)) λ locked.
        in_turn frame (unchanged frame (check_quota-Keeps _ token)) λ within.
          in_turn frame
            (org_insert_kept frame (o.fails insert_org) org_clashes (org_row d s o token r))
            λ row. unchanged frame (require-Keeps _ _)

  serialized_kept :
      (token : Token) (r : ClaimOrgRequest) → Keeps R (claim_org_serialized d s o token r)
  unfolding claim_org_serialized acknowledge_claim
  serialized_kept token r =
      in_turn frame (transaction_kept frame (claim_body_kept token r))
        λ u. in_turn frame (audit_kept frame _) λ audited. unchanged frame (lift-Keeps (ok _))

  unless_taken_kept :
      (token : Token) (r : ClaimOrgRequest) (found : Option Org)
      → Keeps R (claim_unless_taken d s o token r found)
  unfolding claim_unless_taken
  unless_taken_kept token r none = in_turn frame (meanwhile_kept frame) λ u. serialized_kept token r
  unless_taken_kept token r (some existing) =
      elim (Bool-cases (same_uuid? token.org_id (some existing.id))) [
        | inl t ↦ rw t (unchanged frame (lift-Keeps (ok _)))
        | inr t ↦ rw t (unchanged frame (lift-Keeps (err _)))
      ]

  pub claim_org_kept : (r : ClaimOrgRequest) → Keeps R (claim_org d s o r)
  unfolding claim_org
  claim_org_kept r = in_turn frame (require_token_kept d s frame r.authorization) λ token.
      in_turn frame (unchanged frame (require-Keeps _ _)) λ valid.
        in_turn frame (unchanged frame (query-Keeps _ _))
          λ existing. unless_taken_kept token r existing

  -- Embeddings, which are kept in a table of their own.
  module _ {F : Type 0} (fl : Floats F) where
    write_embedding_kept : (new : Embedding) → Keeps R (write_embedding fl d o new)
    write_embedding_kept new = record {
      kept = λ w. elim (Bool-cases (o.fails upsert_embedding_row)) [
        | inl e ↦ rw e (frame.same w)
        | inr e ↦ rw e (frame.embeddings w _)
      ];
    }

    vector_kept :
        (package_id : Uuid) (model : Text) (embedding : List F) (content : Text)
        → Keeps R (upsert fl d o package_id model embedding content)
    unfolding upsert
    vector_kept package_id model embedding content =
        in_turn frame
          (unchanged frame (require-Keeps (valid_model model) (bad_request "invalid_embedding")))
          λ valid. in_turn frame (unchanged frame (lift-Keeps (pad_to_dim fl embedding))) λ padded.
            write_embedding_kept (embedding_row fl d o package_id model embedding padded content)

    pub upsert_embedding_kept :
        (r : EmbeddingUpsertRequest F) → Keeps R (upsert_embedding fl d s o r)
    unfolding upsert_embedding require_pg
    upsert_embedding_kept r = in_turn frame (unchanged frame (require-Keeps _ _)) λ pg.
        in_turn frame (require_token_kept d s frame r.authorization) λ token.
          in_turn frame (unchanged frame (org_of-Keeps o r.org)) λ org.
            in_turn frame (unchanged frame (lift-Keeps _)) λ allowed.
              in_turn frame (unchanged frame (package_of-Keeps o org r.name)) λ pkg.
                in_turn frame (vector_kept pkg.id r.model r.embedding r.content)
                  λ written. unchanged frame (lift-Keeps (ok _))
