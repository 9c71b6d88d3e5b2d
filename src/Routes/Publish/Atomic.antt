-- ===== src/Routes/Publish/Atomic.antt =====
-- What the publish handler of src/routes/publish.rs leaves when it answers with an error.
use registry_api_contract.Prelude.{ℕ, String, ◌≡◌, refl, ◌⊎◌, inr, Bool, false, Option, none, some}
use registry_api_contract.Error.{ApiErr, ok, err}
use registry_api_contract.Db.{Org, Token, Package}
use registry_api_contract.Storage.{Bytes, ArtifactStore}
use registry_api_contract.State.{World, AppState, Dependencies, Outside, ◌>>=◌, meanwhile}
use registry_api_contract.State.Effects.{
  Keeps, Keeps->>=, OnError, OnError->>=, OnError-last, SameDatabase, Settled, Settled-trans,
  Settled-weaken, Unchanged, Unchanged-trans, Keeps-database, transaction_rolls_back, lift-Keeps,
  query-Keeps, require-Keeps,
}
use registry_api_contract.Auth.Liveness.{require_token-Keeps}
use registry_api_contract.Auth.{auth_disabled}
use registry_api_contract.Routes.Payload.{Manifest, PublishMeta, PublishRequest, PublishResponse}
use registry_api_contract.Routes.Publish.{
  publish, record_version, record_body, require_unpublished, check_payload, find_publish_org,
  store_and_record, acknowledge, require_new, stored_artifact,
}

module _ (d : Dependencies) (valid_manifest : Manifest → Bool) (s : AppState) (o : Outside) where
  require_new-Keeps :
      (r : PublishRequest) (p : Option Package) → Keeps Unchanged (require_new o r p)
  unfolding require_new
  require_new-Keeps r none = lift-Keeps _
  require_new-Keeps r (some p) = Keeps->>= Unchanged-trans (query-Keeps _ _) λ v. require-Keeps _ _

  pub require_unpublished-Keeps :
      (org : Org) (r : PublishRequest) → Keeps Unchanged (require_unpublished o org r)
  unfolding require_unpublished
  require_unpublished-Keeps org r =
      Keeps->>= Unchanged-trans (query-Keeps _ _) λ p. require_new-Keeps r p

  pub find_publish_org-Keeps : (slug : String) → Keeps Unchanged (find_publish_org o slug)
  unfolding find_publish_org
  find_publish_org-Keeps slug = Keeps->>= Unchanged-trans (query-Keeps _ _) λ row. lift-Keeps _

  pub check_payload-Keeps :
      (r : PublishRequest) (meta : PublishMeta) (a : Bytes)
      → Keeps Unchanged (check_payload d valid_manifest s r meta a)
  unfolding check_payload
  check_payload-Keeps r meta a = Keeps->>= Unchanged-trans (require-Keeps _ _) λ valid.
      Keeps->>= Unchanged-trans (require-Keeps _ _)
        λ matching. Keeps->>= Unchanged-trans (require-Keeps _ _) λ intact. lift-Keeps _

  stored_artifact-Keeps :
      (x : Option ArtifactStore) (w : World) → SameDatabase w (stored_artifact x w).1
  stored_artifact-Keeps none w = refl
  stored_artifact-Keeps (some store) w = refl

  raced-OnError :
      (org : Org) (r : PublishRequest) (meta : PublishMeta) (sha : String) (n : ℕ)
      → OnError (Settled o.race) (meanwhile o.race >>= λ u. record_version o org r meta sha n)
  unfolding record_version ◌>>=◌
  raced-OnError org r meta sha n = record {
    left = λ w e h. inr (
        (transaction_rolls_back (record_body o org r meta sha n)).left
          (record w { database = o.race w.database }) e h);
  }

  store_and_record-OnError :
      (org : Org) (r : PublishRequest) (meta : PublishMeta) (a : Bytes)
      → OnError (Settled o.race) (store_and_record d o org r meta a)
  unfolding store_and_record
  store_and_record-OnError org r meta a =
      OnError->>= (Settled-trans o.race) (Settled-weaken o.race)
        (Keeps-database (require_unpublished-Keeps org r))
        λ u.
          OnError->>= (Settled-trans o.race) (Settled-weaken o.race)
            (record { kept = λ w. stored_artifact-Keeps _ w }) λ v. raced-OnError org r meta _ _

  acknowledge_total :
      (org : Org) (token : Token) (r : PublishRequest) (sha : String) (w : World)
      → (b : PublishResponse) × ((acknowledge d o org token r sha w).0 ≡ ok b)
  unfolding acknowledge ◌>>=◌
  acknowledge_total org token r sha w =
      (record { org = r.org; name = r.name; version = r.version; sha256 = sha }, refl)

  publish-OnError :
      (r : PublishRequest)
      → auth_disabled s ≡ false
      → OnError (Settled o.race) (publish d valid_manifest s o r)
  unfolding publish
  publish-OnError r e =
      OnError->>= (Settled-trans o.race) (Settled-weaken o.race)
        (Keeps-database (require_token-Keeps d s o r.authorization e))
        λ token.
          OnError->>= (Settled-trans o.race) (Settled-weaken o.race)
            (Keeps-database (find_publish_org-Keeps r.org))
            λ org.
              OnError->>= (Settled-trans o.race) (Settled-weaken o.race)
                (Keeps-database (lift-Keeps _))
                λ authorized.
                  OnError->>= (Settled-trans o.race) (Settled-weaken o.race)
                    (Keeps-database (lift-Keeps _))
                    λ (meta, artifact).
                      OnError->>= (Settled-trans o.race) (Settled-weaken o.race)
                        (Keeps-database (check_payload-Keeps r meta artifact))
                        λ checked.
                          OnError-last (λ u. acknowledge d o org token r (d.sha256_bytes artifact))
                            (store_and_record-OnError org r meta artifact)
                            λ u. acknowledge_total org token r (d.sha256_bytes artifact)

  -- With bearer tokens required, a publish that answers with an error leaves the database exactly as it
  -- was, or exactly as the other requests made it that committed before its transaction: neither a
  -- version nor any package metadata of the failed request, nor an audit entry, is in it.
  pub publish_error_leaves_nothing :
      (r : PublishRequest) (w : World) (e : ApiErr)
      → auth_disabled s ≡ false
      → (publish d valid_manifest s o r w).0 ≡ err e
      → ((publish d valid_manifest s o r w).1.database ≡ w.database)
        ⊎ ((publish d valid_manifest s o r w).1.database ≡ o.race w.database)
  publish_error_leaves_nothing r w e h k = (publish-OnError r h).left w e k
