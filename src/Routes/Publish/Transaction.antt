-- ===== src/Routes/Publish/Transaction.antt =====
-- What the transaction of the publish handler of src/routes/publish.rs commits when it succeeds.
use registry_api_contract.Prelude.{
  ℕ, String, ◌≡◌, refl, ap, subst, false, Option, none, some, List, [], ◌∷◌, ◌++◌, find, any,
}
use registry_api_contract.Error.{ApiResult, ok}
use registry_api_contract.Db.{
  Org, Package, Version, DbResult, done, failed, unique_violation, fault, version_clashes,
}
use registry_api_contract.Storage.{ArtifactStore}
use registry_api_contract.State.{
  Database, World, Outside, Handler, ◌>>=◌, require, after, insert_version,
}
use registry_api_contract.State.Effects.{
  unfailed, insert_row_done, transaction_ok, through, through_query, through_require,
}
use registry_api_contract.Routes.Lookups.{found_row}
use registry_api_contract.Routes.{is_package}
use registry_api_contract.Routes.Payload.{PublishMeta, PublishRequest}
use registry_api_contract.Routes.Publish.{
  record_version, record_body, stored_artifact, inserted, upsert_row, package_row, version_row,
  upsert_package, stored,
}

through_inserted :
    {B : Type 0} (P : ApiResult B × World → Type 0) (x : World → DbResult (List Version))
    (f : Unit {0} → Handler B) {w : World} {b : B}
    → (((λ v. inserted (x v) v) >>= f) w).0 ≡ ok b
    → ((rows : List Version)
        → x w ≡ done rows
        → (f tt (record w { database = record w.database { versions = rows } })).0 ≡ ok b
        → P (f tt (record w { database = record w.database { versions = rows } })))
    → P (((λ v. inserted (x v) v) >>= f) w)
unfolding ◌>>=◌
through_inserted {B = B} P x f {w = w} {b = b} h k = go (x w) refl h
  where
    go :
        (y : DbResult (List Version))
        → x w ≡ y
        → (after f (inserted y w).0 (inserted y w).1).0 ≡ ok b
        → P (after f (inserted y w).0 (inserted y w).1)
    go (done rows) e j = k rows e j
    go (failed unique_violation) e j = cc
    go (failed fault) e j = cc

through_stored :
    {B : Type 0} (P : ApiResult B × World → Type 0) (g : List Package → Database → Database)
    (x : World → DbResult (List Package)) (f : Unit {0} → Handler B) {w : World} {b : B}
    → (((λ v. stored g (x v) v) >>= f) w).0 ≡ ok b
    → ((rows : List Package)
        → x w ≡ done rows
        → (f tt (record w { database = g rows w.database })).0 ≡ ok b
        → P (f tt (record w { database = g rows w.database })))
    → P (((λ v. stored g (x v) v) >>= f) w)
unfolding ◌>>=◌
through_stored {B = B} P g x f {w = w} {b = b} h k = go (x w) refl h
  where
    go :
        (y : DbResult (List Package))
        → x w ≡ y
        → (after f (stored g y w).0 (stored g y w).1).0 ≡ ok b
        → P (after f (stored g y w).0 (stored g y w).1)
    go (done rows) e j = k rows e j
    go (failed x) e j = cc

pub through_artifact :
    {B : Type 0} (P : ApiResult B × World → Type 0) (x : World → Option ArtifactStore)
    (f : Unit {0} → Handler B) {w : World} {b : B}
    → (((λ v. stored_artifact (x v) v) >>= f) w).0 ≡ ok b
    → ((store : ArtifactStore)
        → x w ≡ some store
        → (f tt (record w { store = store })).0 ≡ ok b
        → P (f tt (record w { store = store })))
    → P (((λ v. stored_artifact (x v) v) >>= f) w)
unfolding ◌>>=◌
through_artifact {B = B} P x f {w = w} {b = b} h k = go (x w) refl h
  where
    go :
        (y : Option ArtifactStore)
        → x w ≡ y
        → (after f (stored_artifact y w).0 (stored_artifact y w).1).0 ≡ ok b
        → P (after f (stored_artifact y w).0 (stored_artifact y w).1)
    go (some store) e j = k store e j
    go none e j = cc

module _ (o : Outside) where
  -- What the transaction commits.
  pub record Recorded (org : Org) (r : PublishRequest) (meta : PublishMeta) (sha : String) (n : ℕ)
      (v w : World) : Type 0 where
    pub pkg : Package
    pub packages : List Package
    pub upserted : upsert_row (package_row o org r.name meta) v.database.packages ≡ done packages
    pub found : find (is_package org.id r.name) packages ≡ some pkg
    pub new :
        any (version_clashes (version_row o pkg r.version sha n meta)) v.database.versions ≡ false
    pub leaves : w ≡ record v {
      database = record v.database {
        packages = packages;
        versions = v.database.versions ++ version_row o pkg r.version sha n meta ∷ [];
      };
    }

  -- What the upsert stores and reads back.
  record Upserted (org : Org) (r : PublishRequest) (meta : PublishMeta) (v : World) (pkg : Package)
      (x : ApiResult Package × World) : Type 0 where
    packages : List Package
    stores : upsert_row (package_row o org r.name meta) v.database.packages ≡ done packages
    reads : find (is_package org.id r.name) packages ≡ some pkg
    world : x.1 ≡ record v { database = record v.database { packages = packages } }

  upsert_package_ok :
      (org : Org) (r : PublishRequest) (meta : PublishMeta) (v : World) (pkg : Package)
      → (upsert_package o org r.name meta v).0 ≡ ok pkg
      → Upserted org r meta v pkg (upsert_package o org r.name meta v)
  unfolding upsert_package
  upsert_package_ok org r meta v pkg h =
      through_stored (Upserted org r meta v pkg) _ _ _ h λ packages e h1.
        through_query (Upserted org r meta v pkg) _ _ _ h1 λ h2. record {
          packages = packages;
          stores = unfailed _ _ e;
          reads = found_row _ _ h2;
          world = refl;
        }

  record_body_ok :
      (org : Org) (r : PublishRequest) (meta : PublishMeta) (sha : String) (n : ℕ) (v : World)
      {u : Unit {0}}
      → (record_body o org r meta sha n v).0 ≡ ok u
      → Recorded org r meta sha n v (record_body o org r meta sha n v).1
  unfolding record_body require
  record_body_ok org r meta sha n v h =
      through_require (λ x. Recorded org r meta sha n v x.1) _ _ _ h
        λ begun h1.
          through (λ x. Recorded org r meta sha n v x.1) _ _ h1
            λ pkg e h2.
              let up = upsert_package_ok org r meta v pkg e in
              through_inserted (λ x. Recorded org r meta sha n v x.1) _ _ h2
                λ rows e3 h3.
                  let (fresh, grown) =
                    insert_row_done version_clashes (version_row o pkg r.version sha n meta)
                      (upsert_package o org r.name meta v).1.database.versions rows
                      (unfailed (o.fails insert_version) _ e3) in
                  record {
                    pkg = pkg;
                    packages = up.packages;
                    upserted = up.stores;
                    found = up.reads;
                    new =
                        subst
                          (λ xs.
                            any (version_clashes (version_row o pkg r.version sha n meta)) xs
                            ≡ false)
                          (ap (λ x. x.database.versions) up.world) fresh;
                    leaves = rw (grown, up.world) refl;
                  }

  pub record_version_ok :
      (org : Org) (r : PublishRequest) (meta : PublishMeta) (sha : String) (n : ℕ) (v : World)
      {u : Unit {0}}
      → (record_version o org r meta sha n v).0 ≡ ok u
      → Recorded org r meta sha n v (record_version o org r meta sha n v).1
  unfolding record_version
  record_version_ok org r meta sha n v h =
      let (body, same) = transaction_ok (record_body o org r meta sha n) v h in
      rw same (record_body_ok org r meta sha n v body)
