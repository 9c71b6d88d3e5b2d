-- ===== src/Tokens/Steps.antt =====
-- What a command of src/tokens.rs that succeeds went through.
use registry_api_contract.Prelude.{◌≡◌, refl, ap, Bool, true, false, not, Bool-cases, inl, inr}
use registry_api_contract.Anyhow.{
  Result, ok, bail, Cause, bail_if, connect_failed, migration_failed,
}
use registry_api_contract.State.{Database}
use registry_api_contract.Config.{Env, Config, from_env}
use registry_api_contract.Tokens.{
  Command, Surroundings, after, lift, select, ◌>>=◌, ◌>>◌, open_database,
}

module _ {A B : Type 0} where
  pub through :
      (m : Command A) (f : A → Command B) {db db' : Database} {b : B}
      → (m >>= f) db ≡ (ok b, db')
      → (a : A) × ((m db).0 ≡ ok a) × (f a (m db).1 ≡ (ok b, db'))
  unfolding ◌>>=◌
  through m f {db} {db'} {b} h = go (m db).0 refl h
    where
      go :
          (r : Result A)
          → (m db).0 ≡ r
          → after f r (m db).1 ≡ (ok b, db')
          → (a : A) × ((m db).0 ≡ ok a) × (f a (m db).1 ≡ (ok b, db'))
      go (ok a) e h = (a, e, h)
      go (bail c) e h = let k = ap (λ x. x.0) h in cc

  pub through_lift :
      (r : Result A) (f : A → Command B) {db db' : Database} {b : B}
      → (lift r >>= f) db ≡ (ok b, db')
      → (a : A) × (r ≡ ok a) × (f a db ≡ (ok b, db'))
  through_lift r f h = through (lift r) f h

  pub through_select :
      (fails : Bool) (q : Database → A) (f : A → Command B) {db db' : Database} {b : B}
      → (select fails q >>= f) db ≡ (ok b, db')
      → f (q db) db ≡ (ok b, db')
  unfolding ◌>>=◌
  through_select false q f h = h
  through_select true q f h = let k = ap (λ x. x.0) h in cc

module _ {B : Type 0} where
  pub through_then :
      (m : Command (Unit {0})) (k : Command B) {db db' : Database} {b : B}
      → (m >> k) db ≡ (ok b, db')
      → ((m db).0 ≡ ok tt) × (k (m db).1 ≡ (ok b, db'))
  unfolding ◌>>◌
  through_then m k h = let (u, e, j) = through m (λ _. k) h in (e, j)

  pub through_bail :
      (c : Bool) (e : Cause) (k : Command B) {db db' : Database} {b : B}
      → (lift (bail_if c e) >> k) db ≡ (ok b, db')
      → (c ≡ false) × (k db ≡ (ok b, db'))
  unfolding ◌>>◌ ◌>>=◌
  through_bail false e k h = (refl, h)
  through_bail true e k h = let j = ap (λ x. x.0) h in cc

after_lifts :
    (r : Result Config) (o : Surroundings) (db : Database)
    → (after
        (λ cfg.
          lift (bail_if (not (o.connects cfg.database_url)) connect_failed)
          >> lift (bail_if (not o.migrates) migration_failed))
        r
        db).1
      ≡ db
unfolding ◌>>=◌ ◌>>◌
after_lifts (bail c) o db = refl
after_lifts (ok cfg) o db = elim (Bool-cases (o.connects cfg.database_url)) [
  | inl e ↦ rw e refl
  | inr e ↦ rw e refl
]

open_database_keeps :
    (env : Env) (o : Surroundings) (db : Database) → (open_database env o db).1 ≡ db
unfolding open_database ◌>>=◌
open_database_keeps env o db = after_lifts (from_env env) o db

pub through_open :
    {B : Type 0} (env : Env) (o : Surroundings) (k : Command B) {db db' : Database} {b : B}
    → (open_database env o >> k) db ≡ (ok b, db')
    → k db ≡ (ok b, db')
through_open env o k {db} h =
    let (e, j) = through_then (open_database env o) k h in rw (← open_database_keeps env o db) j
