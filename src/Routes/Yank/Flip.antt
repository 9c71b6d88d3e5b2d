-- ===== src/Routes/Yank/Flip.antt =====
-- What the yank handler of src/routes/yank.rs changes.
use registry_api_contract.Prelude.{
  ℕ, String, ◌≡◌, ◌≢◌, refl, sym, ap, subst, ◌∙◌, Bool, true, false, nat_eq, arith, eq_iff, map, In,
  In-map, In-map_inv, find-some,
}
use registry_api_contract.Error.{ApiErr, ApiResult, ok, err}
use registry_api_contract.Db.{Uuid, Org, Token, Package, Version}
use registry_api_contract.Rbac.{parse}
use registry_api_contract.Rbac.Authority.{MayPublish, authorize_publish_iff}
use registry_api_contract.State.{World, AppState, Dependencies, Outside, ◌>>=◌, update_version}
use registry_api_contract.State.Effects.{
  Keeps, Keeps->>=, OnError, OnError->>=, OnError-last, Unchanged, Unchanged-trans, Keeps-database,
  SameDatabase, SameDatabase-trans, lift-Keeps, query-Keeps, through, through_kept, through_query,
  through_lift,
}
use registry_api_contract.Auth.{auth_disabled, require_token}
use registry_api_contract.Auth.Liveness.{Bears, require_token-Keeps, require_token_ok}
use registry_api_contract.Routes.{is_version, is_package}
use registry_api_contract.Routes.Lookups.{
  org_of-Keeps, org_of_ok, package_of-Keeps, package_of_ok, found_row,
}
use registry_api_contract.Routes.Yank.{
  acknowledge_yank, YankRequest, YankResponse, set_yanked, version_of, updated, yank,
}

flips_itself :
    (row : Version) (yanked : Bool) → set_yanked row.id yanked row ≡ record row { yanked = yanked }
flips_itself row yanked = let e : nat_eq row.id row.id ≡ true = ground arith in rw e refl

keeps_other : (q : Version) (id : ℕ) (yanked : Bool) → q.id ≢ id → set_yanked id yanked q ≡ q
keeps_other q id yanked n = let e : nat_eq q.id id ≡ false = ground arith in rw e refl

pub named_package :
    (org_id : Uuid) (name : String) (p : Package)
    → is_package org_id name p ≡ true
    → (p.org_id ≡ org_id) × (p.name ≡ name)
named_package org_id name p h = (ground (arith, h), ground (arith, eq_iff p.name name, h))

named_version :
    (package_id : Uuid) (version : String) (x : Version)
    → is_version package_id version x ≡ true
    → (x.package_id ≡ package_id) × (x.version ≡ version)
named_version package_id version x h =
    (ground (arith, h), ground (arith, eq_iff x.version version, h))

module _ (d : Dependencies) (s : AppState) (o : Outside) where
  -- What stands behind an answer.
  pub record Yanked (r : YankRequest) (v : World) (x : ApiResult YankResponse × World)
      : Type 0 where
    pub token : Token
    pub org : Org
    pub pkg : Package
    pub row : Version
    pub authenticated : (require_token d s o r.authorization v).0 ≡ ok token
    pub claimed : In org v.database.orgs × (org.slug ≡ r.org)
    pub authorized : MayPublish org.id token.org_id (parse token.role)
    pub found_package : In pkg v.database.packages × (is_package org.id r.name pkg ≡ true)
    pub found_version : In row v.database.versions × (is_version pkg.id r.version row ≡ true)
    pub versions : x.1.database.versions ≡ map (set_yanked row.id r.yanked) v.database.versions
    pub rest :
        (x.1.database.orgs ≡ v.database.orgs)
        × (x.1.database.packages ≡ v.database.packages)
        × (x.1.database.tokens ≡ v.database.tokens)
        × (x.1.store ≡ v.store)

  pub version_of-Keeps : (pkg : Package) (ver : String) → Keeps Unchanged (version_of d s o pkg ver)
  unfolding version_of
  version_of-Keeps pkg ver = Keeps->>= Unchanged-trans (query-Keeps _ _) λ row. lift-Keeps _

  version_of_ok :
      (pkg : Package) (ver : String) (v : World) (row : Version)
      → (version_of d s o pkg ver v).0 ≡ ok row
      → In row v.database.versions × (is_version pkg.id ver row ≡ true)
  unfolding version_of
  version_of_ok pkg ver v row h =
      through_query (λ x. In row v.database.versions × (is_version pkg.id ver row ≡ true)) _ _ _ h
        λ h1. find-some (is_version pkg.id ver) v.database.versions row (found_row _ _ h1)

  updated_ok :
      (fails : Bool) (row : Version) (yanked : Bool) (v : World) {u : Unit {0}}
      → (updated d s o fails row yanked v).0 ≡ ok u
      → (updated d s o fails row yanked v).1 ≡ record v {
        database = record v.database {
          versions = map (set_yanked row.id yanked) v.database.versions;
        };
      }
  updated_ok true row yanked v h = cc
  updated_ok false row yanked v h = refl

  acknowledge_world :
      (org : Org) (token : Token) (r : YankRequest) (v : World)
      → ((acknowledge_yank d s o org token r v).1.database.versions ≡ v.database.versions)
        × ((acknowledge_yank d s o org token r v).1.database.orgs ≡ v.database.orgs)
        × ((acknowledge_yank d s o org token r v).1.database.packages ≡ v.database.packages)
        × ((acknowledge_yank d s o org token r v).1.database.tokens ≡ v.database.tokens)
        × ((acknowledge_yank d s o org token r v).1.store ≡ v.store)
  unfolding acknowledge_yank ◌>>=◌
  acknowledge_world org token r v = (refl, refl, refl, refl, refl)

  acknowledge_total :
      (org : Org) (token : Token) (r : YankRequest) (v : World)
      → (b : YankResponse) × ((acknowledge_yank d s o org token r v).0 ≡ ok b)
  unfolding acknowledge_yank ◌>>=◌
  acknowledge_total org token r v = (_, refl)

  yank_ok :
      (r : YankRequest) (v : World) (resp : YankResponse)
      → auth_disabled s ≡ false
      → (yank d s o r v).0 ≡ ok resp
      → Yanked r v (yank d s o r v)
  unfolding yank
  yank_ok r v resp e h =
      through_kept (Yanked r v) _ (require_token-Keeps d s o r.authorization e) h
        λ token authenticated h1.
          through_kept (Yanked r v) _ (org_of-Keeps o r.org) h1 λ org found h2.
            through_lift (Yanked r v) _ _ h2 λ u authorized h3.
              through_kept (Yanked r v) _ (package_of-Keeps o org r.name) h3 λ pkg here h4.
                through_kept (Yanked r v) _ (version_of-Keeps pkg r.version) h4 λ row there h5.
                  through (Yanked r v) _ _ h5 λ flipped change h6.
                    let world = updated_ok (o.fails update_version) row r.yanked v change in
                    let (versions, orgs, packages, tokens, store) =
                      acknowledge_world org token r
                        (updated d s o (o.fails update_version) row r.yanked v).1 in
                    record {
                      token = token;
                      org = org;
                      pkg = pkg;
                      row = row;
                      authenticated = authenticated;
                      claimed = org_of_ok o r.org v org found;
                      authorized =
                          (authorize_publish_iff token.org_id (parse token.role) org.id).0
                            authorized;
                      found_package = package_of_ok o org r.name v pkg here;
                      found_version = version_of_ok pkg r.version v row there;
                      versions = versions ∙ ap (λ x. x.database.versions) world;
                      rest = (
                        orgs ∙ ap (λ x. x.database.orgs) world,
                        packages ∙ ap (λ x. x.database.packages) world,
                        tokens ∙ ap (λ x. x.database.tokens) world,
                        store ∙ ap (λ x. x.store) world,
                      );
                    }

  updated-OnError :
      (fails : Bool) (row : Version) (yanked : Bool)
      → OnError SameDatabase (updated d s o fails row yanked)
  updated-OnError true row yanked = record { left = λ w e h. refl }
  updated-OnError false row yanked = record { left = λ w e h. cc }

  same_weaken : (u v : World) → SameDatabase u v → SameDatabase u v
  same_weaken u v h = h

  yank-OnError : (r : YankRequest) → auth_disabled s ≡ false → OnError SameDatabase (yank d s o r)
  unfolding yank
  yank-OnError r e =
      OnError->>= SameDatabase-trans same_weaken
        (Keeps-database (require_token-Keeps d s o r.authorization e))
        λ token.
          OnError->>= SameDatabase-trans same_weaken (Keeps-database (org_of-Keeps o r.org)) λ org.
            OnError->>= SameDatabase-trans same_weaken (Keeps-database (lift-Keeps _)) λ authorized.
              OnError->>= SameDatabase-trans same_weaken
                (Keeps-database (package_of-Keeps o org r.name))
                λ pkg.
                  OnError->>= SameDatabase-trans same_weaken
                    (Keeps-database (version_of-Keeps pkg r.version))
                    λ row.
                      OnError-last (λ u. acknowledge_yank d s o org token r)
                        (updated-OnError _ row r.yanked) λ u. acknowledge_total org token r

  -- The world `x` is `v` with the yank state of one row set, on behalf of a token that may do so.
  abbrev pub Flipped : YankRequest → World → World → Type 0
  Flipped r v x =
      (token : Token) × (org : Org) × (pkg : Package) × (row : Version) × Bears d s o
        r.authorization v token
      × In org v.database.orgs
      × (org.slug ≡ r.org)
      × MayPublish org.id token.org_id (parse token.role)
      × In pkg v.database.packages
      × (pkg.org_id ≡ org.id)
      × (pkg.name ≡ r.name)
      × In row v.database.versions
      × (row.package_id ≡ pkg.id)
      × (row.version ≡ r.version)
      × In (record row { yanked = r.yanked }) x.database.versions
      × ((q : Version) → In q v.database.versions → q.id ≢ row.id → In q x.database.versions)
      × ((q : Version)
          → In q x.database.versions
          → (p : Version) × In p v.database.versions × (q ≡ set_yanked row.id r.yanked p))
      × (x.database.packages ≡ v.database.packages)
      × (x.store ≡ v.store)

  -- With bearer tokens required, a yank or restore that answers was asked for with a bearer text that hashes
  -- to a stored live token, with the right to publish for the organisation of the slug in the path, and the
  -- row that it set is of the version in the path, in that organisation's package of the name in the path.
  -- Every version row is still there, as it was but for the yank state of that row, which is the requested
  -- one; no other row appears, and neither the packages nor the artifacts change.
  pub yank_flips_one :
      (r : YankRequest) (v : World) (resp : YankResponse)
      → auth_disabled s ≡ false
      → (yank d s o r v).0 ≡ ok resp
      → Flipped r v (yank d s o r v).1
  yank_flips_one r v resp e h =
      let y = yank_ok r v resp e h in
      let (_, packages, _, store) = y.rest in
      (
        y.token,
        y.org,
        y.pkg,
        y.row,
        require_token_ok d s o r.authorization v y.token e y.authenticated,
        y.claimed.0,
        y.claimed.1,
        y.authorized,
        y.found_package.0,
        (named_package y.org.id r.name y.pkg y.found_package.1).0,
        (named_package y.org.id r.name y.pkg y.found_package.1).1,
        y.found_version.0,
        (named_version y.pkg.id r.version y.row y.found_version.1).0,
        (named_version y.pkg.id r.version y.row y.found_version.1).1,
        subst (In _) (sym y.versions) (
            subst (λ q. In q (map (set_yanked y.row.id r.yanked) v.database.versions))
              (flips_itself y.row r.yanked)
              (In-map (set_yanked y.row.id r.yanked) v.database.versions y.row y.found_version.0)),
        λ q i n. subst (In q) (sym y.versions) (
            subst (λ p. In p (map (set_yanked y.row.id r.yanked) v.database.versions))
              (keeps_other q y.row.id r.yanked n)
              (In-map (set_yanked y.row.id r.yanked) v.database.versions q i)),
        λ q i.
            In-map_inv (set_yanked y.row.id r.yanked) v.database.versions q
              (subst (In q) y.versions i),
        packages,
        store,
      )

  -- With bearer tokens required, a yank that answers with an error leaves the database as it was.
  pub yank_error_leaves_nothing :
      (r : YankRequest) (v : World) (e : ApiErr)
      → auth_disabled s ≡ false
      → (yank d s o r v).0 ≡ err e
      → (yank d s o r v).1.database ≡ v.database
  yank_error_leaves_nothing r v e a h = (yank-OnError r a).left v e h
