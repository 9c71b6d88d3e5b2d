-- ===== src/Routes/Lookups.antt =====
-- The lookups that the handlers of src/routes/mod.rs share: they change nothing, and what they find is in
-- the table under the name that was asked for.
use registry_api_contract.Prelude.{
  String, ◌≡◌, true, eq_iff, arith, Option, none, some, In, find-some,
}
use registry_api_contract.Error.{ApiErr, ok, ok_or}
use registry_api_contract.Db.{Org, Package}
use registry_api_contract.State.{World, Outside}
use registry_api_contract.State.Effects.{
  Keeps, Keeps->>=, Unchanged, Unchanged-trans, lift-Keeps, query-Keeps, through_query,
}
use registry_api_contract.Routes.{org_of, package_of, has_slug, is_package}

pub found_row :
    {A : Type 0} (row : Option A) (e : ApiErr) {a : A} → ok_or row e ≡ ok a → row ≡ some a
found_row none e h = cc
found_row (some b) e h = cc

pub org_of-Keeps : (o : Outside) (slug : String) → Keeps Unchanged (org_of o slug)
unfolding org_of
org_of-Keeps o slug = Keeps->>= Unchanged-trans (query-Keeps _ _) λ row. lift-Keeps _

pub package_of-Keeps :
    (o : Outside) (org : Org) (name : String) → Keeps Unchanged (package_of o org name)
unfolding package_of
package_of-Keeps o org name = Keeps->>= Unchanged-trans (query-Keeps _ _) λ row. lift-Keeps _

pub org_of_ok :
    (o : Outside) (slug : String) (v : World) (org : Org)
    → (org_of o slug v).0 ≡ ok org
    → In org v.database.orgs × (org.slug ≡ slug)
unfolding org_of
org_of_ok o slug v org h =
    through_query (λ x. In org v.database.orgs × (org.slug ≡ slug)) _ _ _ h
      λ h1.
        let (member, hit) = find-some (has_slug slug) v.database.orgs org (found_row _ _ h1) in
        (member, ground (arith, eq_iff org.slug slug))

pub package_of_ok :
    (o : Outside) (org : Org) (name : String) (v : World) (pkg : Package)
    → (package_of o org name v).0 ≡ ok pkg
    → In pkg v.database.packages × (is_package org.id name pkg ≡ true)
unfolding package_of
package_of_ok o org name v pkg h =
    through_query (λ x. In pkg v.database.packages × (is_package org.id name pkg ≡ true)) _ _ _ h
      λ h1. find-some (is_package org.id name) v.database.packages pkg (found_row _ _ h1)
