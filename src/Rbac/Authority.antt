-- ===== src/Rbac/Authority.antt =====
-- What src/rbac.rs grants, described without its code, and the roles' spellings.
use registry_api_contract.Prelude.{
  String, ◌≡◌, refl, ◌≢◌, ◌↔◌, ◌⊎◌, true, false, Option, none, some, arith, eq_iff,
}
use registry_api_contract.Error.{ok, err, unauthorized}
use registry_api_contract.Db.{Uuid}
use registry_api_contract.Rbac.{
  Role, owner, publisher, reader, parse, as_str, is_valid, authorize_publish, authorize_manage,
}

-- The right to publish in an organisation: an unscoped token, or one of that organisation whose
-- role is owner or publisher.
pub data MayPublish (target : Uuid) : Option Uuid → Role → Type 0 where
  admin : (role : Role) → MayPublish target none role
  as_owner : {scope : Uuid} → scope ≡ target → MayPublish target (some scope) owner
  as_publisher : {scope : Uuid} → scope ≡ target → MayPublish target (some scope) publisher

-- The right to manage an organisation: an unscoped token, or an owner token of that organisation.
pub data MayManage (target : Uuid) : Option Uuid → Role → Type 0 where
  admin : (role : Role) → MayManage target none role
  as_owner : {scope : Uuid} → scope ≡ target → MayManage target (some scope) owner

grants_publish :
    (scope : Option Uuid) (role : Role) (target : Uuid)
    → authorize_publish scope role target ≡ ok tt
    → MayPublish target scope role
unfolding authorize_publish
grants_publish none role target h = MayPublish.admin role
grants_publish (some scope) owner target h = MayPublish.as_owner (ground arith)
grants_publish (some scope) publisher target h = MayPublish.as_publisher (ground arith)
grants_publish (some scope) reader target h = absurd (ground arith)

obeys_publish :
    (scope : Option Uuid) (role : Role) (target : Uuid)
    → MayPublish target scope role
    → authorize_publish scope role target ≡ ok tt
unfolding authorize_publish
obeys_publish scope role target (MayPublish.admin r) = refl
obeys_publish scope role target (MayPublish.as_owner e) = ground arith
obeys_publish scope role target (MayPublish.as_publisher e) = ground arith

-- `authorize_publish` succeeds exactly for the tokens that have the right to publish.
pub authorize_publish_iff :
    (scope : Option Uuid) (role : Role) (target : Uuid)
    → (authorize_publish scope role target ≡ ok tt) ↔ MayPublish target scope role
authorize_publish_iff scope role target =
    (grants_publish scope role target, obeys_publish scope role target)

grants_manage :
    (scope : Option Uuid) (role : Role) (target : Uuid)
    → authorize_manage scope role target ≡ ok tt
    → MayManage target scope role
unfolding authorize_manage
grants_manage none role target h = MayManage.admin role
grants_manage (some scope) owner target h = MayManage.as_owner (ground arith)
grants_manage (some scope) publisher target h = absurd (ground arith)
grants_manage (some scope) reader target h = absurd (ground arith)

obeys_manage :
    (scope : Option Uuid) (role : Role) (target : Uuid)
    → MayManage target scope role
    → authorize_manage scope role target ≡ ok tt
unfolding authorize_manage
obeys_manage scope role target (MayManage.admin r) = refl
obeys_manage scope role target (MayManage.as_owner e) = ground arith

-- `authorize_manage` succeeds exactly for the tokens that have the right to manage.
pub authorize_manage_iff :
    (scope : Option Uuid) (role : Role) (target : Uuid)
    → (authorize_manage scope role target ≡ ok tt) ↔ MayManage target scope role
authorize_manage_iff scope role target =
    (grants_manage scope role target, obeys_manage scope role target)

-- A refused token of another organisation gets the answer of an invalid token, whatever its role:
-- the error does not tell it that the organisation would have refused its role.
pub foreign_scope_unauthorized :
    (scope target : Uuid) (role : Role)
    → scope ≢ target
    → (authorize_publish (some scope) role target ≡ err unauthorized)
      × (authorize_manage (some scope) role target ≡ err unauthorized)
unfolding authorize_publish authorize_manage
foreign_scope_unauthorized scope target role h = ground arith

-- The stored spelling of a role reads back as that role, and `create-token --role` accepts just
-- the spellings of the three roles.
pub parse-as_str : (r : Role) → (parse (as_str r) ≡ r) × (is_valid (as_str r) ≡ true)
unfolding parse as_str is_valid
parse-as_str owner = (refl, refl)
parse-as_str publisher = (refl, refl)
parse-as_str reader = (refl, refl)

-- Every spelling that `create-token --role` accepts is kept by the round trip through `parse`, and
-- every other stored text is read as the most restrictive role.
pub as_str-parse :
    (s : String)
    → ((is_valid s ≡ true) × (as_str (parse s) ≡ s)) ⊎ ((is_valid s ≡ false) × (parse s ≡ reader))
unfolding parse as_str is_valid
as_str-parse s = ground (arith, eq_iff s "owner", eq_iff s "publisher", eq_iff s "reader")
