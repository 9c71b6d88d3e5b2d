-- ===== src/Rbac.antt =====
-- src/rbac.rs: roles, and the two authorizers that every mutating handler goes through.
pub mod Authority
use registry_api_contract.Prelude.{
  ℕ, String, Bool, true, false, Option, none, some, ◌==◌, nat_eq, not, if◌then◌else◌,
}
use registry_api_contract.Error.{ApiResult, ok, err, unauthorized, forbidden}
use registry_api_contract.Db.{Uuid}

pub data Role : Type 0 where
  owner publisher reader : Role

unfoldable pub parse : String → Role
parse s =
    if s == "owner"
    then owner
    else if s == "publisher"
    then publisher
    else if s == "reader"
    then reader
    else reader

unfoldable pub as_str : Role → String
as_str owner = "owner"
as_str publisher = "publisher"
as_str reader = "reader"

unfoldable pub is_valid : String → Bool
is_valid s = if s == "owner" then true else if s == "publisher" then true else s == "reader"

unfoldable pub can_publish : Role → Bool
can_publish owner = true
can_publish publisher = true
can_publish reader = false

unfoldable pub can_manage : Role → Bool
can_manage owner = true
can_manage publisher = false
can_manage reader = false

unfoldable pub authorize_publish : Option Uuid → Role → Uuid → ApiResult (Unit {0})
unfolding can_publish
authorize_publish none role target_org = ok tt
authorize_publish (some scope) role target_org =
    if not (nat_eq scope target_org)
    then err unauthorized
    else if can_publish role
    then ok tt
    else err (forbidden "insufficient_role")

unfoldable pub authorize_manage : Option Uuid → Role → Uuid → ApiResult (Unit {0})
unfolding can_manage
authorize_manage none role target_org = ok tt
authorize_manage (some scope) role target_org =
    if not (nat_eq scope target_org)
    then err unauthorized
    else if can_manage role
    then ok tt
    else err (forbidden "insufficient_role")
