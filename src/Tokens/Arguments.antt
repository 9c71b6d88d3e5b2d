-- ===== src/Tokens/Arguments.antt =====
-- The arguments of the commands of src/tokens.rs, and the checks before the database is opened.
pub mod Scope
use registry_api_contract.Prelude.{
  ℕ, zero, suc, String, Bool, true, false, not, Option, none, some, List, [], ◌∷◌, ◌==◌, ◌&&◌,
  is_some, if◌then◌else◌,
}
use registry_api_contract.Anyhow.{
  Result, ok, bail, ◌>>=◌, ◌>>◌, context, bail_if, missing_value, bad_days, nonpositive_days,
  unknown_argument, name_required, bad_role, role_without_org, identifier_required,
}
use registry_api_contract.Text.{codes}
use registry_api_contract.Text.Numbers.{pos, negsuc, parse_i64}
use registry_api_contract.Rbac.{is_valid}

-- The variables that the loop over the arguments of `create_token` sets.
pub record CreateArgs : Type 0 where
  pub name : Option String
  pub org_slug : Option String
  pub role : String
  pub expires_in_days : Option ℕ

abbrev pub create_defaults : CreateArgs
create_defaults = record { name = none; org_slug = none; role = "owner"; expires_in_days = none }

-- The value of `--expires-in-days`.
unfoldable pub positive_days : String → Result ℕ
positive_days raw = elim (parse_i64 (codes raw)) [
  | none ↦ bail bad_days
  | some n ↦ elim n [
    | pos zero ↦ bail nonpositive_days
    | pos (suc d) ↦ ok (suc d)
    | negsuc d ↦ bail nonpositive_days
  ]
]

-- A flag that takes what follows it, if anything does, without complaint.
pub data Flag : Type 0 where
  name_flag org_flag role_flag days_flag : Flag
  other_flag : Flag

unfoldable pub create_flag : String → Flag
create_flag arg =
    if arg == "--name"
    then Flag.name_flag
    else if arg == "--org"
    then Flag.org_flag
    else if arg == "--role"
    then Flag.role_flag
    else if arg == "--expires-in-days"
    then Flag.days_flag
    else Flag.other_flag

-- What one flag does with the value that follows it; `--role` and `--expires-in-days` need one.
unfoldable pub apply_flag : Flag → Option String → CreateArgs → Result CreateArgs
unfolding positive_days
apply_flag Flag.name_flag value a = ok (record a { name = value })
apply_flag Flag.org_flag value a = ok (record a { org_slug = value })
apply_flag Flag.role_flag value a = do
  role ← context missing_value value
  ok (record a { role = role })
apply_flag Flag.days_flag value a = do
  raw ← context missing_value value
  days ← positive_days raw
  ok (record a { expires_in_days = some days })
apply_flag Flag.other_flag value a = bail unknown_argument

unfoldable pub parse_create : List String → CreateArgs → Result CreateArgs
unfolding create_flag apply_flag
parse_create [] a = ok a
parse_create (arg ∷ []) a = apply_flag (create_flag arg) none a
parse_create (arg ∷ value ∷ rest) a = do
  a' ← apply_flag (create_flag arg) (some value) a
  parse_create rest a'

-- A request for a token that passed the checks before the database is opened.
pub record Request : Type 0 where
  pub name : String
  pub org_slug : Option String
  pub role : String
  pub expires_in_days : Option ℕ

unfoldable pub checked_request : CreateArgs → Result Request
unfolding is_valid
checked_request a = do
  name ← context name_required a.name
  bail_if (not (is_valid a.role)) bad_role
  bail_if (not (is_some a.org_slug) && not (a.role == "owner")) role_without_org
  ok (record {
    name = name;
    org_slug = a.org_slug;
    role = a.role;
    expires_in_days = a.expires_in_days;
  })

-- The variables that the loop over the arguments of `revoke_token` sets.
pub record RevokeArgs : Type 0 where
  pub name : Option String
  pub id : Option String

abbrev pub revoke_defaults : RevokeArgs
revoke_defaults = record { name = none; id = none }

unfoldable pub apply_revoke_flag : String → Option String → RevokeArgs → Result RevokeArgs
apply_revoke_flag arg value a =
    if arg == "--name"
    then ok (record a { name = value })
    else if arg == "--id"
    then ok (record a { id = value })
    else bail unknown_argument

unfoldable pub parse_revoke : List String → RevokeArgs → Result RevokeArgs
unfolding apply_revoke_flag
parse_revoke [] a = ok a
parse_revoke (arg ∷ []) a = apply_revoke_flag arg none a
parse_revoke (arg ∷ value ∷ rest) a = do
  a' ← apply_revoke_flag arg (some value) a
  parse_revoke rest a'

unfoldable pub checked_identifier : RevokeArgs → Result (Unit {0})
checked_identifier a = bail_if (not (is_some a.name) && not (is_some a.id)) identifier_required
