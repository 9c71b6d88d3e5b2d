-- ===== src/Tokens.antt =====
-- src/tokens.rs: the commands that mint and revoke tokens. A command is a function of the database, which is
-- left with what was written when it stops at an error. The tables have the form of the last migration.
pub mod Arguments
pub mod Revoke
pub mod Steps
pub mod Mint
use registry_api_contract.Prelude.{
  ℕ, zero, suc, ◌+◌, String, Bool, true, false, not, Option, none, some, List, [], ◌∷◌, ◌++◌, ◌==◌,
  ◌&&◌, nat_eq, find, keep, map, is_some, if◌then◌else◌,
}
use registry_api_contract.Anyhow.{
  Result, ok, bail, context, bail_if, bad_uuid, no_match, connect_failed, migration_failed,
  statement_failed, out_of_range,
}
use registry_api_contract.Db.{
  Uuid, Time, Org, Token, DbResult, done, failed, insert_row, org_clashes, token_clashes,
}
use registry_api_contract.Text.{Text, codes}
use registry_api_contract.Config.{Env, Config, from_env}
use registry_api_contract.State.{Database}
use registry_api_contract.Routes.{has_slug}
use registry_api_contract.Tokens.Arguments.{
  CreateArgs, create_defaults, Request, parse_create, checked_request, RevokeArgs, revoke_defaults,
  parse_revoke, checked_identifier,
}

-- The functions of the dependencies: SHA-256 in hex, a UUID in plain hex, the reading of a UUID, and a date
-- some days later, where `none` is the panic of a date out of range.
pub record Tools : Type 0 where
  pub sha256_text : Text → String
  pub simple : Uuid → Text
  pub parse_uuid : String → Option Uuid
  pub add_days : Time → ℕ → Option Time

-- What a run does not control: the statements that fail, the clock, fresh identifiers, and what other
-- processes commit between the lookup of an organisation and its insert.
pub data Statement : Type 0 where
  find_org insert_org insert_token find_tokens : Statement

pub data Fresh : Type 0 where
  first_half second_half token_id org_id : Fresh

pub record Surroundings : Type 0 where
  pub connects : String → Bool
  pub migrates : Bool
  pub fails : Statement → Bool
  pub update_fails : Uuid → Bool
  pub now : Time
  pub fresh : Fresh → Uuid
  pub race : Database → Database

abbrev pub Command : Type 0 → Type 0
Command A = Database → Result A × Database

abbrev pub finish : {A : Type 0} → A → Command A
finish a db = (ok a, db)

abbrev pub lift : {A : Type 0} → Result A → Command A
lift r db = (r, db)

abbrev pub after : {A B : Type 0} → (A → Command B) → Result A → Database → Result B × Database
after f (ok a) db = f a db
after f (bail c) db = (bail c, db)

infixl 10 ◌>>=◌ ◌>>◌
unfoldable pub ◌>>=◌ : {A B : Type 0} → Command A → (A → Command B) → Command B
(m >>= f) db = after f (m db).0 (m db).1

unfoldable pub ◌>>◌ : {B : Type 0} → Command (Unit {0}) → Command B → Command B
unfolding ◌>>=◌
m >> k = m >>= λ _. k

abbrev pub select : {A : Type 0} → Bool → (Database → A) → Command A
select fails q db = (if fails then bail statement_failed else ok (q db), db)

abbrev pub meanwhile : (Database → Database) → Command (Unit {0})
meanwhile race db = (ok tt, race db)

module _ (env : Env) (o : Surroundings) where
  -- The settings, the connection and the migrations.
  unfoldable pub open_database : Command (Unit {0})
  unfolding ◌>>=◌ ◌>>◌
  open_database = do
    cfg ← lift (from_env env)
    lift (bail_if (not (o.connects cfg.database_url)) connect_failed)
    lift (bail_if (not o.migrates) migration_failed)

module _ (t : Tools) (o : Surroundings) where
  abbrev pub new_org : String → Org
  new_org slug = record {
    id = o.fresh org_id;
    slug = slug;
    created_at = o.now;
    created_by_token = none;
  }

  abbrev pub stored_org : Org → DbResult (List Org) → Database → Result Org × Database
  stored_org row (done rows) db = (ok row, record db { orgs = rows })
  stored_org row (failed e) db = (bail statement_failed, db)

  unfoldable pub insert_new_org : Org → Command Org
  insert_new_org row db =
      if o.fails insert_org
      then (bail statement_failed, db)
      else stored_org row (insert_row org_clashes row db.orgs) db

  unfoldable pub find_or_create_org : String → Command Org
  unfolding ◌>>=◌ ◌>>◌ insert_new_org
  find_or_create_org slug = do
    existing ← select (o.fails find_org) (λ db. find (has_slug slug) db.orgs)
    elim existing [
      | some row ↦ finish row
      | none ↦ do meanwhile o.race; insert_new_org (new_org slug)
    ]

  unfoldable pub scope_of : Option String → Command (Option Uuid)
  unfolding find_or_create_org ◌>>=◌
  scope_of none = finish none
  scope_of (some slug) = do row ← find_or_create_org slug; finish (some row.id)

  unfoldable pub expiry_of : Option ℕ → Result (Option Time)
  expiry_of none = ok none
  expiry_of (some days) = elim (t.add_days o.now days) [
    | some at ↦ ok (some at)
    | none ↦ bail out_of_range
  ]

  unfoldable pub plaintext : Text
  plaintext = codes "zpkg_" ++ (t.simple (o.fresh first_half) ++ t.simple (o.fresh second_half))

  abbrev pub new_token : Request → Option Uuid → Option Time → Token
  new_token r scope expires_at = record {
    id = o.fresh token_id;
    name = r.name;
    token_hash = t.sha256_text (plaintext);
    org_id = scope;
    role = r.role;
    created_at = o.now;
    expires_at = expires_at;
    revoked_at = none;
  }

  abbrev pub stored_token : DbResult (List Token) → Database → Result (Unit {0}) × Database
  stored_token (done rows) db = (ok tt, record db { tokens = rows })
  stored_token (failed e) db = (bail statement_failed, db)

  unfoldable pub insert_new_token : Token → Command (Unit {0})
  insert_new_token row db =
      if o.fails insert_token
      then (bail statement_failed, db)
      else stored_token (insert_row token_clashes row db.tokens) db

  -- The token of a request that passed the checks.
  unfoldable pub mint : Request → Command Text
  unfolding scope_of expiry_of insert_new_token ◌>>=◌ ◌>>◌
  mint r = do
    scope ← scope_of r.org_slug
    expires_at ← lift (expiry_of r.expires_in_days)
    insert_new_token (new_token r scope expires_at)
    finish (plaintext)

  -- `create_token`, which prints the plaintext that it answers here.
  unfoldable pub create_token : Env → List String → Command Text
  unfolding parse_create checked_request open_database mint ◌>>=◌ ◌>>◌
  create_token env args = do
    a ← lift (parse_create args create_defaults)
    r ← lift (checked_request a)
    open_database env o
    mint r
