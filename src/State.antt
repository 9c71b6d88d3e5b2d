-- ===== src/State.antt =====
-- src/state.rs, and what a handler of src/routes/ does with it: a handler is a function of the world,
-- the database and the artifact store, and its answer comes with the world that it leaves. Which
-- statements the database fails, what other requests commit meanwhile, the clock and the fresh
-- identifiers are a value of `Outside`.
pub mod Effects
use registry_api_contract.Prelude.{
  ℕ, String, Bool, true, false, Option, none, some, List, [], ◌∷◌, if◌then◌else◌,
}
use registry_api_contract.Error.{ApiErr, ApiResult, ok, err, internal}
use registry_api_contract.Db.{Uuid, Time, Org, Token, Package, Version, AuditLog, Embedding}
use registry_api_contract.Text.{Text}
use registry_api_contract.Audit.{Hasher}
use registry_api_contract.Audit.Record.{AuditAction, Attempt}
use registry_api_contract.Storage.{Bytes, External, ArtifactStore}
use registry_api_contract.Verify.{TagPolicy, RefResponse}

-- `DatabaseConnection`: the tables. The theorems hold for every order of their rows.
pub record Database : Type 0 where
  pub orgs : List Org
  pub tokens : List Token
  pub packages : List Package
  pub versions : List Version
  pub audit_log : List AuditLog
  pub embeddings : List Embedding

pub record World : Type 0 where
  pub database : Database
  pub store : ArtifactStore

-- The settings of `AppState` that the handlers read, and `ZED_AUTH_DISABLED`.
pub record AppState : Type 0 where
  pub policy : TagPolicy
  pub max_orgs_per_token : ℕ
  pub is_postgres : Bool
  pub auth_disabled_var : Option String

-- The functions of the dependencies that the handlers call: SHA-256 in hex of a text and of bytes,
-- `is_slug`, the test for version control systems with git tags, and GitHub's answers. `hasher` and
-- `action_text` serve the audit log, `external` the storage outside the process.
pub record Dependencies : Type 0 where
  pub sha256_text : Text → String
  pub sha256_bytes : Bytes → String
  pub is_slug : String → Bool
  pub uses_git_tags : String → Bool
  pub get_ref : Text → Text → String → RefResponse
  pub hasher : Hasher
  pub action_text : AuditAction → String
  pub external : External

-- The statements of the handlers.
pub data Call : Type 0 where
  find_token find_operator insert_operator find_operator_again : Call
  find_org find_package find_version update_version : Call
  begin upsert find_upserted insert_version commit : Call
  find_slug lock count_orgs insert_org : Call
  find_artifact find_versions find_audit list_packages_rows count_packages search_packages : Call
  upsert_embedding_row nearest find_neighbor : Call

pub record Outside : Type 0 where
  pub fails : Call → Bool
  pub uuid : Call → Uuid
  pub now : Time
  pub race : Database → Database
  pub attempts : ℕ → Attempt

abbrev pub Handler : Type 0 → Type 0
Handler A = World → ApiResult A × World

abbrev pub answer : {A : Type 0} → A → Handler A
answer a w = (ok a, w)

abbrev pub refuse : {A : Type 0} → ApiErr → Handler A
refuse e w = (err e, w)

abbrev pub after : {A B : Type 0} → (A → Handler B) → ApiResult A → World → ApiResult B × World
after f (ok a) w = f a w
after f (err e) w = (err e, w)

infixl 10 ◌>>=◌
-- The `?` operator after an `await`.
unfoldable pub ◌>>=◌ : {A B : Type 0} → Handler A → (A → Handler B) → Handler B
(m >>= f) w = after f (m w).0 (m w).1

-- A result that needs nothing of the world.
abbrev pub lift : {A : Type 0} → ApiResult A → Handler A
lift r w = (r, w)

-- An early return.
unfoldable pub require : Bool → ApiErr → Handler (Unit {0})
require c e w = (if c then ok tt else err e, w)

-- A query that fails when the database says so.
unfoldable pub query : {A : Type 0} → Bool → (Database → A) → Handler A
query fails f w = (if fails then err internal else ok (f w.database), w)

abbrev pub set_database : Database → Handler (Unit {0})
set_database d w = (ok tt, record w { database = d })

-- What other requests commit at this point.
abbrev pub meanwhile : (Database → Database) → Handler (Unit {0})
meanwhile race w = (ok tt, record w { database = race w.database })

abbrev pub settled : {A : Type 0} → Database → ApiResult A × World → ApiResult A × World
settled before (ok a, w) = (ok a, w)
settled before (err e, w) = (err e, record w { database = before })

-- A transaction, which an error rolls back.
unfoldable pub transaction : {A : Type 0} → Handler A → Handler A
transaction m w = settled w.database (m w)
