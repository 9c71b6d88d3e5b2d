-- ===== src/Anyhow.antt =====
-- `anyhow::Result` of the process's own commands, in src/config.rs, src/tokens.rs and src/server.rs. An
-- error is told by the place that raises it; its message is not modelled.
use registry_api_contract.Prelude.{Bool, true, false, Option, none, some}

pub data Cause : Type 0 where
  bad_memory_bytes zero_memory_bytes bucket_required unknown_backend bad_tag_policy : Cause
  database_url_required bad_artifact_bytes bad_org_quota bad_connections : Cause
  missing_value bad_days nonpositive_days unknown_argument name_required bad_role role_without_org :
      Cause
  identifier_required bad_uuid no_match : Cause
  connect_failed migration_failed statement_failed out_of_range : Cause
  store_failed bind_failed probe_failed unhealthy : Cause

pub data Result (T : Type 0) : Type 0 where
  bail : Cause → Result T
  ok : T → Result T

-- The `?` operator, and a statement whose answer is not looked at.
infixl 10 ◌>>=◌ ◌>>◌
abbrev pub ◌>>=◌ : {T U : Type 0} → Result T → (T → Result U) → Result U
bail cause >>= next = bail cause
ok value >>= next = next value

abbrev pub ◌>>◌ : {T U : Type 0} → Result T → Result U → Result U
first >> second = first >>= λ ignored. second

-- `context` of an option
abbrev pub context : {A : Type 0} → Cause → Option A → Result A
context c none = bail c
context c (some a) = ok a

-- `bail!` under a test
abbrev pub bail_if : Bool → Cause → Result (Unit {0})
bail_if true c = bail c
bail_if false c = ok tt
