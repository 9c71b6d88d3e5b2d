-- ===== src/Config.antt =====
-- src/config.rs: the settings, read from the environment.
pub mod Sound
use registry_api_contract.Prelude.{
  ℕ, String, Bool, true, false, Option, none, some, ◌==◌, nat_eq, unwrap_or, if◌then◌else◌,
}
use registry_api_contract.Anyhow.{
  Result, ok, bail, ◌>>=◌, ◌>>◌, context, bail_if, Cause, bad_memory_bytes, zero_memory_bytes,
  bucket_required, unknown_backend, bad_tag_policy, database_url_required, bad_artifact_bytes,
  bad_org_quota, bad_connections,
}
use registry_api_contract.Text.{codes}
use registry_api_contract.Text.Numbers.{parse_u64, parse_u32}
use registry_api_contract.Verify.{TagPolicy, off, github}

-- `std::env::var(key).ok()`
abbrev pub Env : Type 0
Env = String → Option String

pub record FiduciaConfig : Type 0 where
  pub url : String
  pub internal_secret : Option String
  pub org_id : String

pub data StorageConfig : Type 0 where
  memory : ℕ → StorageConfig
  local : String → StorageConfig
  s3 : String → Option String → String → Bool → StorageConfig

pub record Config : Type 0 where
  pub bind_addr : String
  pub database_url : String
  pub auto_migrate : Bool
  pub storage : StorageConfig
  pub public_base_url : String
  pub verify_tags : TagPolicy
  pub max_artifact_bytes : ℕ
  pub max_orgs_per_token : ℕ
  pub db_max_connections : ℕ
  pub fiducia : Option FiduciaConfig

module _ (env : Env) where
  abbrev pub env_or : String → String → String
  env_or key default = unwrap_or default (env key)

  abbrev pub number_or : String → String → Cause → Result ℕ
  number_or key default c = context c (parse_u64 (codes (env_or key default)))

  unfoldable pub memory_config : Result StorageConfig
  memory_config = do
    max_bytes ← number_or "STORAGE_MEMORY_MAX_BYTES" "268435456" bad_memory_bytes
    bail_if (nat_eq max_bytes 0) zero_memory_bytes
    ok (memory max_bytes)

  unfoldable pub s3_config : Result StorageConfig
  s3_config = do
    bucket ← context bucket_required (env "S3_BUCKET")
    ok (
        s3 bucket (env "S3_ENDPOINT_URL") (env_or "S3_REGION" "auto")
          (env_or "S3_FORCE_PATH_STYLE" "true" == "true"))

  unfoldable pub storage_config : Result StorageConfig
  unfolding memory_config s3_config
  storage_config =
      let backend = env_or "STORAGE_BACKEND" "local" in
      if backend == "memory"
      then memory_config
      else if backend == "local"
      then ok (local (env_or "STORAGE_LOCAL_DIR" ".data/artifacts"))
      else if backend == "s3"
      then s3_config
      else bail unknown_backend

  unfoldable pub tag_policy : Result TagPolicy
  tag_policy =
      let policy = env_or "ZED_VERIFY_TAGS" "off" in
      if policy == "off"
      then ok off
      else if policy == "github"
      then ok github
      else bail bad_tag_policy

  abbrev pub fiducia_config : String → FiduciaConfig
  fiducia_config url = record {
    url = url;
    internal_secret = env "FIDUCIA_INTERNAL_SECRET";
    org_id = env_or "FIDUCIA_ORG_ID" "zed-registry";
  }

  abbrev pub fiducia_of : Option String → Option FiduciaConfig
  fiducia_of none = none
  fiducia_of (some url) = some (fiducia_config url)

  unfoldable pub from_env : Result Config
  unfolding storage_config tag_policy
  from_env = do
    storage ← storage_config
    verify_tags ← tag_policy
    database_url ← context database_url_required (env "DATABASE_URL")
    max_artifact_bytes ← number_or "MAX_ARTIFACT_BYTES" "104857600" bad_artifact_bytes
    max_orgs_per_token ← number_or "ZED_MAX_ORGS_PER_TOKEN" "5" bad_org_quota
    db_max_connections ←
        context bad_connections (parse_u32 (codes (env_or "DB_MAX_CONNECTIONS" "10")))
    ok (record {
      bind_addr = env_or "BIND_ADDR" "0.0.0.0:8080";
      database_url = database_url;
      auto_migrate = env_or "AUTO_MIGRATE" "true" == "true";
      storage = storage;
      public_base_url = env_or "PUBLIC_BASE_URL" "http://localhost:8080";
      verify_tags = verify_tags;
      max_artifact_bytes = max_artifact_bytes;
      max_orgs_per_token = max_orgs_per_token;
      db_max_connections = db_max_connections;
      fiducia = fiducia_of (env "FIDUCIA_URL");
    })
