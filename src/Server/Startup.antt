-- ===== src/Server/Startup.antt =====
-- The start of the server in src/server.rs: from the environment to the state that the handlers share.
pub mod Sound
use registry_api_contract.Prelude.{
  ℕ, String, Bool, true, false, not, Option, none, some, List, [], ◌∷◌, ◌==◌, ◌&&◌, nat_eq,
  unwrap_or, if◌then◌else◌,
}
use registry_api_contract.Anyhow.{
  Result, ok, bail, ◌>>=◌, ◌>>◌, context, bail_if, connect_failed, migration_failed, store_failed,
  bind_failed, probe_failed, unhealthy,
}
use registry_api_contract.Text.{Text, codes, trim_end_by}
use registry_api_contract.Text.Numbers.{parse_u32}
use registry_api_contract.Config.{Env, Config, StorageConfig, FiduciaConfig, from_env, env_or}
use registry_api_contract.Storage.{Objects, ArtifactStore}
use registry_api_contract.RateLimit.{RateLimiter, new}
use registry_api_contract.State.{AppState}
use registry_api_contract.Server.{Connection, connected, gave_up, healthcheck_url}

-- What the process finds outside: the contents of a directory that could be made and of a bucket, the reading of
-- a number of requests per second as a fraction, where one that is not positive has numerator 0, the migrations,
-- the socket, the backend, and the status of the health probe.
pub record Machine : Type 0 where
  pub open_dir : String → Option Objects
  pub open_bucket : String → Objects
  pub parse_rate : Text → Option (ℕ × ℕ)
  pub migrates : Bool
  pub binds : String → Bool
  pub is_postgres : Bool
  pub probe : Text → Option Bool

abbrev pub parsed_burst : Option String → Option ℕ
parsed_burst none = none
parsed_burst (some v) = parse_u32 (codes v)

abbrev pub is_one : Option String → Bool
is_one none = false
is_one (some v) = v == "1"

-- `AppState`, as the server starts with it.
pub record Served : Type 0 where
  pub settings : AppState
  pub store : ArtifactStore
  pub public_base_url : Text
  pub fiducia : Option FiduciaConfig
  pub rate_limiter : Option RateLimiter

abbrev pub established : Option Connection → Result (Unit {0})
established (some (connected n)) = ok tt
established (some (gave_up n)) = bail connect_failed
established none = bail connect_failed

abbrev pub healthy : Option Bool → Result (Unit {0})
healthy none = bail probe_failed
healthy (some success) = bail_if (not success) unhealthy

module _ (m : Machine) where
  -- `ArtifactStore::from_config`
  unfoldable pub from_config : StorageConfig → Result ArtifactStore
  from_config (StorageConfig.memory max_bytes) = ok (ArtifactStore.memory [] max_bytes)
  from_config (StorageConfig.local dir) = elim (m.open_dir dir) [
    | none ↦ bail store_failed
    | some files ↦ ok (ArtifactStore.local files)
  ]
  from_config (StorageConfig.s3 bucket endpoint region path_style) =
      ok (ArtifactStore.s3 (m.open_bucket bucket))

  abbrev pub parsed_rate : Option String → Option (ℕ × ℕ)
  parsed_rate none = none
  parsed_rate (some v) = m.parse_rate (codes v)

  -- `RateLimiter::from_env`
  unfoldable pub limiter_from_env : Env → RateLimiter
  unfolding new
  limiter_from_env env =
      let rate = unwrap_or (10, 1) (parsed_rate (env "ZED_RATE_LIMIT_PER_SECOND")) in
      new (unwrap_or 60 (parsed_burst (env "ZED_RATE_LIMIT_BURST"))) rate.0 rate.1

  unfoldable pub rate_limiter : Env → Option RateLimiter
  unfolding limiter_from_env
  rate_limiter env =
      if is_one (env "ZED_RATE_LIMIT_DISABLED") then none else some (limiter_from_env env)

  -- The start, with how the first connection ended. The listener is bound last.
  unfoldable pub serve : Env → Option Connection → Result Served
  unfolding from_config rate_limiter
  serve env connection = do
    cfg ← from_env env
    established connection
    bail_if (cfg.auto_migrate && not m.migrates) migration_failed
    store ← from_config cfg.storage
    bail_if (not (m.binds cfg.bind_addr)) bind_failed
    ok (record {
      settings = record {
        policy = cfg.verify_tags;
        max_orgs_per_token = cfg.max_orgs_per_token;
        is_postgres = m.is_postgres;
        auth_disabled_var = env "ZED_AUTH_DISABLED";
      };
      store = store;
      public_base_url = trim_end_by (λ c. nat_eq c b'/') (codes cfg.public_base_url);
      fiducia = cfg.fiducia;
      rate_limiter = rate_limiter env;
    })

  unfoldable pub healthcheck : Env → Result (Unit {0})
  healthcheck env =
      healthy (m.probe (healthcheck_url (codes (env_or env "BIND_ADDR" "0.0.0.0:8080"))))
