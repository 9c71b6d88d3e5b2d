-- ===== src/Tests/Service.antt =====
-- The start of the server, its limiter and its migrations, on small inputs.
use registry_api_contract.Prelude.{
  ℕ, ◌+◌, ◌*◌, ◌/◌, ◌≤◌, ◌≡◌, refl, Bool, true, false, none, some, List, [], ◌∷◌, ◌==◌, arith, leb,
  map, if◌then◌else◌,
}
use registry_api_contract.Anyhow.{ok}
use registry_api_contract.Db.{AuditLog}
use registry_api_contract.Text.{codes}
use registry_api_contract.Text.Numbers.{parse_unsigned}
use registry_api_contract.Config.{Env, Config, from_env}
use registry_api_contract.HashMap.{get, insert, retain}
use registry_api_contract.Storage.{ArtifactStore}
use registry_api_contract.Verify.{off}
use registry_api_contract.RateLimit.{RateLimiter, nanos, check_at, sweep_at}
use registry_api_contract.RateLimit.Ideal.{
  Event, check, sweep, decisions, grants, ideal_grants, all_full,
}
use registry_api_contract.RateLimit.Refinement.{decisions_refine}
use registry_api_contract.Migration.{backfill_legacy_seq}
use registry_api_contract.Migration.Numbering.{IdsUnique, Numbered, backfill_legacy_seq-Numbered}
use registry_api_contract.Server.{Connection, connected, gave_up, max_wait, connect_with_retry}
use registry_api_contract.Server.Retry.{rounds, wait_secs, Ended, connect_with_retry_ends}
use registry_api_contract.Server.Startup.{Machine, Served, serve, limiter_from_env}
use registry_api_contract.Server.Startup.Sound.{Started, serve-Started}

abbrev env : Env
env key =
    if key == "DATABASE_URL"
    then some "postgres://localhost/zed"
    else if key == "STORAGE_BACKEND"
    then some "memory"
    else if key == "PUBLIC_BASE_URL"
    then some "https://pkg.test//"
    else none

-- Attempts answer from the third on; each takes a second, and two seconds pass between them.
abbrev answers : ℕ → Bool
answers n = leb 3 n

abbrev elapsed : ℕ → ℕ
elapsed n = n * (3 * nanos)

connect_with_retry_ends_example :
    (r : Connection) × (connect_with_retry answers elapsed env (wait_secs env / 2 + 2) ≡ some r)
    × (rounds r ≤ wait_secs env / 2 + 2)
    × Ended answers elapsed (max_wait env) r
connect_with_retry_ends_example = connect_with_retry_ends answers elapsed env (λ n. omega arith)

third_time : connect_with_retry answers elapsed env 17 ≡ some (connected 3)
unfolding connect_with_retry
third_time = refl

too_late : connect_with_retry (λ n. false) elapsed env 17 ≡ some (gave_up 10)
unfolding connect_with_retry
too_late = refl

abbrev machine : Machine
machine = record {
  open_dir = λ dir. some [];
  open_bucket = λ b. [];
  parse_rate = λ v. none;
  migrates = true;
  binds = λ a. true;
  is_postgres = true;
  probe = λ u. some true;
}

abbrev started : Served
started = record {
  settings = record {
    policy = off;
    max_orgs_per_token = 5;
    is_postgres = true;
    auth_disabled_var = none;
  };
  store = ArtifactStore.memory [] 268435456;
  public_base_url = codes "https://pkg.test";
  fiducia = none;
  rate_limiter = some (limiter_from_env machine env);
}

starts : serve machine env (some (connected 3)) ≡ ok started
unfolding serve from_env parse_unsigned
starts = refl

serve-Started_example :
    (c : Config) × (from_env env ≡ ok c) × Started machine env c (some (connected 3)) started
serve-Started_example = serve-Started machine env (some (connected 3)) started (λ v r e. cc) starts

-- Two requests of one credential, a sweep eleven minutes later, and two more.
abbrev limiter : RateLimiter
limiter = record { buckets = []; burst = 2; rate = 1; one = 1 }

abbrev events : List Event
events =
    check "a" 5
    ∷ check "a" 5
    ∷ sweep (660 * nanos)
    ∷ check "a" (661 * nanos)
    ∷ check "b" (661 * nanos)
    ∷ []

decisions_refine_example :
    grants (decisions limiter events)
    ≡ ideal_grants limiter.burst limiter.rate limiter.one
        (all_full limiter.burst limiter.rate limiter.one)
        events
decisions_refine_example = decisions_refine limiter 0 events refl (omega arith) (omega arith)

all_granted : grants (decisions limiter events) ≡ true ∷ true ∷ true ∷ true ∷ []
unfolding decisions check_at sweep_at get insert retain
all_granted = refl

abbrev legacy : AuditLog
legacy = record {
  id = 7;
  org_id = 10;
  at = 100;
  action = "publish";
  subject = "kit";
  actor_token_id = none;
  actor_token_name = "ci";
  actor_role = "owner";
  detail = none;
  seq = 0;
  entry_hash = "";
  prev_hash = none;
}

-- Two rows of the same time and one before them.
abbrev legacy_rows : List AuditLog
legacy_rows = record legacy { id = 9 } ∷ legacy ∷ record legacy { id = 8; at = 50 } ∷ []

legacy_rows-IdsUnique : IdsUnique legacy_rows
legacy_rows-IdsUnique a b i j e = ground arith

backfill_legacy_seq-Numbered_example : Numbered legacy_rows (backfill_legacy_seq legacy_rows)
backfill_legacy_seq-Numbered_example =
    backfill_legacy_seq-Numbered legacy_rows legacy_rows-IdsUnique

numbers : map (λ r. r.seq) (backfill_legacy_seq legacy_rows) ≡ 3 ∷ 2 ∷ 1 ∷ []
unfolding backfill_legacy_seq
numbers = refl
