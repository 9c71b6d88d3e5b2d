-- ===== src/Config/Sound.antt =====
-- What src/config.rs makes sure of.
use registry_api_contract.Prelude.{
  ℕ, zero, suc, subst, ◌<◌, String, ◌≡◌, refl, ap, inl, inr, Bool-cases, Option, none, some, ◌==◌,
  nat_eq, eq_iff, arith,
}
use registry_api_contract.Anyhow.{
  Result, ok, bail, ◌>>=◌, context, bail_if, Cause, bad_memory_bytes, zero_memory_bytes,
  bucket_required, database_url_required, bad_artifact_bytes, bad_org_quota, bad_connections,
}
use registry_api_contract.Text.Numbers.{parse_u32}
use registry_api_contract.Text.{codes}
use registry_api_contract.Config.{
  Env, Config, StorageConfig, from_env, storage_config, memory_config, s3_config, tag_policy,
  number_or, env_or,
}
use registry_api_contract.Verify.{TagPolicy, off, github}

pub through :
    {T U : Type 0} (first : Result T) (next : T → Result U) {final : U}
    → (first >>= next) ≡ ok final
    → (value : T) × (first ≡ ok value) × (next value ≡ ok final)
through (bail cause) next h = cc
through (ok value) next h = (value, refl, h)

pub ok_inj : {A : Type 0} {x y : A} → ok x ≡ ok y → x ≡ y
ok_inj h = cc

module _ (env : Env) where
  -- Storage as it was configured: process memory is bounded by a positive number, a bucket is named.
  abbrev pub Stored : StorageConfig → Type 0
  Stored (StorageConfig.memory n) = 0 < n
  Stored (StorageConfig.local dir) = dir ≡ env_or env "STORAGE_LOCAL_DIR" ".data/artifacts"
  Stored (StorageConfig.s3 bucket endpoint region path_style) = env "S3_BUCKET" ≡ some bucket

  memory_config-Stored : (c : StorageConfig) → memory_config env ≡ ok c → Stored c
  unfolding memory_config
  memory_config-Stored c h =
      let (n, e, h1) =
        through (number_or env "STORAGE_MEMORY_MAX_BYTES" "268435456" bad_memory_bytes) _ h in
      let (u, z, h2) = through (bail_if (nat_eq n 0) zero_memory_bytes) _ h1 in
      let pos : 0 < n = not_zero n z in subst Stored (ok_inj h2) pos
    where
      not_zero : (n : ℕ) → bail_if (nat_eq n 0) zero_memory_bytes ≡ ok tt → 0 < n
      not_zero zero z = cc
      not_zero (suc n) z = omega arith

  s3_config-Stored : (c : StorageConfig) → s3_config env ≡ ok c → Stored c
  unfolding s3_config
  s3_config-Stored c h =
      let (bucket, e, h1) = through (context bucket_required (env "S3_BUCKET")) _ h in
      subst Stored (ok_inj h1) (named (env "S3_BUCKET") bucket e)
    where
      named :
          (v : Option String) (bucket : String)
          → context bucket_required v ≡ ok bucket
          → v ≡ some bucket
      named none bucket e = cc
      named (some b) bucket e = ap some (ok_inj e)

  storage_config-Stored : (c : StorageConfig) → storage_config env ≡ ok c → Stored c
  unfolding storage_config
  storage_config-Stored c h = elim (Bool-cases (env_or env "STORAGE_BACKEND" "local" == "memory")) [
    | inl m ↦ memory_config-Stored c (rw m at h)
    | inr m ↦ elim (Bool-cases (env_or env "STORAGE_BACKEND" "local" == "local")) [
      | inl l ↦ let k = rw (m, l) at h in subst Stored (ok_inj k) refl
      | inr l ↦ elim (Bool-cases (env_or env "STORAGE_BACKEND" "local" == "s3")) [
        | inl b ↦ s3_config-Stored c (rw (m, l, b) at h)
        | inr b ↦ let k = rw (m, l, b) at h in cc
      ]
    ]
  ]

  -- The policy is the one that the variable spells.
  abbrev pub Spelt : TagPolicy → Type 0
  Spelt off = env_or env "ZED_VERIFY_TAGS" "off" ≡ "off"
  Spelt github = env_or env "ZED_VERIFY_TAGS" "off" ≡ "github"

  tag_policy-Spelt : (p : TagPolicy) → tag_policy env ≡ ok p → Spelt p
  unfolding tag_policy
  tag_policy-Spelt p h = elim (Bool-cases (env_or env "ZED_VERIFY_TAGS" "off" == "off")) [
    | inl a ↦
        let k = rw a at h in
        subst Spelt (ok_inj k) ((eq_iff (env_or env "ZED_VERIFY_TAGS" "off") "off").0 a)
    | inr a ↦ elim (Bool-cases (env_or env "ZED_VERIFY_TAGS" "off" == "github")) [
      | inl b ↦
          let k = rw (a, b) at h in
          subst Spelt (ok_inj k) ((eq_iff (env_or env "ZED_VERIFY_TAGS" "off") "github").0 b)
      | inr b ↦ let k = rw (a, b) at h in cc
    ]
  ]

  -- What every configuration that is read satisfies.
  pub record Read (c : Config) : Type 0 where
    pub stored : Stored c.storage
    pub spelt : Spelt c.verify_tags
    pub database : env "DATABASE_URL" ≡ some c.database_url

  context_ok : {A : Type 0} (e : Cause) (v : Option A) (a : A) → context e v ≡ ok a → v ≡ some a
  context_ok e none a h = cc
  context_ok e (some b) a h = ap some (ok_inj h)

  pub from_env-Read : (c : Config) → from_env env ≡ ok c → Read c
  unfolding from_env
  from_env-Read c h =
      let (storage, s, h1) = through (storage_config env) _ h in
      let (policy, p, h2) = through (tag_policy env) _ h1 in
      let (url, d, h3) = through (context database_url_required (env "DATABASE_URL")) _ h2 in
      let (bytes, b, h4) =
        through (number_or env "MAX_ARTIFACT_BYTES" "104857600" bad_artifact_bytes) _ h3 in
      let (orgs, q, h5) = through (number_or env "ZED_MAX_ORGS_PER_TOKEN" "5" bad_org_quota) _ h4 in
      let (connections, x, h6) =
        through (context bad_connections (parse_u32 (codes (env_or env "DB_MAX_CONNECTIONS" "10"))))
          _ h5 in
      subst Read (ok_inj h6) (record {
        stored = storage_config-Stored storage s;
        spelt = tag_policy-Spelt policy p;
        database = context_ok database_url_required (env "DATABASE_URL") url d;
      })
