-- ===== src/Server/Startup/Sound.antt =====
-- The state that the server of src/server.rs starts with.
use registry_api_contract.Prelude.{
  ℕ, max, subst, ltb→lt, ◌*◌, ◌<◌, ◌≤◌, String, ◌≡◌, refl, sym, inl, inr, Bool, true, false, not,
  Bool-cases, Option, none, some, Option-cases, [], ◌∷◌, ◌&&◌, nat_eq, unwrap_or, ltb, arith,
  if◌then◌else◌,
}
use native.Mathlib.Nat.{mul-le-mul_right}
use registry_api_contract.Anyhow.{ok, bail_if, Cause, migration_failed, bind_failed}
use registry_api_contract.Text.{Text, codes, trim_end_by, is_empty}
use registry_api_contract.Config.{Env, Config, StorageConfig, from_env}
use registry_api_contract.Storage.{Objects, ArtifactStore}
use registry_api_contract.RateLimit.{RateLimiter, new, nanos}
use registry_api_contract.Server.{Connection, connected, gave_up}
use registry_api_contract.Server.Startup.{
  Machine, Served, from_config, limiter_from_env, rate_limiter, is_one, parsed_rate, established,
  serve,
}
use registry_api_contract.Config.Sound.{through, ok_inj, Read, from_env-Read}

-- A limiter that serves: a request costs something, a full bucket pays for it, and time pays it back.
pub record Serves (l : RateLimiter) : Type 0 where
  pub priced : 0 < l.one
  pub affordable : l.one ≤ l.burst
  pub refills : 0 < l.rate

positive : (b : Bool) (x : ℕ) → (b ≡ true → 0 < x) → 0 < (if b then x else 1)
positive true x h = h refl
positive false x h = omega arith

times : (burst one : ℕ) → one ≤ max burst 1 * one
times burst one =
    let h : 1 ≤ max burst 1 = omega arith in let k = mul-le-mul_right one h in omega (arith, k)

pub new-Serves :
    (burst numerator denominator : ℕ) → 0 < denominator → Serves (new burst numerator denominator)
unfolding new
new-Serves burst numerator denominator h = record {
  priced = let k = positive (ltb 0 numerator) denominator (λ e. h) in omega (arith, k);
  affordable = times burst (nanos * (if ltb 0 numerator then denominator else 1));
  refills = positive (ltb 0 numerator) numerator (ltb→lt 0 numerator);
}

-- The last character satisfies a test.
abbrev pub ends_by : (ℕ → Bool) → Text → Bool
ends_by p [] = false
ends_by p (c ∷ []) = p c
ends_by p (c ∷ d ∷ s) = ends_by p (d ∷ s)

trim_end_bare : (p : ℕ → Bool) (s : Text) → ends_by p (trim_end_by p s) ≡ false
trim_end_bare p [] = refl
trim_end_bare p (c ∷ s) = step p c (trim_end_by p s) (trim_end_bare p s)
  where
    step :
        (p : ℕ → Bool) (c : ℕ) (rest : Text)
        → ends_by p rest ≡ false
        → ends_by p (if p c && is_empty rest then [] else c ∷ rest) ≡ false
    step p c [] h = elim (Bool-cases (p c)) [ inl e ↦ rw e refl | inr e ↦ rw e e ]
    step p c (d ∷ rest) h = elim (Bool-cases (p c)) [ inl e ↦ rw e h | inr e ↦ rw e h ]

module _ (m : Machine) (env : Env) where
  -- The store that a configuration asks for, empty when it is the process's memory.
  abbrev pub Opened : StorageConfig → ArtifactStore → Type 0
  Opened (StorageConfig.memory n) store = store ≡ ArtifactStore.memory [] n
  Opened (StorageConfig.local dir) store =
      (files : Objects) × (m.open_dir dir ≡ some files) × (store ≡ ArtifactStore.local files)
  Opened (StorageConfig.s3 bucket endpoint region path_style) store =
      store ≡ ArtifactStore.s3 (m.open_bucket bucket)

  from_config-Opened :
      (c : StorageConfig) (store : ArtifactStore) → from_config m c ≡ ok store → Opened c store
  unfolding from_config
  from_config-Opened (StorageConfig.memory n) store h = sym (ok_inj h)
  from_config-Opened (StorageConfig.local dir) store h = elim (Option-cases (m.open_dir dir)) [
    | inl e ↦ let k = rw (e, from_config) at h in cc
    | inr (files, e) ↦ let k = rw (e, from_config) at h in (files, e, sym (ok_inj k))
  ]
  from_config-Opened (StorageConfig.s3 bucket endpoint region path_style) store h = sym (ok_inj h)

  -- No limiter when it is switched off, otherwise one that serves.
  abbrev pub Limited : Option RateLimiter → Type 0
  Limited none = is_one (env "ZED_RATE_LIMIT_DISABLED") ≡ true
  Limited (some l) = Serves l

  limiter-Serves :
      ((v : Text) (r : ℕ × ℕ) → m.parse_rate v ≡ some r → 0 < r.1) → Serves (limiter_from_env m env)
  unfolding limiter_from_env
  limiter-Serves h = new-Serves _ _ _ (
      below (parsed_rate m (env "ZED_RATE_LIMIT_PER_SECOND"))
        (of_var (env "ZED_RATE_LIMIT_PER_SECOND")))
    where
      of_var : (v : Option String) (r : ℕ × ℕ) → parsed_rate m v ≡ some r → 0 < r.1
      of_var none r e = cc
      of_var (some v) r e = h (codes v) r e

      below :
          (v : Option (ℕ × ℕ)) → ((r : ℕ × ℕ) → v ≡ some r → 0 < r.1) → 0 < (unwrap_or (10, 1) v).1
      below none k = omega arith
      below (some r) k = k r refl

  rate_limiter-Limited :
      ((v : Text) (r : ℕ × ℕ) → m.parse_rate v ≡ some r → 0 < r.1) → Limited (rate_limiter m env)
  unfolding rate_limiter
  rate_limiter-Limited h = elim (Bool-cases (is_one (env "ZED_RATE_LIMIT_DISABLED"))) [
    | inl e ↦ rw e e
    | inr e ↦ rw e (limiter-Serves h)
  ]

  -- A server that has started, by its configuration.
  pub record Started (c : Config) (connection : Option Connection) (st : Served) : Type 0 where
    pub configured : Read env c
    pub reached : (n : ℕ) × (connection ≡ some (connected n))
    pub migrated : (c.auto_migrate && not m.migrates) ≡ false
    pub opened : Opened c.storage st.store
    pub checked : st.settings.policy ≡ c.verify_tags
    pub bounded : st.settings.max_orgs_per_token ≡ c.max_orgs_per_token
    pub bare : ends_by (λ x. nat_eq x b'/') st.public_base_url ≡ false
    pub limited : Limited st.rate_limiter

  bail_if_ok : (b : Bool) (e : Cause) → bail_if b e ≡ ok tt → b ≡ false
  bail_if_ok false e h = refl
  bail_if_ok true e h = cc

  established_ok :
      (c : Option Connection) → established c ≡ ok tt → (n : ℕ) × (c ≡ some (connected n))
  established_ok none h = cc
  established_ok (some (connected n)) h = (n, refl)
  established_ok (some (gave_up n)) h = cc

  -- When the server starts, it has read a configuration: the database's address, a tag policy as it is spelt, and a
  -- storage that is bounded by a positive number when it is memory, and named when it is a bucket. The first
  -- connection was made, and the migrations ran if they were to. The server opens the configured store, keeps the policy and
  -- the quota, and links under an address that ends in no slash. Unless it is switched off, its rate limiter has
  -- buckets that pay for a request and fill up again, as a rate is read with a positive denominator.
  pub serve-Started :
      (connection : Option Connection) (st : Served)
      → ((v : Text) (r : ℕ × ℕ) → m.parse_rate v ≡ some r → 0 < r.1)
      → serve m env connection ≡ ok st
      → (c : Config) × (from_env env ≡ ok c) × Started c connection st
  unfolding serve
  serve-Started connection st rates h =
      let (c, e, h1) = through (from_env env) _ h in
      let (u, r, h2) = through (established connection) _ h1 in
      let (u', g, h3) =
        through (bail_if (c.auto_migrate && not m.migrates) migration_failed) _ h2 in
      let (store, o, h4) = through (from_config m c.storage) _ h3 in
      let (u'', b, h5) = through (bail_if (not (m.binds c.bind_addr)) bind_failed) _ h4 in
      (
        c,
        e,
        subst (Started c connection) (ok_inj h5) (record {
          configured = from_env-Read env c e;
          reached = established_ok connection r;
          migrated = bail_if_ok (c.auto_migrate && not m.migrates) migration_failed g;
          opened = from_config-Opened c.storage store o;
          checked = refl;
          bounded = refl;
          bare = trim_end_bare (λ x. nat_eq x b'/') (codes c.public_base_url);
          limited = rate_limiter-Limited rates;
        }),
      )
