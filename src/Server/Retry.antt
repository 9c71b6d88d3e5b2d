-- ===== src/Server/Retry.antt =====
-- That `connect_with_retry` of src/server.rs ends, and how.
use registry_api_contract.Prelude.{
  ℕ, zero, suc, ◌+◌, ◌*◌, ◌/◌, ◌≤◌, ◌<◌, ◌≡◌, refl, inl, inr, Bool, true, false, Bool-cases, some,
  leb, unwrap_or, arith,
}
use registry_api_contract.Config.{Env}
use registry_api_contract.RateLimit.{nanos}
use registry_api_contract.Server.{
  Connection, connected, gave_up, parsed_u64, max_wait, connect_loop, connect_with_retry,
}

abbrev pub rounds : Connection → ℕ
rounds (connected n) = n
rounds (gave_up n) = n

-- The configured number of seconds.
abbrev pub wait_secs : Env → ℕ
wait_secs env = unwrap_or 30 (parsed_u64 (env "DB_CONNECT_MAX_WAIT_SECS"))

module _ (answers : ℕ → Bool) (elapsed : ℕ → ℕ) where
  -- No attempt up to the `n`th answered.
  abbrev pub Unanswered : ℕ → Type 0
  Unanswered n = (m : ℕ) → 0 < m → m ≤ n → answers m ≡ false

  -- A connection is made at the first attempt that answers; it is given up only past the limit.
  abbrev pub Ended : ℕ → Connection → Type 0
  Ended limit (connected zero) = ⊥
  Ended limit (connected (suc n)) = (answers (suc n) ≡ true) × Unanswered n
  Ended limit (gave_up n) = (limit ≤ elapsed n) × Unanswered n

  -- The clock counts at least the two seconds of each wait.
  abbrev pub Waits : Type 0
  Waits = (n : ℕ) → elapsed n + 2 * nanos ≤ elapsed (suc n)

  elapsed_grows : Waits → (n : ℕ) → n * (2 * nanos) ≤ elapsed (suc n)
  elapsed_grows w zero = omega arith
  elapsed_grows w (suc n) = omega (arith, elapsed_grows w n, w (suc n))

  Unanswered-suc : (n : ℕ) → Unanswered n → answers (suc n) ≡ false → Unanswered (suc n)
  Unanswered-suc n u e m p q = elim (Bool-cases (leb m n)) [
    | inl l ↦ u m p (ground arith)
    | inr g ↦ let same : m ≡ suc n = ground arith in rw same e
  ]

  module _ (limit : ℕ) (w : Waits) where
    connect_loop_ends :
        (f n : ℕ)
        → limit ≤ (n + f) * (2 * nanos)
        → Unanswered n
        → (r : Connection) × (connect_loop answers elapsed limit (suc f) n ≡ some r)
          × (rounds r ≤ n + f + 1)
          × Ended limit r
    unfolding connect_loop
    connect_loop_ends zero n enough u = elim (Bool-cases (answers (suc n))) [
      | inl e ↦ (connected (suc n), rw e refl, omega arith, (e, u))
      | inr e ↦
          let past : limit ≤ elapsed (suc n) = omega (arith, elapsed_grows w n) in
          let l : leb limit (elapsed (suc n)) ≡ true = ground arith in
          (gave_up (suc n), rw (e, l) refl, omega arith, (past, Unanswered-suc n u e))
    ]
    connect_loop_ends (suc f) n enough u = elim (Bool-cases (answers (suc n))) [
      | inl e ↦ (connected (suc n), rw e refl, omega arith, (e, u))
      | inr e ↦ elim (Bool-cases (leb limit (elapsed (suc n)))) [
        | inl l ↦
            (gave_up (suc n), rw (e, l) refl, omega arith, (ground arith, Unanswered-suc n u e))
        | inr l ↦
            let (r, q, b, d) = connect_loop_ends f (suc n) (omega arith) (Unanswered-suc n u e) in
            (r, rw (e, l) q, omega (arith, b), d)
      ]
    ]

  -- The first connection is made or given up after finitely many attempts, at most half the configured seconds
  -- and two: it is made at the first attempt that answers, and given up only when the configured time is over
  -- and no attempt answered. The clock counts at least the two seconds that the loop sleeps.
  pub connect_with_retry_ends :
      (env : Env)
      → Waits
      → (r : Connection) × (connect_with_retry answers elapsed env (wait_secs env / 2 + 2) ≡ some r)
        × (rounds r ≤ wait_secs env / 2 + 2)
        × Ended (max_wait env) r
  unfolding connect_with_retry
  connect_with_retry_ends env w =
      let (r, e, b, d) =
        connect_loop_ends (max_wait env) w (wait_secs env / 2 + 1) 0 (enough (wait_secs env))
          (λ m p q. absurd (omega arith)) in
      (r, same_fuel r e, omega (arith, b), d)
    where
      enough : (n : ℕ) → n * nanos ≤ (0 + (n / 2 + 1)) * (2 * nanos)
      enough n = omega arith

      same_fuel :
          (r : Connection)
          → connect_loop answers elapsed (max_wait env) (suc (wait_secs env / 2 + 1)) 0 ≡ some r
          → connect_loop answers elapsed (max_wait env) (wait_secs env / 2 + 2) 0 ≡ some r
      same_fuel r e =
          let k : wait_secs env / 2 + 2 ≡ suc (wait_secs env / 2 + 1) = omega arith in rw k e
