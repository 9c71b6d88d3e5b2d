-- ===== src/RateLimit/Usage.antt =====
-- What a credential gets through the limiter of src/ratelimit.rs over a run of checks and sweeps.
use registry_api_contract.Prelude.{
  ℕ, ◌+◌, ◌-◌, ◌*◌, ◌≤◌, String, ◌≡◌, ◌≢◌, refl, sym, Bool, true, false, ◌&&◌, Bool-cases, List, [],
  ◌∷◌, inl, inr, arith, ◌==◌, eq_iff, if◌then◌else◌, Option-cases, ltb, ltb_false→le,
}
use native.Mathlib.Nat.{mul-le-mul_right, mul-add}
use registry_api_contract.HashMap.{get, retain}
use registry_api_contract.HashMap.Keys.{
  HoldsOnce, insert-HoldsOnce, passing, get-retain, retain-HoldsOnce,
}
use registry_api_contract.RateLimit.{
  Bucket, RateLimiter, refilled, idle_eviction, check_at, sweep_at,
}
use registry_api_contract.RateLimit.Ideal.{Event, check, sweep, time_of, Ordered}
use registry_api_contract.RateLimit.Bounds.{
  is_allow, refilled-le-burst, refilled_later, Decision-cases, check_allowed, check_denied,
  check_account, check_parameters, check_other,
}

-- The requests a credential gets through in a run of checks of all credentials and of sweeps.
unfoldable pub granted : RateLimiter → String → List Event → ℕ
granted l key [] = 0
granted l key (check k t ∷ es) =
    (if k == key && is_allow (check_at l k t).1 then 1 else 0) + granted (check_at l k t).0 key es
granted l key (sweep t ∷ es) = granted (sweep_at l t) key es

abbrev pub last_time : ℕ → List Event → ℕ
last_time start [] = start
last_time start (e ∷ es) = last_time (time_of e) es

last_time-le : (start : ℕ) (es : List Event) → Ordered start es → start ≤ last_time start es
last_time-le start [] o = omega arith
last_time-le start (e ∷ es) (h, o) = let m = last_time-le (time_of e) es o in omega (arith, m)

elapsed : (r a b c : ℕ) → a ≤ b → b ≤ c → r * (b - a) + r * (c - b) ≡ r * (c - a)
elapsed r a b c h k =
    let d : (b - a) + (c - b) ≡ c - a = omega arith in rw (sym d, mul-add r (b - a) (c - b)) refl

-- What one check grants is covered by what the bucket held.
step_account :
    (l : RateLimiter) (key k : String) (t : ℕ)
    → (if k == key && is_allow (check_at l k t).1 then l.one else 0)
        + refilled (check_at l k t).0 key t
      ≡ refilled l key t
step_account l key k t = elim (Bool-cases (k == key)) [
  | inl e ↦
      let same : k ≡ key = ground (arith, eq_iff k key) in rw (e, same) (check_account l key t)
  | inr e ↦
      let other : k ≢ key = ground (arith, eq_iff k key) in
      rw (e, check_other l k key t t other) (omega arith)
]

one_or_none :
    (c : Bool) (g one : ℕ) → ((if c then 1 else 0) + g) * one ≡ (if c then one else 0) + g * one
one_or_none true g one = omega arith
one_or_none false g one = omega arith

at_parameters :
    {o o' r r' : ℕ} (g x w : ℕ) → o ≡ o' → r ≡ r' → g * o ≤ x + r * w → g * o' ≤ x + r' * w
at_parameters g x w e f h = rw (sym e, sym f) h

check-HoldsOnce :
    (l : RateLimiter) (key : String) (now : ℕ)
    → HoldsOnce l.buckets
    → HoldsOnce (check_at l key now).0.buckets
check-HoldsOnce l key now once = elim (Decision-cases (check_at l key now).1) [
  | inl e ↦
      let (_, stored) = check_allowed l key now e in
      rw stored (insert-HoldsOnce key _ l.buckets once)
  | inr (n, e) ↦
      let (_, _, stored) = check_denied l key now n e in
      rw stored (insert-HoldsOnce key _ l.buckets once)
]

swept :
    (l : RateLimiter) (now : ℕ)
    → ((sweep_at l now).rate ≡ l.rate)
      × ((sweep_at l now).one ≡ l.one)
      × ((sweep_at l now).burst ≡ l.burst)
      × ((sweep_at l now).buckets
          ≡ retain (λ (b : Bucket). ltb (now - b.last_seen) idle_eviction) l.buckets)
unfolding sweep_at
swept l now = (refl, refl, refl, refl)

-- A sweep forgets full buckets only, and a credential without a bucket has a full one.
sweep_keeps :
    (l : RateLimiter) (key : String) (now : ℕ)
    → HoldsOnce l.buckets
    → l.burst ≤ idle_eviction * l.rate
    → refilled (sweep_at l now) key now ≡ refilled l key now
unfolding sweep_at
sweep_keeps l key now once enough = elim (Option-cases (get key l.buckets)) [
  | inl e ↦ rw (kept, e) refl
  | inr (b, e) ↦ elim (Bool-cases (ltb (now - b.last_seen) idle_eviction)) [
    | inl y ↦ rw (kept, e, y) refl
    | inr n ↦
        let idle : idle_eviction ≤ now - b.last_seen =
          ltb_false→le (now - b.last_seen) idle_eviction n in
        let k = mul-le-mul_right l.rate idle in rw (kept, e, n) (omega (arith, k))
  ]
]
  where
    kept :
        get key (retain (λ (b : Bucket). ltb (now - b.last_seen) idle_eviction) l.buckets)
        ≡ passing (λ b. ltb (now - b.last_seen) idle_eviction) (get key l.buckets)
    kept = get-retain (λ b. ltb (now - b.last_seen) idle_eviction) key l.buckets once

fills : {b b' r r' : ℕ} → b' ≡ b → r' ≡ r → b ≤ idle_eviction * r → b' ≤ idle_eviction * r'
fills e f h = rw (e, f) h

run_account :
    (l : RateLimiter) (key : String) (start : ℕ) (es : List Event)
    → HoldsOnce l.buckets
    → l.burst ≤ idle_eviction * l.rate
    → Ordered start es
    → granted l key es * l.one ≤ refilled l key start + l.rate * (last_time start es - start)
unfolding granted
run_account l key start [] once enough o = omega arith
run_account l key start (check k t ∷ es) once enough (h, o) =
    let (same_rate, same_one, same_burst) = check_parameters l k t in
    let after =
      run_account (check_at l k t).0 key t es (check-HoldsOnce l k t once)
        (fills same_burst same_rate enough) o in
    let rest = at_parameters _ _ _ same_one same_rate after in
    let later = refilled_later l key start t h in
    let spent = step_account l key k t in
    let time = elapsed l.rate start t (last_time t es) h (last_time-le t es o) in
    let split =
      one_or_none (k == key && is_allow (check_at l k t).1) (granted (check_at l k t).0 key es)
        l.one in
    rw split (omega (arith, rest, later, spent, time))
run_account l key start (sweep t ∷ es) once enough (h, o) =
    let (same_rate, same_one, same_burst, left) = swept l t in
    let after =
      run_account (sweep_at l t) key t es
        (rw left (retain-HoldsOnce (λ b. ltb (t - b.last_seen) idle_eviction) l.buckets once))
        (fills same_burst same_rate enough) o in
    let rest = at_parameters _ _ _ same_one same_rate after in
    let later = refilled_later l key start t h in
    let unspent = sweep_keeps l key t once enough in
    let time = elapsed l.rate start t (last_time t es) h (last_time-le t es o) in
    omega (arith, rest, later, unspent, time)

-- However the checks of all credentials and the sweeps interleave, in the order of their times, a
-- credential gets through at most what a full bucket holds and what the rate gives back over the run:
-- forgetting a bucket hands nothing out. A bucket is taken to fill up within the idle time after which a
-- sweep drops it, and the limiter to hold one bucket for a credential. Credits are counted exactly.
pub granted_bounded :
    (l : RateLimiter) (key : String) (start : ℕ) (es : List Event)
    → HoldsOnce l.buckets
    → l.burst ≤ idle_eviction * l.rate
    → Ordered start es
    → granted l key es * l.one ≤ l.burst + l.rate * (last_time start es - start)
granted_bounded l key start es once enough o =
    omega (arith, run_account l key start es once enough o, refilled-le-burst l key start)
