-- ===== src/RateLimit/Refinement.antt =====
-- That the limiter of src/ratelimit.rs refines the ideal one.
use registry_api_contract.Prelude.{
  ℕ, ◌+◌, ◌-◌, ◌*◌, ◌≤◌, String, ◌≡◌, refl, ap, ◌∙◌, ◌⊎◌, inl, inr, Bool-cases, none, some, List,
  [], ◌∷◌, ◌==◌, leb, ltb, ltb_false→le, arith, if◌then◌else◌,
}
use native.Mathlib.Nat.{mul-le-mul_right}
use registry_api_contract.HashMap.{HashMap, get, retain, get-insert}
use registry_api_contract.HashMap.Keys.{
  HoldsOnce, insert-HoldsOnce, passing, get-retain, retain-HoldsOnce,
}
use registry_api_contract.RateLimit.{
  Bucket, RateLimiter, refilled, store_bucket, check_at, sweep_at, idle_eviction,
}
use registry_api_contract.RateLimit.Ideal.{
  Event, check, sweep, Ordered, decisions, Ideal, credit, with_bucket, charged, granted,
  ideal_grants, all_full, is_granted, grants,
}

-- Full from the instant on.
abbrev IsFull : ℕ → ℕ → ℕ → Bucket → Type 0
IsFull burst rate now b = burst ≤ b.tokens + (now - b.last_seen) * rate

IsFull-later :
    (burst rate now later : ℕ) (b : Bucket)
    → now ≤ later
    → IsFull burst rate now b
    → IsFull burst rate later b
IsFull-later burst rate now later b h f =
    let longer : now - b.last_seen ≤ later - b.last_seen = omega arith in
    let k = mul-le-mul_right rate longer in omega (arith, k)

-- The limiter holds a credential's bucket as the ideal one does, or has forgotten it when it was full.
abbrev Agrees : ℕ → RateLimiter → Ideal → Type 0
Agrees now l f =
    (key : String)
    → (get key l.buckets ≡ some (f key))
      ⊎ ((get key l.buckets ≡ none) × IsFull l.burst l.rate now (f key))

record Refines (now : ℕ) (l : RateLimiter) (f : Ideal) : Type 0 where
  once : HoldsOnce l.buckets
  agrees : Agrees now l f

refilled-credit :
    (now later : ℕ) (l : RateLimiter) (f : Ideal) (key : String)
    → now ≤ later
    → Refines now l f
    → refilled l key later ≡ credit l.burst l.rate l.one (f key) later
refilled-credit now later l f key h r = elim (r.agrees key) [
  | inl e ↦ rw e refl
  | inr (e, full) ↦
      let k = IsFull-later l.burst l.rate now later (f key) h full in rw e (omega (arith, k))
]

spent : RateLimiter → String → ℕ → ℕ
spent l key now = let t = refilled l key now in if leb l.one t then t - l.one else t

check_at_lem :
    (l : RateLimiter) (key : String) (now : ℕ)
    → ((check_at l key now).0 ≡ store_bucket l key (spent l key now) now)
      × (is_granted (check_at l key now).1 ≡ leb l.one (refilled l key now))
unfolding check_at spent
check_at_lem l key now = elim (Bool-cases (leb l.one (refilled l key now))) [
  | inl e ↦ rw (e, check_at, spent) (refl, refl)
  | inr e ↦ rw (e, check_at, spent) (refl, refl)
]

-- The limiter after a check, as the ideal one after it.
store-Refines :
    (start now : ℕ) (l : RateLimiter) (f : Ideal) (key : String)
    → start ≤ now
    → Refines start l f
    → Refines now
        (store_bucket l key (spent l key now) now)
        (with_bucket l.burst l.rate l.one f key (charged l.burst l.rate l.one (f key) now))
unfolding spent
store-Refines start now l f key h r = record {
  once = insert-HoldsOnce key _ l.buckets r.once;
  agrees = λ j. elim (Bool-cases (key == j)) [
    | inl e ↦
        inl (get-insert key j _ l.buckets ∙ rw (e, refilled-credit start now l f key h r) refl)
    | inr e ↦ elim (r.agrees j) [
      | inl q ↦ inl (get-insert key j _ l.buckets ∙ rw e q)
      | inr (q, full) ↦ inr (
        get-insert key j _ l.buckets ∙ rw e q,
        rw e (IsFull-later l.burst l.rate start now (f j) h full),
      )
    ]
  ];
}

sweep-Refines :
    (start now : ℕ) (l : RateLimiter) (f : Ideal)
    → l.burst ≤ idle_eviction * l.rate
    → start ≤ now
    → Refines start l f
    → Refines now (sweep_at l now) f
unfolding sweep_at
sweep-Refines start now l f enough h r = record {
  once = retain-HoldsOnce (λ b. ltb (now - b.last_seen) idle_eviction) l.buckets r.once;
  agrees = λ j. elim (r.agrees j) [
    | inl q ↦ elim (Bool-cases (ltb (now - (f j).last_seen) idle_eviction)) [
      | inl y ↦ inl (kept j ∙ rw (q, y) refl)
      | inr n ↦
          let idle : idle_eviction ≤ now - (f j).last_seen =
            ltb_false→le (now - (f j).last_seen) idle_eviction n in
          let k = mul-le-mul_right l.rate idle in inr (kept j ∙ rw (q, n) refl, omega (arith, k))
    ]
    | inr (q, full) ↦ inr (kept j ∙ rw q refl, IsFull-later l.burst l.rate start now (f j) h full)
  ];
}
  where
    kept :
        (j : String)
        → get j (retain (λ b. ltb (now - b.last_seen) idle_eviction) l.buckets)
          ≡ passing (λ b. ltb (now - b.last_seen) idle_eviction) (get j l.buckets)
    kept j = get-retain (λ b. ltb (now - b.last_seen) idle_eviction) j l.buckets r.once

swept_burst : (l : RateLimiter) (now : ℕ) → (sweep_at l now).burst ≡ l.burst
unfolding sweep_at
swept_burst l now = refl

swept_rate : (l : RateLimiter) (now : ℕ) → (sweep_at l now).rate ≡ l.rate
unfolding sweep_at
swept_rate l now = refl

swept_one : (l : RateLimiter) (now : ℕ) → (sweep_at l now).one ≡ l.one
unfolding sweep_at
swept_one l now = refl

run-Refines :
    (burst rate one start : ℕ) (l : RateLimiter) (f : Ideal) (es : List Event)
    → burst ≤ idle_eviction * rate
    → Ordered start es
    → l.burst ≡ burst
    → l.rate ≡ rate
    → l.one ≡ one
    → Refines start l f
    → grants (decisions l es) ≡ ideal_grants burst rate one f es
unfolding decisions ideal_grants
run-Refines burst rate one start l f [] enough o eb er eo r = refl
run-Refines burst rate one start l f (check key now ∷ es) enough o eb er eo r =
    let (left, granted) = check_at_lem l key now in
    let after : Refines now (check_at l key now).0
        (with_bucket burst rate one f key (charged burst rate one (f key) now)) =
      rw (left, ← eb, ← er, ← eo) (store-Refines start now l f key o.0 r) in
    let first : is_granted (check_at l key now).1 ≡ leb one (credit burst rate one (f key) now) =
      granted ∙ rw (refilled-credit start now l f key o.0 r, eb, er, eo) refl in
    rw first (
      ap (◌∷◌ (leb one (credit burst rate one (f key) now))) (
        run-Refines burst rate one now (check_at l key now).0
          (with_bucket burst rate one f key (charged burst rate one (f key) now)) es enough o.1
          (rw left eb) (rw left er) (rw left eo) after))
run-Refines burst rate one start l f (sweep now ∷ es) enough o eb er eo r =
    run-Refines burst rate one now (sweep_at l now) f es enough o.1 (swept_burst l now ∙ eb)
      (swept_rate l now ∙ er) (swept_one l now ∙ eo)
      (sweep-Refines start now l f (rw (eb, er) enough) o.0 r)

get_nil : {V : Type 0} (key : String) → get {V = V} key [] ≡ none
unfolding get
get_nil key = refl

-- The limiter refines the ideal one that never forgets a bucket: started empty, over any checks and sweeps in the
-- order of their times, it allows exactly the checks that the ideal one allows. A bucket is taken to fill up
-- within the idle time after which a sweep drops it.
pub decisions_refine :
    (l : RateLimiter) (start : ℕ) (es : List Event)
    → l.buckets ≡ []
    → l.burst ≤ idle_eviction * l.rate
    → Ordered start es
    → grants (decisions l es) ≡ ideal_grants l.burst l.rate l.one (all_full l.burst l.rate l.one) es
decisions_refine l start es e enough o =
    run-Refines l.burst l.rate l.one start l (all_full l.burst l.rate l.one) es enough o refl refl
      refl
      (record {
        once = empty_once l.buckets e;
        agrees = λ key. inr (empty_get l.buckets key e, omega arith);
      })
  where
    empty_once : (m : HashMap Bucket) → m ≡ [] → HoldsOnce m
    empty_once m e = rw e tt

    empty_get : (m : HashMap Bucket) (key : String) → m ≡ [] → get key m ≡ none
    empty_get m key e = rw e (get_nil key)
