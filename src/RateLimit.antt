-- ===== src/RateLimit.antt =====
-- src/ratelimit.rs: a token bucket for each credential.
--
-- The source keeps fractional tokens in `f64`. Here a rate is an exact fraction: `rate` credits accrue
-- in a nanosecond and one request costs `one` credits, so that `per_second` is
-- `rate * 1_000_000_000 / one`; the rounding of floats is not modelled. An `Instant` is a count of
-- nanoseconds.
pub mod Bounds
pub mod Usage
pub mod Ideal
pub mod Refinement
use registry_api_contract.Prelude.{
  ℕ, ◌+◌, ◌-◌, ◌*◌, ◌/◌, min, max, String, Bool, true, false, Option, none, some, [], unwrap_or,
  ltb, leb, if◌then◌else◌,
}
use registry_api_contract.HashMap.{HashMap, get, insert, retain}

abbrev pub nanos : ℕ
nanos = 1_000_000_000

abbrev pub idle_eviction : ℕ
idle_eviction = 600 * nanos

pub record Bucket : Type 0 where
  pub tokens : ℕ
  pub last_seen : ℕ

pub record RateLimiter : Type 0 where
  pub buckets : HashMap Bucket
  pub burst : ℕ
  pub rate : ℕ
  pub one : ℕ

pub data Decision : Type 0 where
  allow : Decision
  deny : ℕ → Decision

-- `RateLimiter::new(burst, numerator / denominator)`, where a rate that is not positive has
-- numerator 0.
unfoldable pub new : ℕ → ℕ → ℕ → RateLimiter
new burst numerator denominator =
    let positive = ltb 0 numerator in
    let one = nanos * (if positive then denominator else 1) in
    record {
      buckets = [];
      burst = max burst 1 * one;
      rate = if positive then numerator else 1;
      one = one;
    }

-- A caller's bucket, which starts full.
abbrev pub bucket_of : RateLimiter → String → ℕ → Bucket
bucket_of l key now = unwrap_or (record { tokens = l.burst; last_seen = now }) (get key l.buckets)

-- The tokens after the refill since the last charge.
abbrev pub refilled : RateLimiter → String → ℕ → ℕ
refilled l key now =
    let b = bucket_of l key now in min (b.tokens + (now - b.last_seen) * l.rate) l.burst

-- `ceil`
abbrev pub ceil_div : ℕ → ℕ → ℕ
ceil_div a b = (a + b - 1) / b

abbrev pub retry_after : RateLimiter → ℕ → ℕ
retry_after l tokens = max (ceil_div (l.one - tokens) (l.rate * nanos)) 1

abbrev pub store_bucket : RateLimiter → String → ℕ → ℕ → RateLimiter
store_bucket l key tokens now = record l {
  buckets = insert key (record { tokens = tokens; last_seen = now }) l.buckets;
}

unfoldable pub check_at : RateLimiter → String → ℕ → RateLimiter × Decision
check_at l key now =
    let tokens = refilled l key now in
    if leb l.one tokens
    then (store_bucket l key (tokens - l.one) now, allow)
    else (store_bucket l key tokens now, deny (retry_after l tokens))

unfoldable pub sweep_at : RateLimiter → ℕ → RateLimiter
sweep_at l now = record l {
  buckets = retain (λ b. ltb (now - b.last_seen) idle_eviction) l.buckets;
}

-- The middleware `layer`: the answer to a request with a credential's hash, if there is one, under a
-- limiter, if there is one.
pub data Layered : Type 0 where
  pass : Layered
  too_many_requests : ℕ → Layered

unfoldable pub layer : Option RateLimiter → Option String → ℕ → Option RateLimiter × Layered
unfolding check_at
layer none token now = (none, pass)
layer (some l) none now = (some l, pass)
layer (some l) (some key) now =
    let (l', decision) = check_at l key now in
    elim decision [ allow ↦ (some l', pass) | deny n ↦ (some l', too_many_requests n) ]
