-- ===== src/RateLimit/Ideal.antt =====
-- The limiter of src/ratelimit.rs, whose sweep forgets idle buckets, against an ideal one that keeps a bucket for
-- every credential for ever.
use registry_api_contract.Prelude.{
  ℕ, ◌+◌, ◌-◌, ◌*◌, ◌≤◌, min, String, Bool, true, false, List, [], ◌∷◌, ◌==◌, leb, if◌then◌else◌,
}
use registry_api_contract.RateLimit.{Bucket, RateLimiter, Decision, allow, deny, check_at, sweep_at}

-- A check of a credential, or a sweep, at an instant.
pub data Event : Type 0 where
  check : String → ℕ → Event
  sweep : ℕ → Event

abbrev pub time_of : Event → ℕ
time_of (check key now) = now
time_of (sweep now) = now

abbrev pub Ordered : ℕ → List Event → Type 0
Ordered start [] = Unit {0}
Ordered start (e ∷ es) = (start ≤ time_of e) × Ordered (time_of e) es

-- The decisions of the limiter, in order.
unfoldable pub decisions : RateLimiter → List Event → List Decision
decisions l [] = []
decisions l (check key now ∷ es) = (check_at l key now).1 ∷ decisions (check_at l key now).0 es
decisions l (sweep now ∷ es) = decisions (sweep_at l now) es

abbrev pub Ideal : Type 0
Ideal = String → Bucket

module _ (burst rate one : ℕ) where
  abbrev pub credit : Bucket → ℕ → ℕ
  credit b now = min (b.tokens + (now - b.last_seen) * rate) burst

  abbrev pub with_bucket : Ideal → String → Bucket → Ideal
  with_bucket f key b j = if key == j then b else f j

  abbrev pub charged : Bucket → ℕ → Bucket
  charged b now = record {
    tokens = if leb one (credit b now) then credit b now - one else credit b now;
    last_seen = now;
  }

  abbrev pub granted : Bucket → ℕ → Bool
  granted b now = leb one (credit b now)

  -- Which checks the ideal limiter allows; it has no use for a sweep.
  unfoldable pub ideal_grants : Ideal → List Event → List Bool
  ideal_grants f [] = []
  ideal_grants f (check key now ∷ es) =
      granted (f key) now ∷ ideal_grants (with_bucket f key (charged (f key) now)) es
  ideal_grants f (sweep now ∷ es) = ideal_grants f es

  abbrev pub all_full : Ideal
  all_full key = record { tokens = burst; last_seen = 0 }

abbrev pub is_granted : Decision → Bool
is_granted allow = true
is_granted (deny n) = false

abbrev pub grants : List Decision → List Bool
grants [] = []
grants (d ∷ ds) = is_granted d ∷ grants ds
