-- ===== src/RateLimit/Bounds.antt =====
-- What one check of the limiter of src/ratelimit.rs grants and keeps.
use registry_api_contract.Prelude.{
  ℕ, ◌+◌, ◌-◌, ◌*◌, ◌<◌, ◌≤◌, min, String, ◌≡◌, ◌≢◌, ◌⊎◌, refl, Bool, true, false, some,
  Option-cases, Bool-cases, inl, inr, arith, eq_iff, leb, if◌then◌else◌,
}
use native.Mathlib.Nat.{mul-le-mul_right}
use registry_api_contract.HashMap.{get, get-insert}
use registry_api_contract.RateLimit.{
  RateLimiter, Decision, allow, deny, refilled, retry_after, store_bucket, check_at,
}

abbrev pub is_allow : Decision → Bool
is_allow allow = true
is_allow (deny n) = false

pub get_stored :
    (l : RateLimiter) (key : String) (tokens now : ℕ)
    → get key (store_bucket l key tokens now).buckets
      ≡ some (record { tokens = tokens; last_seen = now })
get_stored l key tokens now = rw get-insert (ground (arith, eq_iff key key))

get_other :
    (l : RateLimiter) (key j : String) (tokens now : ℕ)
    → key ≢ j
    → get j (store_bucket l key tokens now).buckets ≡ get j l.buckets
get_other l key j tokens now n = rw get-insert (ground (arith, eq_iff key j))

pub refilled-le-burst : (l : RateLimiter) (key : String) (now : ℕ) → refilled l key now ≤ l.burst
refilled-le-burst l key now = omega arith

scaled : (a a' d r t b : ℕ) → a' ≤ a + d → min (t + a' * r) b ≤ min (t + a * r) b + r * d
scaled a a' d r t b h = let k = mul-le-mul_right r h in omega (arith, k)

-- Time gives back credits at the rate, and no faster.
pub refilled_later :
    (l : RateLimiter) (key : String) (now later : ℕ)
    → now ≤ later
    → refilled l key later ≤ refilled l key now + l.rate * (later - now)
refilled_later l key now later h = elim (Option-cases (get key l.buckets)) [
  | inl e ↦ rw e (grind arith)
  | inr (b, e) ↦ rw e (
      scaled (now - b.last_seen) (later - b.last_seen) (later - now) l.rate b.tokens l.burst
        (omega arith))
]

pub check_allowed :
    (l : RateLimiter) (key : String) (now : ℕ)
    → (check_at l key now).1 ≡ allow
    → (l.one ≤ refilled l key now)
      × ((check_at l key now).0 ≡ store_bucket l key (refilled l key now - l.one) now)
unfolding check_at
check_allowed l key now h = elim (Bool-cases (leb l.one (refilled l key now))) [
  | inl e ↦ rw (e, check_at) (ground arith, refl)
  | inr e ↦ let k = rw (e, check_at) at h in cc
]

pub check_denied :
    (l : RateLimiter) (key : String) (now n : ℕ)
    → (check_at l key now).1 ≡ deny n
    → (refilled l key now < l.one)
      × (n ≡ retry_after l (refilled l key now))
      × ((check_at l key now).0 ≡ store_bucket l key (refilled l key now) now)
unfolding check_at
check_denied l key now n h = elim (Bool-cases (leb l.one (refilled l key now))) [
  | inl e ↦ let k = rw (e, check_at) at h in cc
  | inr e ↦ let k = rw (e, check_at) at h in rw (e, check_at) (ground arith, cc, refl)
]

-- What a caller has left after its own check, at the same instant.
pub refilled_stored :
    (l : RateLimiter) (key : String) (tokens now : ℕ)
    → refilled (store_bucket l key tokens now) key now ≡ min tokens l.burst
refilled_stored l key tokens now = rw get_stored (ground arith)

pub Decision-cases : (d : Decision) → (d ≡ allow) ⊎ ((n : ℕ) × (d ≡ deny n))
Decision-cases allow = inl refl
Decision-cases (deny n) = inr (n, refl)

-- The credits that a check costs, and what is left, add up to what there was.
pub check_account :
    (l : RateLimiter) (key : String) (now : ℕ)
    → (if is_allow (check_at l key now).1 then l.one else 0)
        + refilled (check_at l key now).0 key now
      ≡ refilled l key now
check_account l key now = elim (Decision-cases (check_at l key now).1) [
  | inl e ↦
      let (enough, stored) = check_allowed l key now e in
      rw (e, stored, refilled_stored l key (refilled l key now - l.one) now) (omega arith)
  | inr (n, e) ↦
      let (short, _, stored) = check_denied l key now n e in
      rw (e, stored, refilled_stored l key (refilled l key now) now) (omega arith)
]

-- A check leaves the limiter's parameters alone.
pub check_parameters :
    (l : RateLimiter) (key : String) (now : ℕ)
    → ((check_at l key now).0.rate ≡ l.rate)
      × ((check_at l key now).0.one ≡ l.one)
      × ((check_at l key now).0.burst ≡ l.burst)
check_parameters l key now = elim (Decision-cases (check_at l key now).1) [
  | inl e ↦ let (_, stored) = check_allowed l key now e in rw stored (refl, refl, refl)
  | inr (n, e) ↦ let (_, _, stored) = check_denied l key now n e in rw stored (refl, refl, refl)
]

-- A check of one credential leaves the bucket of another alone.
pub check_other :
    (l : RateLimiter) (key j : String) (now later : ℕ)
    → key ≢ j
    → refilled (check_at l key now).0 j later ≡ refilled l j later
check_other l key j now later n = elim (Decision-cases (check_at l key now).1) [
  | inl e ↦
      let (_, stored) = check_allowed l key now e in
      rw (stored, get_other l key j (refilled l key now - l.one) now n) refl
  | inr (m, e) ↦
      let (_, _, stored) = check_denied l key now m e in
      rw (stored, get_other l key j (refilled l key now) now n) refl
]
