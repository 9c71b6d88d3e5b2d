-- ===== src/Storage/Capacity.antt =====
-- The process-memory backend of src/storage.rs: capacity, and what a put and a get see.
use registry_api_contract.Prelude.{
  ℕ, ◌+◌, ◌<◌, ◌≤◌, String, ◌≡◌, sym, ◌∙◌, none, some, Option-cases, [], ◌∷◌, ◌==◌, ltb, length,
  arith, if◌then◌else◌, inl, inr,
}
use registry_api_contract.HashMap.{get, without, insert, get-insert}
use registry_api_contract.Storage.{
  Bytes, Objects, External, ArtifactStore, memory, local, s3, retained_bytes, put_memory, get_bytes,
  u64_limit, max_buffered_artifact_bytes,
}

abbrev pub total : Objects → ℕ
total [] = 0
total ((_, v) ∷ m) = length v + total m

-- The fold adds up what stays, unless the sum passes 64 bits.
retained_total :
    (k : String) (m : Objects) (t : ℕ)
    → t < u64_limit
    → retained_bytes k m t
      ≡ (if ltb (t + total (without k m)) u64_limit then some (t + total (without k m)) else none)
unfolding retained_bytes without
retained_total k [] t h = ground arith
retained_total k ((j, v) ∷ m) t h =
    ground (arith, retained_total k m t, retained_total k m (t + length v))

-- A put succeeds exactly when the objects under other keys and the new bytes fit the capacity; it
-- then stores the bytes under their key and keeps every other object, and otherwise it is an error.
pub put_memory_exact :
    (k : String) (v : Bytes) (m : Objects) (max_bytes : ℕ)
    → max_bytes < u64_limit
    → put_memory k v m max_bytes
      ≡ (if ltb max_bytes (total (without k m) + length v) then none else some (insert k v m))
unfolding put_memory
put_memory_exact k v m max_bytes h = ground (arith, retained_total k m 0)

-- After any successful put the store holds at most its capacity, its total is what the other objects
-- and the new bytes hold, and a read of the key gives the bytes while any other key reads as before.
pub put_memory_stored :
    (k : String) (v : Bytes) (m m' : Objects) (max_bytes : ℕ)
    → max_bytes < u64_limit
    → put_memory k v m max_bytes ≡ some m'
    → (total m' ≤ max_bytes)
      × (total m' ≡ total (without k m) + length v)
      × ((j : String) → get j m' ≡ (if k == j then some v else get j m))
put_memory_stored k v m m' max_bytes h p =
    let q = sym (put_memory_exact k v m max_bytes h) ∙ p in
    let fits : total (without k m) + length v ≤ max_bytes = ground arith in
    let e : m' ≡ insert k v m = ground arith in
    rw e (unfold insert in (omega arith, omega arith, λ j. unfold insert in get-insert k j v m))

-- What bounds the bytes that `get_bytes` hands over: on disk the size that the file system reports,
-- elsewhere the number of bytes themselves.
abbrev pub Bounded : External → String → Bytes → ArtifactStore → Type 0
Bounded x k v (memory _ _) = length v ≤ max_buffered_artifact_bytes
Bounded x k v (s3 _) = length v ≤ max_buffered_artifact_bytes
Bounded x k v (local files) =
    (len : ℕ) × (x.size k files ≡ some len) × (len ≤ max_buffered_artifact_bytes)

-- No object larger than the ceiling is buffered: what `get_bytes` returns is bounded, whatever the
-- bucket declared of its length.
pub get_bytes-Bounded :
    (x : External) (k : String) (s : ArtifactStore) (v : Bytes)
    → get_bytes x k s ≡ some v
    → Bounded x k v s
unfolding get_bytes
get_bytes-Bounded x k (memory m _) v h = elim (Option-cases (get k m)) [
  | inl e ↦ absurd (ground arith)
  | inr (w, e) ↦ ground arith
]
get_bytes-Bounded x k (local m) v h = elim (Option-cases (x.size k m)) [
  | inl e ↦ absurd (ground arith)
  | inr (len, e) ↦ (len, e, ground arith)
]
get_bytes-Bounded x k (s3 m) v h = ground arith
