-- ===== src/Storage.antt =====
-- src/storage.rs: the artifact store over its three backends. Process memory is modelled in full;
-- the disk and the bucket are `External`, with the contents that they hold.
pub mod Capacity
pub mod Keys
use registry_api_contract.Prelude.{
  ℕ, ◌+◌, ◌*◌, ◌-◌, ◌^◌, String, ◌<>◌, Bool, true, false, Option, none, some, List, [], ◌∷◌, ◌==◌,
  ltb, length, if◌then◌else◌,
}
use registry_api_contract.HashMap.{HashMap, get, without, insert}

abbrev pub Bytes : Type 0
Bytes = List ℕ

-- `HashMap<String, Bytes>`, and the contents of a directory or bucket.
abbrev pub Objects : Type 0
Objects = HashMap Bytes

-- Storage outside the process: writing, the size and the bytes of an object, a presigned URL.
pub record External : Type 0 where
  pub write : String → Bytes → Objects → Option Objects
  pub size : String → Objects → Option ℕ
  pub read : String → Objects → Option Bytes
  pub presign : String → Option String

pub data ArtifactStore : Type 0 where
  memory : Objects → ℕ → ArtifactStore
  local : Objects → ArtifactStore
  s3 : Objects → ArtifactStore

pub data Download : Type 0 where
  redirect : String → Download
  bytes : Bytes → Download
  file : Bytes → ℕ → Download

abbrev pub max_buffered_artifact_bytes : ℕ
max_buffered_artifact_bytes = 100 * 1024 * 1024

abbrev pub u64_limit : ℕ
u64_limit = 2 ^ 64

-- `u64::checked_add`
unfoldable pub checked_add : ℕ → ℕ → Option ℕ
checked_add a b = if ltb (a + b) u64_limit then some (a + b) else none

-- The fold over the objects under other keys.
unfoldable pub retained_bytes : String → Objects → ℕ → Option ℕ
unfolding checked_add
retained_bytes k [] total = some total
retained_bytes k ((j, v) ∷ m) total =
    elim (if j == k then some total else checked_add total (length v)) [
      | none ↦ none
      | some total' ↦ retained_bytes k m total'
    ]

unfoldable pub put_memory : String → Bytes → Objects → ℕ → Option Objects
unfolding retained_bytes insert checked_add
put_memory k v objects max_bytes = elim (retained_bytes k objects 0) [
  | none ↦ none
  | some retained ↦ elim (checked_add retained (length v)) [
    | none ↦ none
    | some next_bytes ↦ if ltb max_bytes next_bytes then none else some (insert k v objects)
  ]
]

abbrev map_objects : (Objects → ArtifactStore) → Option Objects → Option ArtifactStore
map_objects f none = none
map_objects f (some m) = some (f m)

-- `none` is an error, which leaves the store as it was.
unfoldable pub put : External → String → Bytes → ArtifactStore → Option ArtifactStore
unfolding put_memory
put x k v (memory objects max_bytes) =
    map_objects (λ m. memory m max_bytes) (put_memory k v objects max_bytes)
put x k v (local files) = map_objects local (x.write k v files)
put x k v (s3 objects) = map_objects s3 (x.write k v objects)

unfoldable pub download : External → String → ArtifactStore → Option Download
unfolding get
download x k (memory objects _) = elim (get k objects) [ none ↦ none | some v ↦ some (bytes v) ]
download x k (local files) = elim (x.read k files) [
  | none ↦ none
  | some v ↦ elim (x.size k files) [ none ↦ none | some len ↦ some (file v len) ]
]
download x k (s3 _) = elim (x.presign k) [ none ↦ none | some url ↦ some (redirect url) ]

-- `guard_buffered`
unfoldable pub is_bufferable : ℕ → Bool
is_bufferable len = if ltb max_buffered_artifact_bytes len then false else true

abbrev guarded : ℕ → Option Bytes → Option Bytes
guarded len none = none
guarded len (some v) = if is_bufferable len then some v else none

abbrev guarded_self : Option Bytes → Option Bytes
guarded_self none = none
guarded_self (some v) = if is_bufferable (length v) then some v else none

-- The bucket's declared length, when it gives one, is only a reason to refuse early.
unfoldable pub get_bytes : External → String → ArtifactStore → Option Bytes
unfolding get is_bufferable
get_bytes x k (memory objects _) = guarded_self (get k objects)
get_bytes x k (local files) = elim (x.size k files) [
  | none ↦ none
  | some len ↦ guarded len (x.read k files)
]
get_bytes x k (s3 objects) = elim (x.size k objects) [
  | none ↦ guarded_self (x.read k objects)
  | some len ↦ if is_bufferable len then guarded_self (x.read k objects) else none
]

unfoldable pub artifact_key : String → String → String
artifact_key sha256 extension = "artifacts/" <> sha256 <> "." <> extension
