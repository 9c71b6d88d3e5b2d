-- ===== src/Tests/Reads.antt =====
-- The reading handlers of src/routes/ on the small registry.
use registry_api_contract.Prelude.{
  ℕ, ◌≤◌, String, ◌≡◌, ◌↔◌, ◌⊎◌, inl, inr, refl, sym, subst, true, false, Bool-cases, Option, none,
  some, List, [], ◌∷◌, In, arith, length, leb, ◌==◌, if◌then◌else◌,
}
use registry_api_contract.Error.{ok}
use registry_api_contract.Db.{Version}
use registry_api_contract.Storage.{Bytes}
use registry_api_contract.Rbac.{parse}
use registry_api_contract.Text.{trim}
use registry_api_contract.Audit.Record.{AuditAction}
use registry_api_contract.State.{World, ◌>>=◌, query, require, transaction}
use registry_api_contract.Auth.{auth_disabled}
use registry_api_contract.Routes.{ArtifactFormat, tar_gz_format, zip_format}
use registry_api_contract.Routes.Payload.{PublishMeta, read_multipart, artifact_field}
use registry_api_contract.Routes.Publish.{publish}
use registry_api_contract.Routes.Artifacts.{content, immutable, get_artifact}
use registry_api_contract.Routes.Artifacts.RoundTrip.{publish_download}
use registry_api_contract.Routes.Packages.Latest.{Sorts}
use registry_api_contract.Routes.Trail.{AuditQuery}
use registry_api_contract.Tests.Fixtures.{
  dependencies, settings, calm, world, release, released, valid_manifest, kit_one,
}

enabled : auth_disabled settings ≡ false
unfolding auth_disabled
enabled = refl

abbrev deserialize : String → Option ArtifactFormat
deserialize s =
    if s == "zip" then some zip_format else if s == "tar.gz" then some tar_gz_format else none

abbrev content_type : ArtifactFormat → String
content_type tar_gz_format = "application/gzip"
content_type zip_format = "application/zip"

-- The registry before anything was published.
abbrev empty_world : World
empty_world = record world { database = record world.database { versions = [] } }

first_release :
    (publish dependencies valid_manifest settings calm release empty_world).0 ≡ ok released
unfolding publish ◌>>=◌ query require transaction trim parse
first_release = refl

publish_download_example :
    (meta : PublishMeta) × (v : Bytes) × (kind : String) × (read_multipart release.body
      ≡ ok (meta, v))
    × In (artifact_field (some v)) release.body
    × (dependencies.sha256_bytes v ≡ "abc")
    × ((get_artifact dependencies deserialize calm content_type "abc"
          (publish dependencies valid_manifest settings calm release empty_world).1).0
        ≡ ok (content kind immutable (length v) v))
publish_download_example =
    publish_download dependencies deserialize content_type valid_manifest settings calm calm release
      empty_world released [] 1000 enabled refl (omega arith) first_release refl refl

abbrev rank : String → ℕ
rank v = if v == "2.0.0" then 2 else if v == "1.0.0" then 1 else 0

abbrev put_version : String → List String → List String
put_version v [] = v ∷ []
put_version v (w ∷ ws) =
    let rest = put_version v ws in if leb (rank w) (rank v) then v ∷ w ∷ ws else w ∷ rest

abbrev pub by_rank : List String → List String
by_rank [] = []
by_rank (v ∷ vs) = put_version v (by_rank vs)

abbrev pub Precedes : String → String → Type 0
Precedes v w = rank w ≤ rank v

put_version-In : (v x : String) (ws : List String) → In x (put_version v ws) ↔ ((x ≡ v) ⊎ In x ws)
put_version-In v x [] = (λ i. i, λ i. i)
put_version-In v x (w ∷ ws) = elim (Bool-cases (leb (rank w) (rank v))) [
  | inl e ↦ rw e (λ i. i, λ i. i)
  | inr e ↦ rw e (
    λ i. elim i [
      | inl here ↦ inr (inl here)
      | inr there ↦ elim ((put_version-In v x ws).0 there) [
        | inl same ↦ inl same
        | inr later ↦ inr (inr later)
      ]
    ],
    λ i. elim i [
      | inl same ↦ inr ((put_version-In v x ws).1 (inl same))
      | inr j ↦ elim j [
        | inl here ↦ inl here
        | inr later ↦ inr ((put_version-In v x ws).1 (inr later))
      ]
    ],
  )
]

by_rank-In : (vs : List String) (x : String) → In x (by_rank vs) ↔ In x vs
by_rank-In [] x = (λ i. i, λ i. i)
by_rank-In (v ∷ vs) x = (
  λ i. elim ((put_version-In v x (by_rank vs)).0 i) [
    | inl e ↦ inl e
    | inr j ↦ inr ((by_rank-In vs x).0 j)
  ],
  λ i.
      (put_version-In v x (by_rank vs)).1
        (elim i [ inl e ↦ inl e | inr j ↦ inr ((by_rank-In vs x).1 j) ]),
)

-- Every version of the tail is at most the head, and so on.
abbrev Descending : List String → Type 0
Descending [] = Unit {0}
Descending (v ∷ vs) = ((w : String) → In w vs → Precedes v w) × Descending vs

put_version-Descending :
    (v : String) (ws : List String) → Descending ws → Descending (put_version v ws)
put_version-Descending v [] s = (λ w i. elim i [ ], tt)
put_version-Descending v (w ∷ ws) s = elim (Bool-cases (leb (rank w) (rank v))) [
  | inl e ↦ rw e (
    λ x i. elim i [
      | inl same ↦ subst (Precedes v) (sym same) (ground arith)
      | inr j ↦ let below = s.0 x j in ground (arith, below)
    ],
    s,
  )
  | inr e ↦ rw e (
    λ x i. elim ((put_version-In v x ws).0 i) [
      | inl same ↦ subst (Precedes w) (sym same) (ground arith)
      | inr j ↦ s.0 x j
    ],
    put_version-Descending v ws s.1,
  )
]

by_rank-Descending : (vs : List String) → Descending (by_rank vs)
by_rank-Descending [] = tt
by_rank-Descending (v ∷ vs) = put_version-Descending v (by_rank vs) (by_rank-Descending vs)

pub by_rank-Sorts : Sorts Precedes by_rank
by_rank-Sorts = record {
  members = by_rank-In;
  leads = λ vs v w rest e i. (subst Descending e (by_rank-Descending vs)).0 w i;
}

abbrev rows : List Version
rows = kit_one ∷ record kit_one { id = 26; version = "2.0.0"; yanked = true } ∷ []

abbrev parse_action : String → Option AuditAction
parse_action s = if s == "publish" then some AuditAction.publish else none

abbrev whole_log : AuditQuery
whole_log = record { limit = none; action = some "publish"; before = none }
