-- ===== src/Tests/Histories.antt =====
-- A history of the small registry: a publish, then a yank, through the routes of src/routes/mod.rs.
use registry_api_contract.Prelude.{
  String, ◌≡◌, refl, sym, subst, inl, inr, Bool, true, Bool-cases, nat_eq, ◌==◌, some, [], ◌∷◌,
  length, if◌then◌else◌,
}
use registry_api_contract.Db.{Version}
use registry_api_contract.Text.{trim}
use registry_api_contract.HashMap.{get, insert, get-insert}
use registry_api_contract.Storage.{Bytes, Objects, External, memory, artifact_key}
use registry_api_contract.State.{World, Dependencies, ◌>>=◌, query, require, transaction}
use registry_api_contract.Embeddings.{Floats}
use registry_api_contract.Routes.Payload.{PublishRequest, meta_field, artifact_field}
use registry_api_contract.Routes.Publish.{publish}
use registry_api_contract.Routes.Yank.{YankRequest}
use registry_api_contract.Registry.Growth.{Grows, Grows-refl}
use registry_api_contract.Registry.Parts.{IsFair}
use registry_api_contract.Registry.Backing.{IsFaithful, Backed, AllBacked, IsSupplied}
use registry_api_contract.Registry.{put_version, post_yank, router, Reach, start, later}
use registry_api_contract.Registry.History.{Reach-Grows}
use registry_api_contract.Registry.Integrity.{Reach-AllBacked}
use registry_api_contract.Audit.{verify_chain, order_by_seq}
use registry_api_contract.Audit.Record.{of_org}
use registry_api_contract.Registry.Logs.{AllLogs, IsOrderly, Reach-intact}
use registry_api_contract.Tests.Logs.{digest_nonempty}
use registry_api_contract.Tests.Fixtures.{
  external, dependencies, settings, calm, world, kit_one, meta, release, valid_manifest, credential,
}

abbrev no_floats : Floats Bool
no_floats = record { nil = true; is_finite = λ v. v; show = λ v. [] }

abbrev withdrawal : YankRequest
withdrawal = record {
  org = "acme";
  name = "kit";
  version = "1.1.0";
  authorization = credential;
  yanked = true;
}

calm-IsFair : IsFair calm
calm-IsFair = record { race = Grows-refl; attempts = λ i rows x here. here }

abbrev published : World
published = router no_floats dependencies valid_manifest settings calm (put_version release) world

abbrev withdrawn : World
withdrawn =
    router no_floats dependencies valid_manifest settings calm (post_yank withdrawal) published

history : Reach no_floats dependencies valid_manifest settings (λ o u. IsFair o) world withdrawn
history =
    later calm (post_yank withdrawal) (later calm (put_version release) start calm-IsFair)
      calm-IsFair

Reach-Grows_example : Grows world.database withdrawn.database
Reach-Grows_example = Reach-Grows no_floats dependencies valid_manifest settings history

nothing_logged : AllLogs dependencies.hasher dependencies.action_text []
unfolding order_by_seq
nothing_logged org_id = record { linked = tt; anchored = refl; follows = tt }

calm-IsOrderly : IsOrderly dependencies.hasher dependencies.action_text calm
calm-IsOrderly = record {
  race = λ v logs. logs;
  attempts = λ i org_id. record { keeps = λ rows log. log; moves = λ rows. inl refl };
}

Reach-intact_example :
    (verify_chain dependencies.hasher
      (order_by_seq (of_org 10 withdrawn.database.audit_log))).intact
    ≡ true
Reach-intact_example =
    Reach-intact dependencies digest_nonempty no_floats valid_manifest settings
      (later calm (post_yank withdrawal) (later calm (put_version release) start calm-IsOrderly)
        calm-IsOrderly)
      nothing_logged 10

-- The same with digests of 64 digits, and a version whose artifact is in the store.
abbrev long_digest : Bytes → String
long_digest b =
    if nat_eq (length b) 3
    then "ba7816bf8f01cfea414140de5dae2223b00361a396177a9cb410ff61f20015ad"
    else "cb8379ac2098aa165029e3938a51da0bcecfc008fd6795f401178647f96c5b34"

abbrev keeping : External
keeping = record external { write = λ k v files. some (insert k v files) }

abbrev hashing : Dependencies
hashing = record dependencies { sha256_bytes = long_digest; external = keeping }

hashing-IsFaithful : IsFaithful hashing
hashing-IsFaithful = record {
  hex = λ v. elim (Bool-cases (nat_eq (length v) 3)) [ inl e ↦ rw e refl | inr e ↦ rw e refl ];
  writes = λ k v files files' h j.
      subst (λ m. get j m ≡ (if k == j then some v else get j files))
        (inserted (insert k v files) files' h) (get-insert k j v files);
}
  where
    inserted : (m m' : Objects) → some m ≡ some m' → m ≡ m'
    inserted m m' h = cc

abbrev stored_kit : Version
stored_kit = record kit_one {
  sha256 = "ba7816bf8f01cfea414140de5dae2223b00361a396177a9cb410ff61f20015ad";
  artifact_key = "artifacts/ba7816bf8f01cfea414140de5dae2223b00361a396177a9cb410ff61f20015ad.zip";
}

abbrev stocked : World
stocked = record {
  database = record world.database { versions = stored_kit ∷ [] };
  store = memory ((stored_kit.artifact_key, 7 ∷ 8 ∷ 9 ∷ []) ∷ []) 1000;
}

stored_kit-Backed : Backed hashing stored_kit stocked.store
unfolding get artifact_key
stored_kit-Backed = record {
  artifact = 7 ∷ 8 ∷ 9 ∷ [];
  held = refl;
  digest = refl;
  addressed = refl;
}

stocked-AllBacked : AllBacked hashing stocked
stocked-AllBacked x (inl e) = subst (λ y. Backed hashing y stocked.store) (sym e) stored_kit-Backed
stocked-AllBacked x (inr i) = elim i [ ]

abbrev hashed_release : PublishRequest
hashed_release = record release {
  body =
      meta_field (some (record meta { sha256 = long_digest (7 ∷ 8 ∷ 9 ∷ []) }))
      ∷ artifact_field (some (7 ∷ 8 ∷ 9 ∷ []))
      ∷ [];
}

abbrev restocked : World
restocked =
    router no_floats hashing valid_manifest settings calm (put_version hashed_release) stocked

restocked_twice : length restocked.database.versions ≡ 2
unfolding router publish ◌>>=◌ query require transaction trim
restocked_twice = refl

calm-IsSupplied : IsSupplied hashing calm stocked.store
calm-IsSupplied v x i = inl (x, i, refl)

Reach-AllBacked_example : AllBacked hashing restocked
Reach-AllBacked_example =
    Reach-AllBacked no_floats hashing valid_manifest settings hashing-IsFaithful
      (later calm (put_version hashed_release) start calm-IsSupplied) stocked-AllBacked
