-- ===== src/Tests/Parts.antt =====
-- The other parts on small inputs.
use registry_api_contract.Prelude.{
  ℕ, ◌+◌, ◌-◌, ◌*◌, ◌≤◌, ◌≡◌, ◌≢◌, refl, ◌↔◌, some, List, [], ◌∷◌, In, arith, length, take,
  length-take, subst,
}
use registry_api_contract.Error.{ok}
use registry_api_contract.Text.{codes, trim}
use registry_api_contract.Rbac.{publisher, authorize_publish}
use registry_api_contract.Rbac.Authority.{MayPublish, authorize_publish_iff}
use registry_api_contract.RateLimit.{RateLimiter}
use registry_api_contract.RateLimit.Usage.{granted, last_time, granted_bounded}
use registry_api_contract.RateLimit.Ideal.{Event, check, sweep}
use registry_api_contract.Storage.{Bytes, Objects, memory, put_memory, get_bytes}
use registry_api_contract.Files.{
  ReadResult, got, extracted, ArchiveEntry, scan_tar, served_mime, max_served_file_bytes,
}
use registry_api_contract.Files.Mime.{inert_types, served_mime-inert}
use registry_api_contract.Files.Budget.{IsReader, scan_tar_found}
use registry_api_contract.Verify.{parse_github}
use registry_api_contract.Verify.Segments.{IsPlainSegment, parse_github-plain}
use registry_api_contract.Search.Tags.{IsTag}
use registry_api_contract.Tests.Fixtures.{external}

authorize_publish_iff_example :
    (authorize_publish (some 3) publisher 3 ≡ ok tt) ↔ MayPublish 3 (some 3) publisher
authorize_publish_iff_example = authorize_publish_iff (some 3) publisher 3

three_four : ◌≢◌ {A = ℕ} 3 4
three_four = omega arith

-- One request a second, two at once.
abbrev limiter : RateLimiter
limiter = record { buckets = []; burst = 2_000_000_000; rate = 1; one = 1_000_000_000 }

abbrev events : List Event
events = check "alice" 0 ∷ check "alice" 0 ∷ sweep 4 ∷ check "bob" 5 ∷ check "alice" 9 ∷ []

granted_bounded_example :
    granted limiter "alice" events * limiter.one
    ≤ limiter.burst + limiter.rate * (last_time 0 events - 0)
granted_bounded_example =
    granted_bounded limiter "alice" 0 events tt (omega arith)
      (omega arith, (omega arith, (omega arith, (omega arith, (omega arith, tt)))))

abbrev held : Objects
held = ("a", 1 ∷ 2 ∷ []) ∷ ("b", 3 ∷ []) ∷ []

abbrev held_after : Objects
held_after = ("a", 9 ∷ []) ∷ ("b", 3 ∷ []) ∷ []

put_answers : put_memory "a" (9 ∷ []) held 4 ≡ some held_after
unfolding put_memory
put_answers = refl

get_answers : get_bytes external "b" (memory held 4) ≡ some (3 ∷ [])
unfolding get_bytes
get_answers = refl

served_mime-inert_example : In (served_mime (codes "index.html")) inert_types
served_mime-inert_example = served_mime-inert (codes "index.html")

abbrev prefix_reader : ℕ → ReadResult Bytes
prefix_reader n = got (take n (1 ∷ 2 ∷ 3 ∷ []))

prefix_reader-IsReader : IsReader prefix_reader
prefix_reader-IsReader n bs h =
    let e : take n (1 ∷ 2 ∷ 3 ∷ []) ≡ bs = cc in
    subst (λ x. length x ≤ n) e (rw length-take (omega arith))

abbrev readme : ArchiveEntry
readme = record { path = got "README"; size = 2; content = got (7 ∷ 8 ∷ []) }

readme_found : scan_tar "README" (got readme ∷ []) ≡ extracted (some (7 ∷ 8 ∷ []))
unfolding scan_tar
readme_found = refl

scan_tar_found_example :
    (entry : ArchiveEntry) × In (got entry) (got readme ∷ [])
    × (entry.path ≡ got "README")
    × (entry.content ≡ got (7 ∷ 8 ∷ []))
    × (entry.size ≤ max_served_file_bytes)
    × (2 ≤ max_served_file_bytes)
scan_tar_found_example = scan_tar_found "README" (got readme ∷ []) (7 ∷ 8 ∷ []) readme_found

kit_parsed :
    parse_github (codes "https://github.com/acme/kit.git/") ≡ some (codes "acme", codes "kit")
unfolding parse_github
kit_parsed = refl

parse_github-plain_example : IsPlainSegment (codes "acme") × IsPlainSegment (codes "kit")
parse_github-plain_example =
    parse_github-plain (codes "https://github.com/acme/kit.git/") (codes "acme") (codes "kit")
      kit_parsed

http-IsTag : IsTag (codes "http")
unfolding trim
http-IsTag = record { trimmed = refl; nonempty = refl; no_comma = refl }

cli-IsTag : IsTag (codes "cli")
unfolding trim
cli-IsTag = record { trimmed = refl; nonempty = refl; no_comma = refl }
