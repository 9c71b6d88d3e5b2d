-- ===== src/Verify/Segments.antt =====
-- What `parse_github` of src/verify.rs lets into the path of a request.
use registry_api_contract.Prelude.{
  ℕ, ◌≡◌, ◌≢◌, refl, Bool, true, false, not, Option, none, some, Option-cases, Bool-cases, [], ◌∷◌,
  ◌&&◌, nat_eq, all, In, All, All-mono, All-of_all, arith, inl, inr, if◌then◌else◌,
}
use registry_api_contract.Text.{
  Text, trim_end_by, trim_start_by, before_first, after_first, contains_char, is_empty,
  is_ascii_alphanumeric,
}
use registry_api_contract.Verify.{
  in_tag_encode_set, is_segment_char, valid_repo_segment, trim_end_git, owner_and_repo,
  parse_github, strip_host,
}

-- A path segment that stands for itself: every character is one that `TAG_ENCODE_SET` leaves alone
-- and no slash, and some character is no dot (so it is not empty, `.` or `..`).
pub record IsPlainSegment (s : Text) : Type 0 where
  pub unencoded : All (λ c. in_tag_encode_set c ≡ false) s
  pub no_slash : All (λ c. c ≢ b'/') s
  pub not_dots : (c : ℕ) × In c s × (c ≢ b'.')

none-some : {p : Text × Text} → none ≡ some p → ⊥
none-some h = cc

char_plain : (c : ℕ) → is_segment_char c ≡ true → (in_tag_encode_set c ≡ false) × (c ≢ b'/')
unfolding in_tag_encode_set is_ascii_alphanumeric
char_plain c h = ground arith

non_dot :
    (s : Text)
    → is_empty (trim_start_by (λ c. nat_eq c b'.') s) ≡ false
    → (c : ℕ) × In c s × (c ≢ b'.')
non_dot [] h = cc
non_dot (c ∷ s) h = elim (Bool-cases (nat_eq c b'.')) [
  | inl e ↦ let (d, m, n) = non_dot s (rw e at h) in (d, inr m, n)
  | inr e ↦ (c, inl refl, ground arith)
]

trim_end-empty : (p : ℕ → Bool) (s : Text) → is_empty (trim_end_by p s) ≡ false → is_empty s ≡ false
trim_end-empty p [] h = cc
trim_end-empty p (c ∷ s) h = refl

valid-IsPlainSegment : (s : Text) → valid_repo_segment s ≡ true → IsPlainSegment s
unfolding valid_repo_segment
valid-IsPlainSegment s h =
    let chars : all is_segment_char s ≡ true = ground arith in
    let a = All-of_all is_segment_char s chars in
    record {
      unencoded = All-mono _ _ s (λ c k. (char_plain c k).0) a;
      no_slash = All-mono _ _ s (λ c k. (char_plain c k).1) a;
      not_dots = non_dot s (trim_end-empty (λ c. nat_eq c b'.') _ (ground arith));
    }

owner_and_repo-valid :
    (rest owner repo : Text)
    → owner_and_repo rest ≡ some (owner, repo)
    → (valid_repo_segment owner ≡ true) × (valid_repo_segment repo ≡ true)
unfolding owner_and_repo
owner_and_repo-valid rest owner repo h = elim (Option-cases (after_first b'/' rest)) [
  | inl e ↦ absurd (none-some (rw (e, owner_and_repo) at h))
  | inr (r, e) ↦ tested (before_first b'/' rest) r (rw (e, owner_and_repo) at h)
]
  where
    tested :
        (o r : Text)
        → if◌then◌else◌ {A = Option (Text × Text)}
            (not (contains_char b'/' r) && valid_repo_segment o && valid_repo_segment r)
            (some (o, r))
            none
          ≡ some (owner, repo)
        → (valid_repo_segment owner ≡ true) × (valid_repo_segment repo ≡ true)
    tested o r k = ground arith

-- Whatever the repository's URL, the owner and the name that go into the request's path are plain
-- segments: they cannot change or leave the path, and percent-encoding leaves them as they are.
pub parse_github-plain :
    (repo_url owner repo : Text)
    → parse_github repo_url ≡ some (owner, repo)
    → IsPlainSegment owner × IsPlainSegment repo
unfolding parse_github
parse_github-plain repo_url owner repo h = elim (Option-cases (strip_host repo_url)) [
  | inl e ↦ absurd (none-some (rw e at h))
  | inr (rest, e) ↦
      let (o, r) =
        owner_and_repo-valid (trim_end_git (trim_end_by (λ c. nat_eq c b'/') rest)) owner repo
          (rw e at h) in
      (valid-IsPlainSegment owner o, valid-IsPlainSegment repo r)
]
