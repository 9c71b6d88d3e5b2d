-- ===== src/Verify.antt =====
-- src/verify.rs: which tags of which repositories are checked before a publish. GitHub's answer and
-- the dependency's list of version control systems are parameters.
pub mod Segments
use registry_api_contract.Prelude.{
  String, Bool, true, false, not, Option, none, some, List, [], ◌∷◌, ◌&&◌, ◌||◌, ◌==◌, nat_eq, all,
  ℕ, if◌then◌else◌,
}
use registry_api_contract.Text.{
  Text, codes, strip_prefix, trim_end_by, trim_start_by, before_first, after_first, contains_char,
  is_empty, is_ascii_alphanumeric,
}

-- `config::TagPolicy`
pub data TagPolicy : Type 0 where
  off github : TagPolicy

pub data TagCheck : Type 0 where
  skipped : TagCheck
  verified : Option String → TagCheck
  missing : TagCheck

-- What `Value::as_str` of `body["object"]["type"]` and of `["sha"]` give.
pub record RefBody : Type 0 where
  pub object_type : Option String
  pub sha : Option String

-- The outcome of the request for a tag: an error of the transport, a status, a body.
pub data RefResponse : Type 0 where
  transport_error not_found error_status bad_body : RefResponse
  body : RefBody → RefResponse

-- `TAG_ENCODE_SET`: the ASCII characters that are percent-encoded.
unfoldable pub in_tag_encode_set : ℕ → Bool
unfolding is_ascii_alphanumeric
in_tag_encode_set c =
    not (is_ascii_alphanumeric c)
    && not (nat_eq c b'-' || nat_eq c b'.' || nat_eq c b'_' || nat_eq c b'~')

abbrev pub is_segment_char : ℕ → Bool
is_segment_char c = is_ascii_alphanumeric c || (nat_eq c b'.' || nat_eq c b'_' || nat_eq c b'-')

unfoldable pub valid_repo_segment : Text → Bool
unfolding is_ascii_alphanumeric
valid_repo_segment segment =
    not (is_empty segment)
    && all is_segment_char segment
    && not
        (is_empty (trim_end_by (λ c. nat_eq c b'.') (trim_start_by (λ c. nat_eq c b'.') segment)))

-- `trim_end_matches(".git")`, on the reversed text.
unfoldable pub strip_git_reversed : Text → Text
strip_git_reversed (t ∷ i ∷ g ∷ d ∷ s) =
    let rest = strip_git_reversed s in
    if nat_eq t b't' && nat_eq i b'i' && nat_eq g b'g' && nat_eq d b'.'
    then rest
    else t ∷ i ∷ g ∷ d ∷ s
strip_git_reversed s = s

abbrev pub reverse_onto : Text → Text → Text
reverse_onto [] acc = acc
reverse_onto (c ∷ s) acc = reverse_onto s (c ∷ acc)

unfoldable pub trim_end_git : Text → Text
unfolding strip_git_reversed
trim_end_git s = reverse_onto (strip_git_reversed (reverse_onto s [])) []

abbrev or_else : Option Text → Option Text → Option Text
or_else none o = o
or_else (some s) o = some s

abbrev pub strip_host : Text → Option Text
strip_host repo_url =
    or_else
      (or_else (strip_prefix (codes "https://github.com/") repo_url)
        (strip_prefix (codes "http://github.com/") repo_url))
      (strip_prefix (codes "git@github.com:") repo_url)

-- `splitn(2, '/')` and the tests on its two parts.
unfoldable pub owner_and_repo : Text → Option (Text × Text)
unfolding valid_repo_segment
owner_and_repo rest = elim (after_first b'/' rest) [
  | none ↦ none
  | some repo ↦
      let owner = before_first b'/' rest in
      if not (contains_char b'/' repo) && valid_repo_segment owner && valid_repo_segment repo
      then some (owner, repo)
      else none
]

unfoldable pub parse_github : Text → Option (Text × Text)
unfolding owner_and_repo trim_end_git
parse_github repo_url = elim (strip_host repo_url) [
  | none ↦ none
  | some rest ↦ owner_and_repo (trim_end_git (trim_end_by (λ c. nat_eq c b'/') rest))
]

-- An annotated tag's object is no commit, and its resolution is left to clients.
abbrev pub commit_of : RefBody → Option String
commit_of b = elim b.object_type [ none ↦ none | some t ↦ if t == "commit" then b.sha else none ]

unfoldable pub check_response : RefResponse → Option TagCheck
check_response transport_error = none
check_response not_found = some missing
check_response error_status = none
check_response bad_body = none
check_response (body b) = some (verified (commit_of b))

-- `verify`; `none` is an error. `uses_git_tags` is the dependency's test on the repository's version
-- control system, and `get_ref owner repo tag` what the request for the encoded tag returns.
unfoldable pub verify :
    TagPolicy → Bool → (Text → Text → String → RefResponse) → Text → String → Option TagCheck
unfolding parse_github check_response
verify off uses_git_tags get_ref repo_url tag = some skipped
verify github uses_git_tags get_ref repo_url tag =
    if not uses_git_tags then some skipped else elim (parse_github repo_url) [
      | none ↦ some skipped
      | some (owner, repo) ↦ check_response (get_ref owner repo tag)
    ]
