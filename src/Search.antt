-- ===== src/Search.antt =====
-- src/routes/search.rs: the tag filter and the escaping of LIKE patterns.
pub mod Like
pub mod Tags
use registry_api_contract.Prelude.{
  ℕ, String, Bool, true, false, not, Option, none, some, List, [], ◌∷◌, ◌++◌, ◌||◌, nat_eq, all,
  any, keep, map, if◌then◌else◌,
}
use registry_api_contract.Text.{Text, same_text, is_empty, split, trim}

unfoldable pub parse_tag_filter : Option Text → List Text
unfolding trim
parse_tag_filter none = []
parse_tag_filter (some s) = keep (λ t. not (is_empty t)) (map trim (split b',' s))

unfoldable pub has_all_tags : List Text → List Text → Bool
has_all_tags have want = all (λ w. any (λ h. same_text h w) have) want

-- `str::replace` of one character
abbrev pub replace_char : ℕ → Text → Text → Text
replace_char c by [] = []
replace_char c by (d ∷ s) =
    if nat_eq d c then by ++ replace_char c by s else d ∷ replace_char c by s

unfoldable pub escape_like : Text → Text
escape_like q =
    replace_char b'_' (b'\\' ∷ b'_' ∷ [])
      (replace_char b'%' (b'\\' ∷ b'%' ∷ []) (replace_char b'\\' (b'\\' ∷ b'\\' ∷ []) q))

-- The pattern of `contains_escaped`, whose escape character is the backslash.
unfoldable pub contains_escaped : Text → Text
unfolding escape_like
contains_escaped q = b'%' ∷ escape_like q ++ b'%' ∷ []
