-- ===== src/Search/Tags.antt =====
-- The tag filter of src/routes/search.rs.
use registry_api_contract.Prelude.{
  ◌≡◌, ◌↔◌, refl, sym, ap, true, false, not, some, List, [], ◌∷◌, ◌++◌, nat_eq, all, any, keep, map,
  In, All, any_of-In, all_of-In, arith, Bool-cases, inl, inr,
}
use registry_api_contract.Text.{Text, same_text, is_empty, split, trim, contains_char}
use registry_api_contract.Text.Pieces.{same_text_iff, same_text_refl}
use registry_api_contract.Search.{parse_tag_filter, has_all_tags}

In_of_any : (w : Text) (have : List Text) → any (λ h. same_text h w) have ≡ true → In w have
In_of_any w [] h = cc
In_of_any w (x ∷ have) h = elim (Bool-cases (same_text x w)) [
  | inl e ↦ inl (sym ((same_text_iff x w).0 e))
  | inr e ↦ inr (In_of_any w have (rw e at h))
]

all_of_each :
    (have want : List Text)
    → ((w : Text) → In w want → In w have)
    → all (λ w. any (λ h. same_text h w) have) want ≡ true
all_of_each have [] f = refl
all_of_each have (w ∷ want) f =
    rw (any_of-In (λ h. same_text h w) have w (f w (inl refl)) (same_text_refl w))
      (all_of_each have want (λ v m. f v (inr m)))

-- A package passes the filter exactly when it carries every wanted tag.
pub has_all_tags_iff :
    (have want : List Text) → (has_all_tags have want ≡ true) ↔ ((w : Text) → In w want → In w have)
unfolding has_all_tags
has_all_tags_iff have want = (
  λ h w m. In_of_any w have (all_of-In (λ v. any (λ t. same_text t v) have) want w h m),
  all_of_each have want,
)

-- Tags that the comma-separated form can carry: not empty, with no comma and no space around them.
pub record IsTag (t : Text) : Type 0 where
  pub trimmed : trim t ≡ t
  pub nonempty : is_empty t ≡ false
  pub no_comma : contains_char b',' t ≡ false

-- `join(",")`
abbrev pub join_tags : List Text → Text
join_tags [] = []
join_tags (t ∷ []) = t
join_tags (t ∷ u ∷ ts) = t ++ b',' ∷ join_tags (u ∷ ts)

split-absent : (s : Text) → contains_char b',' s ≡ false → split b',' s ≡ s ∷ []
split-absent [] h = refl
split-absent (c ∷ s) h =
    let later : contains_char b',' s ≡ false = ground arith in
    let differs : nat_eq c b',' ≡ false = ground arith in rw (differs, split-absent s later)

split-append :
    (s t : Text) → contains_char b',' s ≡ false → split b',' (s ++ b',' ∷ t) ≡ s ∷ split b',' t
split-append [] t h = refl
split-append (c ∷ s) t h =
    let later : contains_char b',' s ≡ false = ground arith in
    let differs : nat_eq c b',' ≡ false = ground arith in rw (differs, split-append s t later)

trim_nil : trim [] ≡ []
unfolding trim
trim_nil = refl

parse_joined :
    (tags : List Text)
    → All IsTag tags
    → keep (λ t. not (is_empty t)) (map trim (split b',' (join_tags tags))) ≡ tags
parse_joined [] h = rw trim_nil
parse_joined (t ∷ []) h = rw (split-absent t h.0.no_comma, h.0.trimmed, h.0.nonempty)
parse_joined (t ∷ u ∷ ts) h =
    rw (split-append t (join_tags (u ∷ ts)) h.0.no_comma, h.0.trimmed, h.0.nonempty)
      (ap (◌∷◌ t) (parse_joined (u ∷ ts) h.1))

-- The filter that is read from a list of tags joined by commas, as semantic search does, is that list.
pub parse_tag_filter-join :
    (tags : List Text) → All IsTag tags → parse_tag_filter (some (join_tags tags)) ≡ tags
unfolding parse_tag_filter
parse_tag_filter-join tags h = parse_joined tags h
