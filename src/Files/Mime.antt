-- ===== src/Files/Mime.antt =====
-- The content types of src/files.rs.
use registry_api_contract.Prelude.{
  String, ◌≡◌, refl, inl, inr, true, false, List, [], ◌∷◌, In, any, All-of_all, ◌==◌, eq_iff, arith,
  if◌then◌else◌, Bool-cases, All,
}
use registry_api_contract.Text.{Text, codes, same_text, after_last}
use registry_api_contract.Files.{
  mime_table, octet_stream, text_plain, first_arm, mime_for, is_active_content, served_mime,
}

-- Types that a browser does not run as a document or a script of the page's origin.
abbrev pub inert_types : List String
inert_types =
    "text/css; charset=utf-8" ∷ "application/json" ∷ "image/png" ∷ "image/jpeg" ∷ "image/gif"
    ∷ "application/wasm" ∷ "application/toml" ∷ "text/plain; charset=utf-8" ∷ "font/woff2"
    ∷ "application/octet-stream" ∷ []

abbrev neutral : String → String
neutral mime = if is_active_content mime then text_plain else mime

In_of_any : (s : String) (l : List String) → any (λ t. s == t) l ≡ true → In s l
In_of_any s [] h = cc
In_of_any s (t ∷ l) h = elim (Bool-cases (s == t)) [
  | inl e ↦ inl ((eq_iff s t).0 e)
  | inr e ↦ inr (In_of_any s l (ground arith))
]

abbrev Neutralized : String → Type 0
Neutralized mime = any (λ t. neutral mime == t) inert_types ≡ true

first_arm-All :
    (P : String → Type 0) (ext : Text) (arms : List (String × String))
    → P octet_stream
    → All (λ a. P a.1) arms
    → P (first_arm ext arms)
unfolding first_arm
first_arm-All P ext [] d h = d
first_arm-All P ext ((e, mime) ∷ arms) d h = elim (Bool-cases (same_text ext (codes e))) [
  | inl hit ↦ rw hit h.0
  | inr miss ↦ rw miss (first_arm-All P ext arms d h.1)
]

table-Neutralized : All (λ a. Neutralized a.1) mime_table
unfolding is_active_content
table-Neutralized = All-of_all (λ a. any (λ t. neutral a.1 == t) inert_types) mime_table refl

default-Neutralized : Neutralized octet_stream
unfolding is_active_content
default-Neutralized = refl

-- Whatever its path, a package file is served with a content type that a browser does not run.
pub served_mime-inert : (path : Text) → In (served_mime path) inert_types
unfolding served_mime mime_for
served_mime-inert path = In_of_any (neutral (mime_for path)) inert_types (
    first_arm-All Neutralized (after_last b'.' path) mime_table default-Neutralized
      table-Neutralized)

-- A file whose extension has an inert content type keeps it: only active content is changed.
pub served_mime_inert_kept :
    (path : Text) → is_active_content (mime_for path) ≡ false → served_mime path ≡ mime_for path
unfolding served_mime
served_mime_inert_kept path h = rw h
