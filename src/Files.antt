-- ===== src/Files.antt =====
-- src/files.rs: reading one file out of an artifact within a budget, and the content type it is
-- served with. The readers of archives are dependencies: an archive is what they yield.
pub mod Budget
pub mod Mime
use registry_api_contract.Prelude.{
  ℕ, ◌+◌, ◌-◌, ◌*◌, ◌^◌, min, String, ◌<>◌, Bool, true, false, Option, none, some, List, [], ◌∷◌,
  ◌||◌, ◌==◌, ltb, length, take, any, unwrap_or, if◌then◌else◌,
}
use registry_api_contract.Error.{ExtractError, too_large, inflation_budget_exceeded, archive}
use registry_api_contract.Storage.{Bytes}
use registry_api_contract.Text.{
  Text, codes, same_text, after_last, before_first, contains_text, trim,
}

abbrev pub max_served_file_bytes : ℕ
max_served_file_bytes = 25 * 1024 * 1024

abbrev pub default_max_inflated_bytes : ℕ
default_max_inflated_bytes = 512 * 1024 * 1024

-- `max_inflated_bytes`, from what the environment variable parses to.
unfoldable pub max_inflated_bytes : Option ℕ → ℕ
max_inflated_bytes none = default_max_inflated_bytes
max_inflated_bytes (some v) = if ltb 0 v then v else default_max_inflated_bytes

abbrev pub inflation_budget_msg : String
inflation_budget_msg = "zed: archive exceeded the decompression budget"

-- An I/O error: its own text and the texts of the I/O errors in its chain of causes.
pub record IoError : Type 0 where
  pub display : String
  pub causes : List String

pub data ReadResult (A : Type 0) : Type 0 where
  got : A → ReadResult A
  io_error : IoError → ReadResult A

-- The budget left to a `BudgetReader`.
unfoldable pub initial_budget : ℕ → ℕ
initial_budget limit = if ltb (limit + 1) (2 ^ 64) then limit + 1 else 2 ^ 64 - 1

-- `BudgetReader::read` with a buffer of `buf_len` bytes: what the inner reader answers to a request
-- for some number of bytes, and the budget left.
unfoldable pub budget_read : (ℕ → ReadResult Bytes) → ℕ → ℕ → ReadResult Bytes × ℕ
budget_read inner buf_len remaining =
    if ltb 0 remaining
    then elim (inner (min buf_len remaining)) [
      | got bs ↦ (got bs, remaining - length bs)
      | io_error e ↦ (io_error e, remaining)
    ]
    else (
      io_error (record { display = inflation_budget_msg; causes = inflation_budget_msg ∷ [] }),
      remaining,
    )

abbrev mentions_budget : String → Bool
mentions_budget s = contains_text (codes inflation_budget_msg) (codes s)

-- `map_tar_err`, with `is_budget_error`
unfoldable pub map_tar_err : IoError → ExtractError
map_tar_err e =
    if mentions_budget e.display
    then inflation_budget_exceeded
    else if any mentions_budget e.causes || mentions_budget e.display
    then inflation_budget_exceeded
    else archive

pub data Extracted (A : Type 0) : Type 0 where
  extracted : A → Extracted A
  not_extracted : ExtractError → Extracted A

-- A copy that stops after `limit + 1` bytes, refused if it has more than `limit`.
unfoldable pub copy_capped : ℕ → Bytes → Extracted Bytes
copy_capped limit content =
    let buf = take (limit + 1) content in
    if ltb limit (length buf) then not_extracted too_large else extracted buf

-- `read_capped`: `content` is what the entry yields when it is read to its end.
unfoldable pub read_capped : ReadResult Bytes → Extracted Bytes
unfolding map_tar_err copy_capped
read_capped (io_error e) = not_extracted (map_tar_err e)
read_capped (got content) = copy_capped max_served_file_bytes content

-- An entry of an archive: its path (which may be unreadable), declared size and content.
pub record ArchiveEntry : Type 0 where
  pub path : ReadResult String
  pub size : ℕ
  pub content : ReadResult Bytes

abbrev some_bytes : Extracted Bytes → Extracted (Option Bytes)
some_bytes (extracted bs) = extracted (some bs)
some_bytes (not_extracted e) = not_extracted e

abbrev serve_entry : ArchiveEntry → Extracted (Option Bytes)
serve_entry entry =
    if ltb max_served_file_bytes entry.size
    then not_extracted too_large
    else some_bytes (read_capped entry.content)

-- The loop over the entries of a tar archive.
unfoldable pub scan_tar : String → List (ReadResult ArchiveEntry) → Extracted (Option Bytes)
unfolding read_capped
scan_tar want [] = extracted none
scan_tar want (io_error e ∷ entries) = not_extracted (map_tar_err e)
scan_tar want (got entry ∷ entries) =
    let rest = scan_tar want entries in
    elim entry.path [
      | io_error e ↦ not_extracted (map_tar_err e)
      | got path ↦ if path == want then serve_entry entry else rest
    ]

-- What the zip reader says of a name.
pub data ZipLookup : Type 0 where
  zip_entry : ArchiveEntry → ZipLookup
  file_not_found zip_error : ZipLookup

-- An opened archive: the entries of the inflated tar stream (or the error of its start), or the
-- directory of a zip file (`none` if it cannot be read).
pub data Archive : Type 0 where
  tar_gz : ReadResult (List (ReadResult ArchiveEntry)) → Archive
  zip : Option (String → ZipLookup) → Archive

abbrev serve_zip : ZipLookup → Extracted (Option Bytes)
serve_zip (zip_entry entry) = serve_entry entry
serve_zip file_not_found = extracted none
serve_zip zip_error = not_extracted archive

-- `archive_root` is the dependency's `ARCHIVE_ROOT`.
unfoldable pub extract_file : String → Archive → String → Extracted (Option Bytes)
unfolding scan_tar
extract_file archive_root (tar_gz (io_error e)) rel_path = not_extracted (map_tar_err e)
extract_file archive_root (tar_gz (got entries)) rel_path =
    scan_tar (archive_root <> "/" <> rel_path) entries
extract_file archive_root (zip none) rel_path = not_extracted archive
extract_file archive_root (zip (some by_name)) rel_path =
    serve_zip (by_name (archive_root <> "/" <> rel_path))

-- The arms of the match in `mime_for`, in order.
abbrev pub mime_table : List (String × String)
mime_table =
    ("css", "text/css; charset=utf-8")
    ∷ ("js", "text/javascript; charset=utf-8")
    ∷ ("mjs", "text/javascript; charset=utf-8")
    ∷ ("cjs", "text/javascript; charset=utf-8")
    ∷ ("json", "application/json")
    ∷ ("map", "application/json")
    ∷ ("html", "text/html; charset=utf-8")
    ∷ ("htm", "text/html; charset=utf-8")
    ∷ ("svg", "image/svg+xml")
    ∷ ("png", "image/png")
    ∷ ("jpg", "image/jpeg")
    ∷ ("jpeg", "image/jpeg")
    ∷ ("gif", "image/gif")
    ∷ ("wasm", "application/wasm")
    ∷ ("toml", "application/toml")
    ∷ ("md", "text/plain; charset=utf-8")
    ∷ ("txt", "text/plain; charset=utf-8")
    ∷ ("woff2", "font/woff2")
    ∷ []

abbrev pub octet_stream : String
octet_stream = "application/octet-stream"

unfoldable pub first_arm : Text → List (String × String) → String
first_arm ext [] = octet_stream
first_arm ext ((e, mime) ∷ arms) = if same_text ext (codes e) then mime else first_arm ext arms

unfoldable pub mime_for : Text → String
unfolding first_arm
mime_for path = first_arm (after_last b'.' path) mime_table

unfoldable pub is_active_content : String → Bool
unfolding trim
is_active_content mime =
    let base = trim (before_first b';' (codes mime)) in
    same_text base (codes "text/html")
    || same_text base (codes "image/svg+xml")
    || same_text base (codes "application/xhtml+xml")
    || contains_text (codes "javascript") base

abbrev pub text_plain : String
text_plain = "text/plain; charset=utf-8"

unfoldable pub served_mime : Text → String
unfolding mime_for is_active_content
served_mime path =
    let guessed = mime_for path in if is_active_content guessed then text_plain else guessed

pub record FileHeaders : Type 0 where
  pub content_type : String
  pub cache_control : String
  pub content_disposition : String
  pub content_security_policy : String

unfoldable pub served_file_headers : Text → FileHeaders
unfolding served_mime
served_file_headers path = record {
  content_type = served_mime path;
  cache_control = "public, max-age=31536000, immutable";
  content_disposition = "inline";
  content_security_policy = "sandbox";
}
