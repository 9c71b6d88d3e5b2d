-- ===== src/Files/Budget.antt =====
-- Bounds on what src/files.rs inflates and serves.
use registry_api_contract.Prelude.{
  ℕ, ◌+◌, ◌≤◌, min, String, ◌⊎◌, ltb_false→le, ◌≡◌, refl, sym, ap, ◌∙◌, none, some, List, [], ◌∷◌,
  In, inl, inr, arith, ◌==◌, eq_iff, ltb, length, take, length-take, take_of_length-le, Bool-cases,
}
use registry_api_contract.Error.{ExtractError, inflation_budget_exceeded}
use registry_api_contract.Storage.{Bytes}
use registry_api_contract.Files.{
  ReadResult, got, io_error, IoError, budget_read, ArchiveEntry, Extracted, extracted,
  not_extracted, copy_capped, read_capped, serve_entry, scan_tar, max_served_file_bytes, some_bytes,
  map_tar_err,
}

-- The contract of `Read::read`: no more bytes than asked for.
abbrev pub IsReader : (ℕ → ReadResult Bytes) → Type 0
IsReader inner = (n : ℕ) (bs : Bytes) → inner n ≡ got bs → length bs ≤ n

abbrev pub received : ReadResult Bytes → ℕ
received (got bs) = length bs
received (io_error e) = 0

-- A run of reads through one `BudgetReader`: for each, the buffer's length and what the inner reader
-- answers. The bytes received in all, and the budget left.
unfoldable pub read_run : List (ℕ × (ℕ → ReadResult Bytes)) → ℕ → ℕ × ℕ
read_run [] remaining = (0, remaining)
read_run ((buf_len, inner) ∷ reads) remaining =
    let (r, left) = budget_read inner buf_len remaining in
    let (total, left') = read_run reads left in (received r + total, left')

abbrev pub AreReaders : List (ℕ × (ℕ → ReadResult Bytes)) → Type 0
AreReaders [] = Unit {0}
AreReaders ((_, inner) ∷ reads) = IsReader inner × AreReaders reads

ReadResult-cases :
    {A : Type 0} (r : ReadResult A) → ((a : A) × (r ≡ got a)) ⊎ ((e : IoError) × (r ≡ io_error e))
ReadResult-cases (got a) = inl (a, refl)
ReadResult-cases (io_error e) = inr (e, refl)

budget_read_account :
    (inner : ℕ → ReadResult Bytes) (buf_len remaining : ℕ)
    → IsReader inner
    → received (budget_read inner buf_len remaining).0 + (budget_read inner buf_len remaining).1
      ≡ remaining
unfolding budget_read
budget_read_account inner buf_len remaining h =
    elim (ReadResult-cases (inner (min buf_len remaining))) [
      | inl (bs, e) ↦ let fits = h (min buf_len remaining) bs e in ground arith
      | inr (err, e) ↦ ground arith
    ]

-- Whatever is read, and however the inner reader behaves within its contract, the bytes received and
-- the budget left add up to the budget: no more than the budget is ever inflated.
pub read_run_account :
    (reads : List (ℕ × (ℕ → ReadResult Bytes))) (remaining : ℕ)
    → AreReaders reads
    → (read_run reads remaining).0 + (read_run reads remaining).1 ≡ remaining
unfolding read_run
read_run_account [] remaining h = omega arith
read_run_account ((buf_len, inner) ∷ reads) remaining h =
    let this = budget_read_account inner buf_len remaining h.0 in
    let rest = read_run_account reads (budget_read inner buf_len remaining).1 h.1 in omega arith

-- A spent budget is reported as such: the read fails, and `map_tar_err` keeps it apart from a
-- corrupt archive.
pub budget_spent :
    (inner : ℕ → ReadResult Bytes) (buf_len : ℕ)
    → (e : IoError) × ((budget_read inner buf_len 0).0 ≡ io_error e)
      × (map_tar_err e ≡ inflation_budget_exceeded)
unfolding budget_read map_tar_err
budget_spent inner buf_len = (_, refl, refl)

copy_capped_bytes :
    (limit : ℕ) (content bs : Bytes)
    → copy_capped limit content ≡ extracted bs
    → (content ≡ bs) × (length bs ≤ limit)
unfolding copy_capped
copy_capped_bytes limit content bs h =
    elim (Bool-cases (ltb limit (length (take (limit + 1) content)))) [
      | inl long ↦ let k = rw long at h in cc
      | inr short ↦
          let n = length-take (limit + 1) content in
          let fits : length content ≤ limit = ground arith in
          let whole = take_of_length-le (limit + 1) content (omega arith) in
          let k : take (limit + 1) content ≡ bs = ground arith in
          (sym whole ∙ k, rw (← k, whole) fits)
    ]

read_capped_bytes :
    (content : ReadResult Bytes) (bs : Bytes)
    → read_capped content ≡ extracted bs
    → (content ≡ got bs) × (length bs ≤ max_served_file_bytes)
unfolding read_capped
read_capped_bytes (io_error e) bs h = cc
read_capped_bytes (got content) bs h =
    let (whole, fits) = copy_capped_bytes max_served_file_bytes content bs h in (ap got whole, fits)

some_bytes_inv :
    (x : Extracted Bytes) (bs : Bytes) → some_bytes x ≡ extracted (some bs) → x ≡ extracted bs
some_bytes_inv (extracted b) bs h = cc
some_bytes_inv (not_extracted e) bs h = cc

serve_entry_found :
    (entry : ArchiveEntry) (bs : Bytes)
    → serve_entry entry ≡ extracted (some bs)
    → (entry.content ≡ got bs)
      × (entry.size ≤ max_served_file_bytes)
      × (length bs ≤ max_served_file_bytes)
serve_entry_found entry bs h = elim (Bool-cases (ltb max_served_file_bytes entry.size)) [
  | inl long ↦ let k = rw long at h in cc
  | inr short ↦
      let (whole, fits) =
        read_capped_bytes entry.content bs
          (some_bytes_inv (read_capped entry.content) bs (rw short at h)) in
      (whole, ltb_false→le max_served_file_bytes entry.size short, fits)
]

no_file : {bs : Bytes} → extracted none ≡ extracted (some bs) → ⊥
no_file h = cc

no_result : {e : ExtractError} {bs : Bytes} → not_extracted e ≡ extracted (some bs) → ⊥
no_result h = cc

-- A file that is served out of a tar archive is the whole content of an entry with the wanted path,
-- and neither its declared nor its actual size is over the limit.
pub scan_tar_found :
    (want : String) (entries : List (ReadResult ArchiveEntry)) (bs : Bytes)
    → scan_tar want entries ≡ extracted (some bs)
    → (entry : ArchiveEntry) × In (got entry) entries
      × (entry.path ≡ got want)
      × (entry.content ≡ got bs)
      × (entry.size ≤ max_served_file_bytes)
      × (length bs ≤ max_served_file_bytes)
unfolding scan_tar
scan_tar_found want [] bs h = absurd (no_file h)
scan_tar_found want (io_error e ∷ entries) bs h = absurd (no_result h)
scan_tar_found want (got entry ∷ entries) bs h = elim (ReadResult-cases entry.path) [
  | inr (err, p) ↦ absurd (no_result (rw p at h))
  | inl (path, p) ↦ elim (Bool-cases (path == want)) [
    | inl hit ↦
        let (whole, declared, fits) = serve_entry_found entry bs (rw (p, hit) at h) in
        (entry, inl refl, p ∙ ap got ((eq_iff path want).0 hit), whole, declared, fits)
    | inr miss ↦
        let (x, m, q, whole, declared, fits) = scan_tar_found want entries bs (rw (p, miss) at h) in
        (x, inr m, q, whole, declared, fits)
  ]
]
