-- ===== src/Error.antt =====
-- src/error.rs: the error value of every handler, and the result type. The human-readable
-- `message` of an error is not modelled; its status and its machine-readable code are.
use registry_api_contract.Prelude.{String, ◌≡◌, refl, Option, none, some, ◌⊎◌, inl, inr}

-- The HTTP statuses that errors carry.
pub data Status : Type 0 where
  bad_request_status unauthorized_status forbidden_status : Status
  not_found_status conflict_status payload_too_large internal_server_error : Status

pub record ApiErr : Type 0 where
  pub status : Status
  pub code : String

-- `ApiResult<T> = Result<T, ApiErr>`
pub data ApiResult {ℓ} (A : Type ℓ) : Type ℓ where
  ok : A → ApiResult A
  err : ApiErr → ApiResult A

infixl 10 ◌>>=◌ ◌>>◌
-- The `?` operator.
abbrev pub ◌>>=◌ {ℓ κ} : {A : Type ℓ} {B : Type κ} → ApiResult A → (A → ApiResult B) → ApiResult B
ok a >>= f = f a
err e >>= f = err e

abbrev pub ◌>>◌ {ℓ κ} : {A : Type ℓ} {B : Type κ} → ApiResult A → ApiResult B → ApiResult B
m >> k = m >>= λ _. k

abbrev pub ok_or {ℓ} : {A : Type ℓ} → Option A → ApiErr → ApiResult A
ok_or none e = err e
ok_or (some a) e = ok a

abbrev pub not_found : ApiErr
not_found = record { status = not_found_status; code = "not_found" }

abbrev pub bad_request : String → ApiErr
bad_request code = record { status = bad_request_status; code = code }

abbrev pub unauthorized : ApiErr
unauthorized = record { status = unauthorized_status; code = "unauthorized" }

abbrev pub forbidden : String → ApiErr
forbidden code = record { status = forbidden_status; code = code }

abbrev pub conflict : String → ApiErr
conflict code = record { status = conflict_status; code = code }

-- `From<sea_orm::DbErr>` and `From<anyhow::Error>`
abbrev pub internal : ApiErr
internal = record { status = internal_server_error; code = "internal" }

-- `ExtractError` of src/files.rs
pub data ExtractError : Type 0 where
  too_large inflation_budget_exceeded archive : ExtractError

-- `From<crate::files::ExtractError>`
unfoldable pub from_extract_error : ExtractError → ApiErr
from_extract_error too_large = record { status = payload_too_large; code = "file_too_large" }
from_extract_error inflation_budget_exceeded = record {
  status = payload_too_large;
  code = "archive_too_large";
}
from_extract_error archive = internal

pub ApiResult-cases {ℓ} :
    {A : Type ℓ} (m : ApiResult A) → ((a : A) × (m ≡ ok a)) ⊎ ((e : ApiErr) × (m ≡ err e))
ApiResult-cases (ok a) = inl (a, refl)
ApiResult-cases (err e) = inr (e, refl)

pub ok_injective {ℓ} : {A : Type ℓ} {a b : A} → ok a ≡ ok b → a ≡ b
ok_injective h = cc
