-- ===== src/Db.antt =====
-- What src/ uses of its database: tables as lists of rows, the errors of a statement, and the rows
-- of src/entities/ with the keys of migration/src/. A unique index refuses an insert that clashes
-- with a stored row; any statement may also fail for a reason of the database's own (`fault`).
use registry_api_contract.Prelude.{
  ◌≡◌, refl, ◌⊎◌, inl, inr, ℕ, String, Bool, true, false, Option, none, some, List, [], ◌∷◌, ◌++◌,
  ◌||◌, ◌&&◌, ◌==◌, nat_eq, any, if◌then◌else◌,
}

-- `uuid::Uuid` is its 128-bit number, `DateTimeUtc` a count of nanoseconds.
abbrev pub Uuid : Type 0
Uuid = ℕ

abbrev pub Time : Type 0
Time = ℕ

-- `sea_orm::DbErr`, as far as the program tells its causes apart.
pub data DbErr : Type 0 where
  unique_violation fault : DbErr

pub data DbResult (A : Type 0) : Type 0 where
  done : A → DbResult A
  failed : DbErr → DbResult A

pub DbResult-cases :
    {A : Type 0} (m : DbResult A)
    → ((a : A) × (m ≡ done a)) ⊎ (m ≡ failed unique_violation) ⊎ (m ≡ failed fault)
DbResult-cases (done a) = inl (a, refl)
DbResult-cases (failed unique_violation) = inr (inl refl)
DbResult-cases (failed fault) = inr (inr refl)

infixl 10 ◌>>=◌
abbrev pub ◌>>=◌ : {A B : Type 0} → DbResult A → (A → DbResult B) → DbResult B
done a >>= f = f a
failed e >>= f = failed e

-- A statement that fails when the database says so.
abbrev pub statement : {A : Type 0} → Bool → A → DbResult A
statement fails a = if fails then failed fault else done a

-- `INSERT` into a table with unique keys.
abbrev pub insert_row : {R : Type 0} → (R → R → Bool) → R → List R → DbResult (List R)
insert_row clashes r rows =
    if any (clashes r) rows then failed unique_violation else done (rows ++ r ∷ [])

-- `Option<Uuid>` equality
abbrev pub same_uuid? : Option Uuid → Option Uuid → Bool
same_uuid? none none = true
same_uuid? (some a) (some b) = nat_eq a b
same_uuid? _ _ = false

-- entities/org.rs
pub record Org : Type 0 where
  pub id : Uuid
  pub slug : String
  pub created_at : Time
  pub created_by_token : Option Uuid

-- entities/token.rs
pub record Token : Type 0 where
  pub id : Uuid
  pub name : String
  pub token_hash : String
  pub org_id : Option Uuid
  pub role : String
  pub created_at : Time
  pub expires_at : Option Time
  pub revoked_at : Option Time

-- A JSON value, as far as the `tags` column is read: an array of texts and of other values.
pub data Json : Type 0 where
  array : List (Option String) → Json
  other : Json

-- entities/package.rs
pub record Package : Type 0 where
  pub id : Uuid
  pub org_id : Uuid
  pub name : String
  pub description : Option String
  pub vcs : String
  pub repo_url : String
  pub version_scheme : String
  pub tags : Json
  pub created_at : Time

-- entities/version.rs
pub record Version : Type 0 where
  pub id : Uuid
  pub package_id : Uuid
  pub version : String
  pub sha256 : String
  pub size : ℕ
  pub format : String
  pub vcs_tag : String
  pub vcs_commit : Option String
  pub artifact_key : String
  pub yanked : Bool
  pub published_at : Time

-- entities/audit_log.rs. A stored `seq` is not negative: the column starts at 0 and each append
-- writes one more than the largest.
pub record AuditLog : Type 0 where
  pub id : Uuid
  pub org_id : Uuid
  pub at : Time
  pub action : String
  pub subject : String
  pub actor_token_id : Option Uuid
  pub actor_token_name : String
  pub actor_role : String
  pub detail : Option String
  pub seq : ℕ
  pub entry_hash : String
  pub prev_hash : Option String

-- A row of `package_embedding`, whose vector is the literal that is bound. `Text` is a list of code points.
pub record Embedding : Type 0 where
  pub id : Uuid
  pub package_id : Uuid
  pub embedding_model : List ℕ
  pub native_dimensions : ℕ
  pub embedding : List ℕ
  pub content : List ℕ
  pub content_sha256 : String
  pub created_at : Time

-- The unique keys: primary keys, `org.slug`, `token.token_hash`, and the indexes on
-- (org_id, name), (package_id, version) and (org_id, seq).
abbrev pub org_clashes : Org → Org → Bool
org_clashes a b = nat_eq a.id b.id || a.slug == b.slug

abbrev pub token_clashes : Token → Token → Bool
token_clashes a b = nat_eq a.id b.id || a.token_hash == b.token_hash

abbrev pub package_clashes : Package → Package → Bool
package_clashes a b = nat_eq a.id b.id || (nat_eq a.org_id b.org_id && a.name == b.name)

abbrev pub version_clashes : Version → Version → Bool
version_clashes a b =
    nat_eq a.id b.id || (nat_eq a.package_id b.package_id && a.version == b.version)

abbrev pub audit_clashes : AuditLog → AuditLog → Bool
audit_clashes a b = nat_eq a.id b.id || (nat_eq a.org_id b.org_id && nat_eq a.seq b.seq)
