-- ===== src/Tokens/Mint/Accepted.antt =====
-- A token that `create_token` of src/tokens.rs printed, as a bearer token of src/auth.rs.
use registry_api_contract.Prelude.{
  ℕ, String, ◌≡◌, refl, sym, ap, subst, ◌∙◌, Bool, true, false, not, Option, none, some, List, [],
  ◌∷◌, ◌++◌, all, find, arith, if◌then◌else◌,
}
use registry_api_contract.Error.{ApiResult, unauthorized}
use registry_api_contract.Anyhow.{ok}
use registry_api_contract.Db.{Uuid, Time, Token}
use registry_api_contract.Text.{Text, codes, trim, is_whitespace, trim_start_by, trim_end_by}
use registry_api_contract.Text.Pieces.{strip_prefix-append}
use registry_api_contract.Config.{Env}
use registry_api_contract.State.{Database, World, AppState, Dependencies, Outside, find_token}
use registry_api_contract.Auth.{
  auth_disabled, bearer_token, has_hash, has_expired, hash_token, live_token, require_token,
}
use registry_api_contract.Auth.Liveness.{require_token_enabled}
use registry_api_contract.Tokens.Arguments.{
  CreateArgs, create_defaults, Request, parse_create, checked_request,
}
use registry_api_contract.Tokens.{
  Tools, Surroundings, scope_of, expiry_of, plaintext, new_token, insert_new_token, mint,
  create_token, first_half, second_half,
}
use registry_api_contract.Tokens.Steps.{through, through_lift, through_then, through_open}
use registry_api_contract.Tokens.Mint.{Scoped, scope_of_ok, insert_new_token_ok, find_appended}

abbrev solid : ℕ → Bool
solid c = not (is_whitespace c)

-- A text of characters that are no white space.
abbrev pub IsSolid : Text → Type 0
IsSolid s = all solid s ≡ true

trim_start-IsSolid : (s : Text) → IsSolid s → trim_start_by is_whitespace s ≡ s
trim_start-IsSolid [] h = refl
trim_start-IsSolid (c ∷ s) h = ground arith

trim_end-IsSolid : (s : Text) → IsSolid s → trim_end_by is_whitespace s ≡ s
trim_end-IsSolid [] h = refl
trim_end-IsSolid (c ∷ s) h = ground (arith, trim_end-IsSolid s)

trim-IsSolid : (s : Text) → IsSolid s → trim s ≡ s
unfolding trim
trim-IsSolid s h = ap (trim_end_by is_whitespace) (trim_start-IsSolid s h) ∙ trim_end-IsSolid s h

IsSolid-append : (s u : Text) → IsSolid s → IsSolid u → IsSolid (s ++ u)
IsSolid-append [] u h k = k
IsSolid-append (c ∷ s) u h k = ground (arith, IsSolid-append s u)

bearer_token_of :
    (s : Text) → IsSolid s → bearer_token (some (some (codes "Bearer " ++ s))) ≡ some s
unfolding bearer_token
bearer_token_of s h = rw (strip_prefix-append (codes "Bearer ") s, trim-IsSolid s h) refl

-- The request that the arguments make.
pub record Requested (args : List String) (r : Request) : Type 0 where
  pub parsed : CreateArgs
  pub read : parse_create args create_defaults ≡ ok parsed
  pub checked : checked_request parsed ≡ ok r

module _ (t : Tools) (o : Surroundings) where
  -- The row of a request: its name and role, its scope, its expiry, its hash.
  pub record Minted (r : Request) (db : Database) (row : Token) : Type 0 where
    pub named : row.name ≡ r.name
    pub ranked : row.role ≡ r.role
    pub scoped : Scoped t o r.org_slug row.org_id db
    pub dated : expiry_of t o r.expires_in_days ≡ ok row.expires_at
    pub hashed : row.token_hash ≡ t.sha256_text (plaintext t o)
    pub unrevoked : row.revoked_at ≡ none
    pub first : find (has_hash row.token_hash) db.tokens ≡ some row

  pub mint_ok :
      (r : Request) (text : Text) (db db' : Database)
      → mint t o r db ≡ (ok text, db')
      → (row : Token) × Minted r db' row × (text ≡ plaintext t o)
  unfolding mint
  mint_ok r text db db' h =
      let (scope, e, h1) = through (scope_of t o r.org_slug) _ h in
      let (expires_at, x, h2) = through_lift (expiry_of t o r.expires_in_days) _ h1 in
      let db1 : Database = (scope_of t o r.org_slug db).1 in
      let row : Token = new_token t o r scope expires_at in
      let (u, h3) = through_then (insert_new_token t o row) _ h2 in
      let (fresh, left) = insert_new_token_ok t o row db1 u in
      let whole : record db1 { tokens = db1.tokens ++ row ∷ [] } ≡ db' =
        sym left ∙ ap (λ y. y.1) h3 in
      let scoped : Scoped t o r.org_slug scope db1 =
        scope_of_ok t o r.org_slug scope db db1 (λ i. (e i, db1)) in
      (
        row,
        subst (λ y. Minted r y row) whole
            (record {
              named = refl;
              ranked = refl;
              scoped = same_orgs r.org_slug scope db1 (db1.tokens ++ row ∷ []) scoped;
              dated = x;
              hashed = refl;
              unrevoked = refl;
              first = find_appended row db1.tokens fresh;
            }),
        let k = ap (λ y. y.0) h3 in cc,
      )
    where
      same_orgs :
          (slug : Option String) (scope : Option Uuid) (x : Database) (rows : List Token)
          → Scoped t o slug scope x
          → Scoped t o slug scope (record x { tokens = rows })
      same_orgs none scope x rows h = h
      same_orgs (some slug) scope x rows h = h

  plaintext-IsSolid : ((u : Uuid) → IsSolid (t.simple u)) → IsSolid (plaintext t o)
  unfolding plaintext is_whitespace
  plaintext-IsSolid h =
      IsSolid-append (codes "zpkg_")
        (t.simple (o.fresh first_half) ++ t.simple (o.fresh second_half)) refl
        (IsSolid-append (t.simple (o.fresh first_half)) (t.simple (o.fresh second_half))
          (h (o.fresh first_half)) (h (o.fresh second_half)))

  pub create_token_steps :
      (env : Env) (args : List String) (text : Text) (db db' : Database)
      → create_token t o env args db ≡ (ok text, db')
      → (r : Request) × Requested args r × (mint t o r db ≡ (ok text, db'))
  unfolding create_token
  create_token_steps env args text db db' h =
      let (a, p, h1) = through_lift (parse_create args create_defaults) _ h in
      let (r, c, h2) = through_lift (checked_request a) _ h1 in
      (r, record { parsed = a; read = p; checked = c }, through_open env o (mint t o r) h2)

  live_token_unrevoked :
      (now : Time) (row : Token)
      → row.revoked_at ≡ none
      → live_token now (some row)
        ≡ (if has_expired now row.expires_at then ApiResult.err unauthorized else ApiResult.ok row)
  unfolding live_token
  live_token_unrevoked now row e = rw e refl

  -- The text that `create_token` prints is a bearer token of the server from then on: a request that carries it is
  -- let through as the row that the command stored, until that row expires. The row has the name and the role of the
  -- request, its expiry, and the scope of a stored organisation of the slug that was named, or of none. The command
  -- and the server share SHA-256, a UUID in hex has no white space, bearer tokens are required, the lookup is
  -- answered, and the server reads the table that the command left.
  pub create_token_accepted :
      (env : Env) (args : List String) (text : Text) (db db' : Database) (d : Dependencies)
      (s : AppState) (later : Outside) (w : World)
      → ((u : Uuid) → IsSolid (t.simple u))
      → d.sha256_text ≡ t.sha256_text
      → create_token t o env args db ≡ (ok text, db')
      → auth_disabled s ≡ false
      → later.fails find_token ≡ false
      → w.database.tokens ≡ db'.tokens
      → (r : Request) × Requested args r
        × (row : Token) × Minted r db' row
        × (require_token d s later (some (some (codes "Bearer " ++ text))) w ≡ (
          (if has_expired later.now row.expires_at
              then ApiResult.err unauthorized
              else ApiResult.ok row),
          w,
        ))
  unfolding hash_token
  create_token_accepted env args text db db' d s later w hex same_hash h enabled found same =
      let (r, asked, m) = create_token_steps env args text db db' h in
      let (row, minted, e) = mint_ok r text db db' m in
      let solid_text : IsSolid text = rw e (plaintext-IsSolid hex) in
      let hash : row.token_hash ≡ d.sha256_text text = minted.hashed ∙ rw (same_hash, e) refl in
      let lookup : find (has_hash (d.sha256_text text)) w.database.tokens ≡ some row =
        rw (same, ← hash) minted.first in
      (
        r,
        asked,
        row,
        minted,
        require_token_enabled d s later (some (some (codes "Bearer " ++ text))) w text enabled found
              (bearer_token_of text solid_text)
            ∙ rw (lookup) (ap (λ x. (x, w)) (live_token_unrevoked later.now row minted.unrevoked)),
      )
