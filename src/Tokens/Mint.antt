-- ===== src/Tokens/Mint.antt =====
-- What `create_token` of src/tokens.rs mints, and that the server of src/auth.rs takes it.
pub mod Accepted
pub mod Unscoped
use registry_api_contract.Prelude.{
  ℕ, String, ◌≡◌, refl, sym, ap, subst, ◌∙◌, ◌⊎◌, inl, inr, Bool, true, false, not, Bool-cases,
  Option, none, some, Option-cases, List, [], ◌∷◌, ◌++◌, ◌&&◌, ◌||◌, ◌==◌, eq_iff, nat_eq, map, any,
  all, find, find-some, is_some, In, In-append_left, In-append_right, arith, if◌then◌else◌,
}
use registry_api_contract.Error.{ApiResult}
use registry_api_contract.Anyhow.{Result, ok, bail, context, bail_if}
use registry_api_contract.Db.{
  Uuid, Time, Org, Token, DbResult, done, failed, insert_row, org_clashes, token_clashes,
}
use registry_api_contract.Text.{Text, codes}
use registry_api_contract.Config.{Env}
use registry_api_contract.Rbac.{is_valid}
use registry_api_contract.State.{Database, World, AppState, Dependencies, Outside}
use registry_api_contract.Routes.{has_slug}
use registry_api_contract.Auth.{has_hash}
use registry_api_contract.Tokens.Arguments.{
  CreateArgs, create_defaults, Request, parse_create, checked_request,
}
use registry_api_contract.Tokens.{
  Tools, Surroundings, find_org, insert_org, insert_token, Command, lift, select, finish, meanwhile,
  ◌>>=◌, ◌>>◌, open_database, new_org, stored_org, insert_new_org, find_or_create_org, scope_of,
  expiry_of, plaintext, new_token, stored_token, insert_new_token, mint, create_token,
}
use registry_api_contract.Tokens.Steps.{
  through, through_lift, through_select, through_then, through_open,
}

-- The first row with a hash is the one just appended, when the hash was new.
pub find_appended :
    (row : Token) (rows : List Token)
    → any (token_clashes row) rows ≡ false
    → find (has_hash row.token_hash) (rows ++ row ∷ []) ≡ some row
find_appended row [] h = rw ((eq_iff row.token_hash row.token_hash).1 refl) refl
find_appended row (x ∷ rows) h =
    let later : any (token_clashes row) rows ≡ false = ground (arith, h) in
    let differs : (x.token_hash == row.token_hash) ≡ false =
      ground (arith, h, eq_iff x.token_hash row.token_hash, eq_iff row.token_hash x.token_hash) in
    rw (differs) (find_appended row rows later)

module _ (t : Tools) (o : Surroundings) where
  pub insert_new_token_ok :
      (row : Token) (db : Database)
      → (insert_new_token t o row db).0 ≡ ok tt
      → (any (token_clashes row) db.tokens ≡ false)
        × ((insert_new_token t o row db).1 ≡ record db { tokens = db.tokens ++ row ∷ [] })
  unfolding insert_new_token
  insert_new_token_ok row db h = elim (Bool-cases (o.fails insert_token)) [
    | inl e ↦ let k = rw e at h in cc
    | inr e ↦ elim (Bool-cases (any (token_clashes row) db.tokens)) [
      | inl c ↦ let k = rw (e, c) at h in cc
      | inr c ↦ rw (e, c) (refl, refl)
    ]
  ]

  insert_new_org_ok :
      (row got : Org) (db : Database)
      → (insert_new_org t o row db).0 ≡ ok got
      → (got ≡ row) × ((insert_new_org t o row db).1 ≡ record db { orgs = db.orgs ++ row ∷ [] })
  unfolding insert_new_org
  insert_new_org_ok row got db h = elim (Bool-cases (o.fails insert_org)) [
    | inl e ↦ let k = rw e at h in cc
    | inr e ↦ elim (Bool-cases (any (org_clashes row) db.orgs)) [
      | inl c ↦ let k = rw (e, c) at h in cc
      | inr c ↦ let k = rw (e, c) at h in rw (e, c) (cc, refl)
    ]
  ]

  find_or_create_org_ok :
      (slug : String) (got : Org) (db db' : Database)
      → find_or_create_org t o slug db ≡ (ok got, db')
      → In got db'.orgs × (got.slug ≡ slug)
  unfolding find_or_create_org
  find_or_create_org_ok slug got db db' h =
      let j = through_select (o.fails find_org) (λ x. find (has_slug slug) x.orgs) _ h in
      elim (Option-cases (find (has_slug slug) db.orgs)) [
        | inl e ↦
            let (u, k) =
              through_then (meanwhile o.race) (insert_new_org t o (new_org t o slug)) (rw e at j) in
            let (same, after) =
              insert_new_org_ok (new_org t o slug) got (o.race db) (ap (λ x. x.0) k) in
            let left : (insert_new_org t o (new_org t o slug) (o.race db)).1 ≡ db' =
              ap (λ x. x.1) k in
            let orgs : (o.race db).orgs ++ new_org t o slug ∷ [] ≡ db'.orgs =
              ap (λ x. x.orgs) (sym after ∙ left) in
            (
              subst (In got) orgs
                  (In-append_right got (o.race db).orgs (new_org t o slug ∷ []) (inl same)),
              ap (λ x. x.slug) same,
            )
        | inr (row, e) ↦
            let k = rw e at j in
            let same : row ≡ got = ground (arith, ap (λ x. x.0) k) in
            let left : db ≡ db' = ap (λ x. x.1) k in
            let (there, hit) = find-some (has_slug slug) db.orgs row e in
            (rw (← left, ← same) there, rw (← same) ((eq_iff row.slug slug).0 hit))
      ]

  -- The scope of a token: every organisation, or the one of a stored organisation of that slug.
  abbrev pub Scoped : Option String → Option Uuid → Database → Type 0
  Scoped none scope db = scope ≡ none
  Scoped (some slug) scope db =
      (row : Org) × In row db.orgs × (row.slug ≡ slug) × (scope ≡ some row.id)

  pub scope_of_ok :
      (slug : Option String) (scope : Option Uuid) (db db' : Database)
      → scope_of t o slug db ≡ (ok scope, db')
      → Scoped slug scope db'
  unfolding scope_of
  scope_of_ok none scope db db' h = let k = ap (λ x. x.0) h in cc
  scope_of_ok (some slug) scope db db' h =
      let (row, e, k) = through (find_or_create_org t o slug) (λ r. finish (some r.id)) h in
      let left : (find_or_create_org t o slug db).1 ≡ db' = ap (λ x. x.1) k in
      let found : find_or_create_org t o slug db ≡ (ok row, db') = λ i. (e i, left i) in
      let (there, named) = find_or_create_org_ok slug row db db' found in
      (row, there, named, let q = ap (λ x. x.0) k in cc)
