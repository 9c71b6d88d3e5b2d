-- ===== src/Tokens/Mint/Unscoped.antt =====
-- The authority of a token that `create_token` of src/tokens.rs minted with no organisation.
use registry_api_contract.Prelude.{
  String, ◌≡◌, refl, sym, ap, ◌∙◌, Bool, true, false, not, Option, none, some, List, [], ◌∷◌, ◌++◌,
  ◌==◌, ◌&&◌, eq_iff, is_some, find,
}
use registry_api_contract.Error.{ApiResult}
use registry_api_contract.Anyhow.{Result, ok, bail, ◌>>=◌}
use registry_api_contract.Db.{Uuid, Token}
use registry_api_contract.Text.{Text}
use registry_api_contract.Config.{Env}
use registry_api_contract.Rbac.{parse, authorize_publish, authorize_manage}
use registry_api_contract.State.{Database}
use registry_api_contract.Auth.{has_hash}
use registry_api_contract.Tokens.Arguments.{CreateArgs, create_defaults, parse_create}
use registry_api_contract.Tokens.Arguments.Scope.{
  IsPaired, unscoped, parse_create-trailing_org, checked_request-Sound,
}
use registry_api_contract.Tokens.{Tools, Surroundings, create_token}
use registry_api_contract.Tokens.Mint.{Scoped}
use registry_api_contract.Tokens.Mint.Accepted.{mint_ok, create_token_steps}

unscoped_ok : (m : Result CreateArgs) (a : CreateArgs) → (m >>= unscoped) ≡ ok a → a.org_slug ≡ none
unscoped_ok (ok b) a h =
    let same : record b { org_slug = none } ≡ a = cc in ap (λ x. x.org_slug) (sym same)
unscoped_ok (bail c) a h = cc

module _ (t : Tools) (o : Surroundings) where
  Scoped-none :
      (slug : Option String) (scope : Option Uuid) (db : Database)
      → slug ≡ none
      → Scoped t o slug scope db
      → scope ≡ none
  Scoped-none none scope db e h = h
  Scoped-none (some slug) scope db e h = cc

  -- When the last argument of `create_token` is `--org` with no value, whatever organisation the other arguments
  -- name, the command that succeeds stores a token with no organisation and the role `owner`, which may
  -- publish to and manage every organisation.
  pub create_token_trailing_org :
      (env : Env) (args : List String) (text : Text) (db db' : Database)
      → IsPaired args
      → create_token t o env (args ++ "--org" ∷ []) db ≡ (ok text, db')
      → (row : Token) × (find (has_hash row.token_hash) db'.tokens ≡ some row)
        × (row.org_id ≡ none)
        × (row.role ≡ "owner")
        × ((target : Uuid) → authorize_publish row.org_id (parse row.role) target ≡ ApiResult.ok tt)
        × ((target : Uuid) → authorize_manage row.org_id (parse row.role) target ≡ ApiResult.ok tt)
  unfolding authorize_publish authorize_manage
  create_token_trailing_org env args text db db' paired h =
      let (r, asked, m) = create_token_steps t o env (args ++ "--org" ∷ []) text db db' h in
      let (row, minted, e) = mint_ok t o r text db db' m in
      let sound = checked_request-Sound asked.parsed r asked.checked in
      let dropped =
        unscoped_ok (parse_create args create_defaults) asked.parsed
          (sym (parse_create-trailing_org args create_defaults paired) ∙ asked.read) in
      let no_slug : r.org_slug ≡ none = sound.scoped ∙ dropped in
      let no_scope : row.org_id ≡ none =
        Scoped-none r.org_slug row.org_id db' no_slug minted.scoped in
      let owned : (r.role == "owner") ≡ true =
        owner_of (is_some r.org_slug) (r.role == "owner") (ap is_some no_slug) sound.admin in
      (
        row,
        minted.first,
        no_scope,
        minted.ranked ∙ (eq_iff r.role "owner").0 owned,
        λ target. rw no_scope refl,
        λ target. rw no_scope refl,
      )
    where
      owner_of : (a b : Bool) → a ≡ false → (not a && not b) ≡ false → b ≡ true
      owner_of a true e h = refl
      owner_of true false e h = cc
      owner_of false false e h = cc
