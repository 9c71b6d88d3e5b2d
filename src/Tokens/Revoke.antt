-- ===== src/Tokens/Revoke.antt =====
-- `revoke_token` of src/tokens.rs. No other process writes the token table while it runs.
pub mod Loop
pub mod Table
use registry_api_contract.Prelude.{
  ℕ, suc, String, Bool, true, false, not, Option, none, some, List, [], ◌∷◌, ◌==◌, ◌&&◌, nat_eq,
  keep, map, is_some, if◌then◌else◌,
}
use registry_api_contract.Anyhow.{
  Result, ok, bail, context, bail_if, bad_uuid, no_match, statement_failed,
}
use registry_api_contract.Db.{Uuid, Time, Token}
use registry_api_contract.Config.{Env}
use registry_api_contract.State.{Database}
use registry_api_contract.Tokens.Arguments.{
  RevokeArgs, revoke_defaults, parse_revoke, checked_identifier,
}
use registry_api_contract.Tokens.{
  Tools, Surroundings, find_tokens, Command, finish, lift, select, ◌>>=◌, ◌>>◌, open_database,
}

-- The filter of the query: by name, by identifier, or by both.
pub record Filter : Type 0 where
  pub name : Option String
  pub id : Option Uuid

abbrev pub same_name : Option String → Token → Bool
same_name none row = true
same_name (some name) row = row.name == name

abbrev pub same_id : Option Uuid → Token → Bool
same_id none row = true
same_id (some id) row = nat_eq row.id id

unfoldable pub is_match : Filter → Token → Bool
is_match f row = same_name f.name row && same_id f.id row

abbrev pub is_empty_list : List Token → Bool
is_empty_list [] = true
is_empty_list (x ∷ xs) = false

unfoldable pub id_filter : Tools → Option String → Result (Option Uuid)
id_filter t none = ok none
id_filter t (some raw) = elim (t.parse_uuid raw) [ none ↦ bail bad_uuid | some id ↦ ok (some id) ]

module _ (t : Tools) (o : Surroundings) where
  abbrev pub stamp : Token → Token
  stamp row = record row { revoked_at = some o.now }

  -- `UPDATE token SET revoked_at = now WHERE id = …`
  abbrev pub stamp_id : Uuid → Token → Token
  stamp_id id row = if nat_eq row.id id then stamp row else row

  unfoldable pub update_row : Uuid → Command (Unit {0})
  update_row id db =
      if o.update_fails id
      then (bail statement_failed, db)
      else (ok tt, record db { tokens = map (stamp_id id) db.tokens })

  -- The loop over the matches, and how many it revoked.
  unfoldable pub revoke_all : List Token → ℕ → Command ℕ
  unfolding update_row ◌>>=◌ ◌>>◌
  revoke_all [] revoked = finish revoked
  revoke_all (row ∷ rows) revoked =
      if is_some row.revoked_at
      then revoke_all rows revoked
      else do update_row row.id; revoke_all rows (suc revoked)

  unfoldable pub revoke_matching : Filter → Command ℕ
  unfolding revoke_all is_match ◌>>=◌ ◌>>◌
  revoke_matching f = do
    matches ← select (o.fails find_tokens) (λ db. keep (is_match f) db.tokens)
    lift (bail_if (is_empty_list matches) no_match)
    revoke_all matches 0

  -- `revoke_token`, which prints the count that it answers here.
  unfoldable pub revoke_token : Env → List String → Command ℕ
  unfolding parse_revoke checked_identifier open_database id_filter revoke_matching ◌>>=◌ ◌>>◌
  revoke_token env args = do
    a ← lift (parse_revoke args revoke_defaults)
    lift (checked_identifier a)
    open_database env o
    id ← lift (id_filter t a.id)
    revoke_matching (record { name = a.name; id = id })
