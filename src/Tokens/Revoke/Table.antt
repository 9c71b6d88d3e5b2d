-- ===== src/Tokens/Revoke/Table.antt =====
-- The token table after `revoke_token` of src/tokens.rs, by the arguments of the command.
use registry_api_contract.Prelude.{ℕ, String, ◌≡◌, refl, List, ◌&&◌, In, if◌then◌else◌}
use registry_api_contract.Anyhow.{ok}
use registry_api_contract.Db.{Token}
use registry_api_contract.Config.{Env}
use registry_api_contract.State.{Database}
use registry_api_contract.Tokens.Arguments.{
  RevokeArgs, revoke_defaults, parse_revoke, checked_identifier,
}
use registry_api_contract.Tokens.{Tools, Surroundings, lift}
use registry_api_contract.Tokens.Steps.{through_lift, through_then, through_open}
use registry_api_contract.Tokens.Revoke.{
  Filter, is_match, id_filter, stamp, revoke_matching, revoke_token,
}
use registry_api_contract.Tokens.Revoke.Loop.{is_pending}

-- A token's identifier is its primary key.
abbrev pub IdsUnique : List Token → Type 0
IdsUnique ts = (a b : Token) → In a ts → In b ts → a.id ≡ b.id → a ≡ b

-- The filter that the arguments ask for.
pub record Asked (t : Tools) (args : List String) (f : Filter) : Type 0 where
  pub parsed : RevokeArgs
  pub read : parse_revoke args revoke_defaults ≡ ok parsed
  pub named : f.name ≡ parsed.name
  pub identified : id_filter t parsed.id ≡ ok f.id

module _ (t : Tools) (o : Surroundings) where
  -- A row after a revocation: stamped when it matches and was not revoked before.
  abbrev pub revoke_row : Filter → Token → Token
  revoke_row f x = if is_match f x && is_pending x then stamp t o x else x

  pub revoke_token_steps :
      (env : Env) (args : List String) (n : ℕ) (db db' : Database)
      → revoke_token t o env args db ≡ (ok n, db')
      → (f : Filter) × Asked t args f × (revoke_matching t o f db ≡ (ok n, db'))
  unfolding revoke_token checked_identifier
  revoke_token_steps env args n db db' h =
      let (a, p, h1) = through_lift (parse_revoke args revoke_defaults) _ h in
      let (u, h2) = through_then (lift (checked_identifier a)) _ h1 in
      let h3 = through_open env o _ h2 in
      let (id, q, h4) = through_lift (id_filter t a.id) _ h3 in
      (
        record { name = a.name; id = id },
        record { parsed = a; read = p; named = refl; identified = q },
        h4,
      )
