-- ===== src/Tests/Commands.antt =====
-- The commands of src/tokens.rs and src/server.rs on the small registry.
use registry_api_contract.Prelude.{
  ℕ, ◌+◌, ◌*◌, String, ◌≡◌, refl, all, not, true, false, none, some, List, [], ◌∷◌, ◌++◌, ◌==◌,
  find, if◌then◌else◌,
}
use registry_api_contract.Error.{ApiResult, unauthorized}
use registry_api_contract.Anyhow.{ok}
use registry_api_contract.Db.{Token}
use registry_api_contract.Text.{codes, is_whitespace, trim}
use registry_api_contract.Text.Numbers.{parse_unsigned, parse_i64}
use registry_api_contract.Config.{Env, from_env}
use registry_api_contract.Rbac.{parse, authorize_publish, authorize_manage}
use registry_api_contract.State
use registry_api_contract.State.{query, Database, World, Outside}
use registry_api_contract.Auth.{auth_disabled, has_hash, has_expired, require_token}
use registry_api_contract.Tokens.Arguments.{Request}
use registry_api_contract.Tokens.{
  Tools, Surroundings, first_half, second_half, token_id, org_id, ◌>>=◌, ◌>>◌, create_token,
}
use registry_api_contract.Tokens.{plaintext}
use registry_api_contract.Tokens.Mint.Accepted.{Requested, Minted, create_token_accepted}
use registry_api_contract.Tokens.Mint.Unscoped.{create_token_trailing_org}
use registry_api_contract.Tests.Fixtures.{dependencies, settings, calm, world, owner_token}

abbrev tools : Tools
tools = record {
  sha256_text = dependencies.sha256_text;
  simple = λ u. codes "0a";
  parse_uuid = λ s. if s == "1" then some 1 else none;
  add_days = λ now days. some (now + days * 86400);
}

abbrev surroundings : Surroundings
surroundings = record {
  connects = λ url. true;
  migrates = true;
  fails = λ c. false;
  update_fails = λ id. false;
  now = 1500;
  fresh = λ f. elim f [ first_half ↦ 61 | second_half ↦ 62 | token_id ↦ 2 | org_id ↦ 63 ];
  race = λ db. db;
}

abbrev env : Env
env key = if key == "DATABASE_URL" then some "postgres://localhost/zed" else none

abbrev create_args : List String
create_args =
    "--name" ∷ "release" ∷ "--org" ∷ "acme" ∷ "--role" ∷ "publisher" ∷ "--expires-in-days" ∷ "30"
    ∷ []

abbrev minted : Token
minted = record {
  id = 2;
  name = "release";
  token_hash = "digest-of-another";
  org_id = some 10;
  role = "publisher";
  created_at = 1500;
  expires_at = some (1500 + 30 * 86400);
  revoked_at = none;
}

abbrev minted_database : Database
minted_database = record world.database { tokens = owner_token ∷ minted ∷ [] }

created :
    create_token tools surroundings env create_args world.database
    ≡ (ok (codes "zpkg_0a0a"), minted_database)
unfolding create_token ◌>>=◌ ◌>>◌ from_env parse_unsigned parse_i64 plaintext
created = refl

enabled : auth_disabled settings ≡ false
unfolding auth_disabled
enabled = refl

solid_hex : (u : ℕ) → all (λ c. not (is_whitespace c)) (tools.simple u) ≡ true
unfolding is_whitespace
solid_hex u = refl

create_token_accepted_example :
    (r : Request) × Requested create_args r
    × (row : Token) × Minted tools surroundings r minted_database row
    × (require_token dependencies settings calm
          (some (some (codes "Bearer " ++ codes "zpkg_0a0a")))
          (record world { database = minted_database })
        ≡ (
          (if has_expired calm.now row.expires_at
              then ApiResult.err unauthorized
              else ApiResult.ok row),
          record world { database = minted_database },
        ))
create_token_accepted_example =
    create_token_accepted tools surroundings env create_args (codes "zpkg_0a0a") world.database
      minted_database dependencies settings calm (record world { database = minted_database })
      solid_hex refl created enabled refl refl

-- The organisation is named twice, the second time with no value.
abbrev slip : List String
slip = "--name" ∷ "release" ∷ "--org" ∷ "acme" ∷ []

abbrev unscoped_database : Database
unscoped_database = record world.database {
  tokens = owner_token ∷ record minted { org_id = none; role = "owner"; expires_at = none } ∷ [];
}

slipped :
    create_token tools surroundings env (slip ++ "--org" ∷ []) world.database
    ≡ (ok (codes "zpkg_0a0a"), unscoped_database)
unfolding create_token ◌>>=◌ ◌>>◌ from_env parse_unsigned plaintext
slipped = refl

create_token_trailing_org_example :
    (row : Token) × (find (has_hash row.token_hash) unscoped_database.tokens ≡ some row)
    × (row.org_id ≡ none)
    × (row.role ≡ "owner")
    × ((target : ℕ) → authorize_publish row.org_id (parse row.role) target ≡ ApiResult.ok tt)
    × ((target : ℕ) → authorize_manage row.org_id (parse row.role) target ≡ ApiResult.ok tt)
create_token_trailing_org_example =
    create_token_trailing_org tools surroundings env slip (codes "zpkg_0a0a") world.database
      unscoped_database tt slipped

abbrev revoke_args : List String
revoke_args = "--name" ∷ "release" ∷ []

abbrev revoked_database : Database
revoked_database = record world.database {
  tokens = owner_token ∷ record minted { revoked_at = some 1500 } ∷ [];
}

-- The token that was minted is refused after its revocation.
shut_out :
    require_token dependencies settings calm
      (some (some (codes "Bearer zpkg_0a0a")))
      (record world { database = revoked_database })
    ≡ (ApiResult.err unauthorized, record world { database = revoked_database })
unfolding require_token State.◌>>=◌ query trim
shut_out = refl
