-- ===== src/Auth.antt =====
-- src/auth.rs: who a request comes from.
pub mod Liveness
use registry_api_contract.Prelude.{
  ℕ, String, Bool, true, false, not, Option, none, some, List, [], ◌∷◌, ◌&&◌, ◌==◌, nat_eq, leb,
  is_some, find, if◌then◌else◌,
}
use registry_api_contract.Error.{ApiErr, ApiResult, ok, err, ok_or, unauthorized, internal}
use registry_api_contract.Db.{
  Uuid, Time, Token, DbErr, DbResult, done, failed, unique_violation, fault, insert_row,
  token_clashes,
}
use registry_api_contract.Text.{Text, codes, strip_prefix, trim}
use registry_api_contract.State.{
  Database, World, AppState, Dependencies, Outside, Handler, answer, refuse, ◌>>=◌, lift, require,
  query, set_database, find_token, find_operator, insert_operator, find_operator_again,
}

-- The `authorization` header: none, one that is no text, a text.
abbrev pub Authorization : Type 0
Authorization = Option (Option Text)

unfoldable pub bearer_token : Authorization → Option Text
bearer_token none = none
bearer_token (some none) = none
bearer_token (some (some v)) = elim (strip_prefix (codes "Bearer ") v) [
  | none ↦ none
  | some t ↦ some (trim t)
]

unfoldable pub auth_disabled : AppState → Bool
auth_disabled s = elim s.auth_disabled_var [ none ↦ false | some v ↦ v == "1" ]

abbrev pub operator_id : Uuid
operator_id = 1

abbrev pub has_hash : String → Token → Bool
has_hash h t = t.token_hash == h

abbrev pub has_token_id : Uuid → Token → Bool
has_token_id id t = nat_eq t.id id

abbrev pub has_expired : Time → Option Time → Bool
has_expired now none = false
has_expired now (some expires_at) = leb expires_at now

-- The checks on the row that carries the hash.
unfoldable pub live_token : Time → Option Token → ApiResult Token
live_token now none = err unauthorized
live_token now (some row) =
    if is_some row.revoked_at
    then err unauthorized
    else if has_expired now row.expires_at
    then err unauthorized
    else ok row

module _ (d : Dependencies) (s : AppState) (o : Outside) where
  unfoldable pub hash_token : Text → String
  hash_token plaintext = d.sha256_text plaintext

  unfoldable pub operator_row : Token
  unfolding hash_token
  operator_row = record {
    id = operator_id;
    name = "auth-disabled-operator";
    token_hash = hash_token (codes "zed-auth-disabled-operator");
    org_id = none;
    role = "admin";
    created_at = o.now;
    expires_at = none;
    revoked_at = none;
  }

  unfoldable pub insert_operator_row : Handler Token
  unfolding operator_row
  insert_operator_row w =
      elim (if o.fails insert_operator
        then failed fault
        else insert_row token_clashes operator_row w.database.tokens) [
          | done rows ↦
              (ok operator_row, record w { database = record w.database { tokens = rows } })
          | failed e ↦
              (query (o.fails find_operator_again) (λ db. find (has_token_id operator_id) db.tokens)
                  >>= λ row. lift (ok_or row internal))
                w
        ]

  unfoldable pub insecure_operator_token : Handler Token
  unfolding insert_operator_row
  insecure_operator_token = do
    row ← query (o.fails find_operator) (λ db. find (has_token_id operator_id) db.tokens)
    elim row [ some t ↦ answer t | none ↦ insert_operator_row ]

  unfoldable pub require_token : Authorization → Handler Token
  unfolding auth_disabled insecure_operator_token bearer_token hash_token live_token
  require_token header = if auth_disabled s then insecure_operator_token else do
    plaintext ← lift (ok_or (bearer_token header) unauthorized)
    row ← query (o.fails find_token) (λ db. find (has_hash (hash_token plaintext)) db.tokens)
    lift (live_token o.now row)
