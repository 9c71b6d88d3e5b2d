-- ===== src/Routes/Orgs.antt =====
-- src/routes/orgs.rs: claiming a namespace. The outer lock of the lock service changes nothing that the
-- claim reads or writes, and is not modelled; the advisory lock is the statement `lock`.
pub mod Quota
pub mod Invariant
use registry_api_contract.Prelude.{
  ℕ, String, Bool, true, false, not, Option, none, some, List, [], ◌∷◌, ◌&&◌, keep, leb, length,
  find, is_some, if◌then◌else◌,
}
use registry_api_contract.Error.{
  ApiErr, ApiResult, ok, err, bad_request, forbidden, conflict, internal,
}
use registry_api_contract.Db.{
  Uuid, Org, Token, DbResult, done, failed, unique_violation, fault, insert_row, org_clashes,
  same_uuid?,
}
use registry_api_contract.Audit.Record.{AuditAction}
use registry_api_contract.State.{
  Database, World, AppState, Dependencies, Outside, Handler, answer, refuse, ◌>>=◌, require, query,
  meanwhile, transaction, find_slug, lock, count_orgs, insert_org, begin, commit,
}
use registry_api_contract.Auth.{Authorization, require_token}
use registry_api_contract.Routes.{audit, has_slug}

pub record ClaimOrgRequest : Type 0 where
  pub slug : String
  pub authorization : Authorization

pub record ClaimOrgResponse : Type 0 where
  pub slug : String
  pub created : Bool

abbrev pub created_by : Uuid → Org → Bool
created_by token_id org = same_uuid? org.created_by_token (some token_id)

-- The organisations that a token has claimed.
abbrev pub claimed : Uuid → Database → ℕ
claimed token_id db = length (keep (created_by token_id) db.orgs)

-- The answer to the insert's error: the unique slug tells of a concurrent claim.
abbrev pub inserted_org : DbResult (List Org) → Handler (Unit {0})
inserted_org (done rows) w = (ok tt, record w { database = record w.database { orgs = rows } })
inserted_org (failed unique_violation) w = (err (conflict "org_taken"), w)
inserted_org (failed fault) w = (err internal, w)

module _ (d : Dependencies) (s : AppState) (o : Outside) where
  unfoldable pub org_row : Token → ClaimOrgRequest → Org
  org_row token r = record {
    id = o.uuid insert_org;
    slug = r.slug;
    created_at = o.now;
    created_by_token = some token.id;
  }

  -- Tokens of an organisation may claim a bounded number of namespaces.
  unfoldable pub check_quota : Bool → Token → Handler (Unit {0})
  check_quota false token = answer tt
  check_quota true token = query (o.fails count_orgs) (claimed token.id) >>= λ n.
      require (not (leb s.max_orgs_per_token n)) (forbidden "org_quota_exceeded")

  -- The statements of the transaction.
  unfoldable pub claim_body : Token → ClaimOrgRequest → Handler (Unit {0})
  unfolding org_row check_quota
  claim_body token r = do
    begun ← require (not (o.fails begin)) internal
    locked ← require (not (s.is_postgres && o.fails lock)) internal
    within ← check_quota (is_some token.org_id) token
    row ← (λ w.
        inserted_org
          (if o.fails insert_org
            then failed fault
            else insert_row org_clashes (org_row token r) w.database.orgs)
          w)
    require (not (o.fails commit)) internal

  -- What follows the commit.
  unfoldable pub acknowledge_claim : Token → ClaimOrgRequest → Handler ClaimOrgResponse
  acknowledge_claim token r = do
    audited ← audit d o (record {
      org_id = o.uuid insert_org;
      token = token;
      action = AuditAction.org_claim;
      subject = r.slug;
      detail = none;
    })
    answer (record { slug = r.slug; created = true })

  unfoldable pub claim_org_serialized : Token → ClaimOrgRequest → Handler ClaimOrgResponse
  unfolding claim_body acknowledge_claim
  claim_org_serialized token r = transaction (claim_body token r) >>= λ u. acknowledge_claim token r

  -- The answer for a slug that is taken, or what is left to do for one that is not.
  unfoldable pub claim_unless_taken :
      Token → ClaimOrgRequest → Option Org → Handler ClaimOrgResponse
  unfolding claim_org_serialized
  claim_unless_taken token r none = meanwhile o.race >>= λ u. claim_org_serialized token r
  claim_unless_taken token r (some existing) =
      if same_uuid? token.org_id (some existing.id)
      then answer (record { slug = r.slug; created = false })
      else refuse (conflict "org_taken")

  unfoldable pub claim_org : ClaimOrgRequest → Handler ClaimOrgResponse
  unfolding require_token claim_unless_taken
  claim_org r = do
    token ← require_token d s o r.authorization
    valid ← require (d.is_slug r.slug) (bad_request "invalid_slug")
    existing ← query (o.fails find_slug) (λ db. find (has_slug r.slug) db.orgs)
    claim_unless_taken token r existing
