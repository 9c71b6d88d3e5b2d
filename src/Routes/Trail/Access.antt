-- ===== src/Routes/Trail/Access.antt =====
-- Who reads an audit log through src/routes/audit.rs, and what the page holds.
use registry_api_contract.Prelude.{ℕ, ◌≤◌, String, ◌≡◌, true, Option, length, In}
use registry_api_contract.Error.{ApiResult, ok}
use registry_api_contract.Db.{Token, Org, AuditLog}
use registry_api_contract.Rbac.{parse}
use registry_api_contract.Rbac.Authority.{MayManage}
use registry_api_contract.Audit.Record.{AuditAction}
use registry_api_contract.State.{World, AppState, Dependencies, Outside}
use registry_api_contract.Auth.{Authorization, require_token}
use registry_api_contract.Routes.Trail.{
  AuditQuery, AuditEntry, AuditLogResponse, passes_action, passes_before, max_limit, to_entry,
}

-- The rows of a page: of the organisation, of the action and below the position that were asked for.
abbrev pub OnPage : AuditQuery → ℕ → AuditLog → Type 0
OnPage q org_id r =
    (r.org_id ≡ org_id) × (passes_action q.action r ≡ true) × (passes_before q.before r ≡ true)

module _ (d : Dependencies) (s : AppState) (o : Outside) where
  -- The token that manages the organisation.
  abbrev pub Managed : Authorization → String → World → Org → Type 0
  Managed authorization slug v org =
      (token : Token) × ((require_token d s o authorization v).0 ≡ ok token)
      × (In org v.database.orgs × (org.slug ≡ slug))
      × MayManage org.id token.org_id (parse token.role)

  -- Who reads, and what the answer holds.
  pub record Read (parse_action : String → Option AuditAction) (authorization : Authorization)
      (slug : String) (q : AuditQuery) (v : World) (x : ApiResult AuditLogResponse × World)
      : Type 0 where
    pub token : Token
    pub org : Org
    pub response : AuditLogResponse
    pub authenticated : (require_token d s o authorization v).0 ≡ ok token
    pub claimed : In org v.database.orgs × (org.slug ≡ slug)
    pub authorized : MayManage org.id token.org_id (parse token.role)
    pub answered : x ≡ (ok response, v)
    pub bounded : length response.entries ≤ max_limit
    pub entries :
        (entry : AuditEntry)
        → In entry response.entries
        → (row : AuditLog) × In row v.database.audit_log
          × OnPage q org.id row
          × (entry ≡ to_entry parse_action d.hasher.rfc3339 row)
