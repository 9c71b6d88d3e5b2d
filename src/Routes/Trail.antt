-- ===== src/Routes/Trail.antt =====
-- src/routes/audit.rs: reading an organisation's audit log, and verifying it.
pub mod Access
use registry_api_contract.Prelude.{
  ℕ, min, max, String, Bool, true, false, Option, none, some, List, [], ◌∷◌, ◌&&◌, ◌==◌, nat_eq,
  ltb, keep, take, is_some, unwrap_or, if◌then◌else◌,
}
use registry_api_contract.Error.{ApiErr, ApiResult, ok, err, bad_request}
use registry_api_contract.Db.{Uuid, Time, Token, Org, AuditLog}
use registry_api_contract.Rbac.{parse, authorize_manage}
use registry_api_contract.Audit.{Hasher, ChainReport, problem_text, verify_chain}
use registry_api_contract.Audit.Order.{order_by_seq}
use registry_api_contract.Audit.Record.{AuditAction, of_org}
use registry_api_contract.State.{
  Database, World, AppState, Dependencies, Outside, Handler, answer, ◌>>=◌, lift, require, query,
  find_audit,
}
use registry_api_contract.Auth.{Authorization, require_token}
use registry_api_contract.Routes.{org_of}

abbrev pub default_limit : ℕ
default_limit = 100

abbrev pub max_limit : ℕ
max_limit = 1000

abbrev pub max_verify_rows : ℕ
max_verify_rows = 50_000

pub record AuditQuery : Type 0 where
  pub limit : Option ℕ
  pub action : Option String
  pub before : Option ℕ

pub record AuditEntry : Type 0 where
  pub at : String
  pub action_kind : Option AuditAction
  pub action : String
  pub subject : String
  pub actor_token_name : String
  pub actor_role : String
  pub detail : Option String
  pub seq : ℕ
  pub entry_hash : String
  pub prev_hash : Option String

pub record AuditLogResponse : Type 0 where
  pub org : String
  pub entries : List AuditEntry

pub record AuditIntegrityResponse : Type 0 where
  pub org : String
  pub intact : Bool
  pub entries_checked : ℕ
  pub first_bad_seq : Option ℕ
  pub problem : Option String
  pub head_hash : Option String

abbrev pub passes_action : Option String → AuditLog → Bool
passes_action none r = true
passes_action (some action) r = r.action == action

abbrev pub passes_before : Option ℕ → AuditLog → Bool
passes_before none r = true
passes_before (some before) r = ltb r.seq before

abbrev pub page_limit : Option ℕ → ℕ
page_limit limit = min (max (unwrap_or default_limit limit) 1) max_limit

abbrev pub reversed_onto : List AuditLog → List AuditLog → List AuditLog
reversed_onto [] rows = rows
reversed_onto (r ∷ rs) rows = reversed_onto rs (r ∷ rows)

-- The rows of the page. Within an organisation positions are unique, so the second key of the order, the
-- time, never decides.
unfoldable pub audit_page : AuditQuery → Uuid → List AuditLog → List AuditLog
unfolding order_by_seq
audit_page q org_id rows = take (page_limit q.limit) (
    reversed_onto
      (order_by_seq
        (keep (λ r. passes_action q.action r && passes_before q.before r) (of_org org_id rows)))
      [])

-- `parse_action` is `AuditAction::parse`.
unfoldable pub to_entry : (String → Option AuditAction) → (Time → String) → AuditLog → AuditEntry
to_entry parse_action rfc3339 r = record {
  at = rfc3339 r.at;
  action_kind = parse_action r.action;
  action = r.action;
  subject = r.subject;
  actor_token_name = r.actor_token_name;
  actor_role = r.actor_role;
  detail = r.detail;
  seq = r.seq;
  entry_hash = r.entry_hash;
  prev_hash = r.prev_hash;
}

abbrev pub entries_of : (AuditLog → AuditEntry) → List AuditLog → List AuditEntry
entries_of f [] = []
entries_of f (r ∷ rows) = f r ∷ entries_of f rows

abbrev pub known_action : (String → Option AuditAction) → Option String → Bool
known_action parse_action none = true
known_action parse_action (some action) = is_some (parse_action action)

unfoldable pub integrity_response : String → ChainReport → AuditIntegrityResponse
unfolding problem_text
integrity_response org report = record {
  org = org;
  intact = report.intact;
  entries_checked = report.entries_checked;
  first_bad_seq = report.first_bad_seq;
  problem = elim report.problem [ none ↦ none | some p ↦ some (problem_text p) ];
  head_hash = report.head_hash;
}

module _ (d : Dependencies) (s : AppState) (o : Outside) where
  -- The organisation, for a token that manages it.
  unfoldable pub managed_org : Authorization → String → Handler Org
  unfolding require_token org_of authorize_manage
  managed_org authorization slug = do
    token ← require_token d s o authorization
    org ← org_of o slug
    authorized ← lift (authorize_manage token.org_id (parse token.role) org.id)
    answer org

  unfoldable pub get_audit_log :
      (String → Option AuditAction) → Authorization → String → AuditQuery → Handler AuditLogResponse
  unfolding managed_org audit_page to_entry
  get_audit_log parse_action authorization slug q = do
    org ← managed_org authorization slug
    known ← require (known_action parse_action q.action) (bad_request "invalid_action")
    rows ← query (o.fails find_audit) (λ db. audit_page q org.id db.audit_log)
    answer
        (record { org = slug; entries = entries_of (to_entry parse_action d.hasher.rfc3339) rows })

  unfoldable pub verify_audit_log : Authorization → String → Handler AuditIntegrityResponse
  unfolding managed_org order_by_seq verify_chain integrity_response
  verify_audit_log authorization slug = do
    org ← managed_org authorization slug
    rows ←
        query (o.fails find_audit)
          (λ db. take max_verify_rows (order_by_seq (of_org org.id db.audit_log)))
    answer (integrity_response slug (verify_chain d.hasher rows))
