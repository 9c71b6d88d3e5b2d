-- ===== src/Audit/Record.antt =====
-- `chain_timestamp`, `append_chained` and `record` of src/audit.rs. What the database and the other
-- writers do during an attempt is a value of `Attempt`.
pub mod Growth
pub mod Entries
pub mod Runs
use registry_api_contract.Prelude.{
  ℕ, zero, suc, ◌+◌, ◌*◌, ◌/◌, ◌%◌, String, Bool, true, false, not, Option, none, some, List, ◌==◌,
  nat_eq, keep, unwrap_or, if◌then◌else◌,
}
use registry_api_contract.Db.{
  Uuid, Time, Token, AuditLog, DbErr, DbResult, done, failed, unique_violation, fault, ◌>>=◌,
  statement, insert_row, audit_clashes,
}
use registry_api_contract.Audit.{Hasher, actor_role, entry_digest, last, order_by_seq, tip_seq}

-- `zed_interfaces::registry::AuditAction`, whose spellings are the dependency's.
pub data AuditAction : Type 0 where
  publish yank unyank org_claim : AuditAction

abbrev pub append_attempts : ℕ
append_attempts = 4

-- The time cut to whole microseconds.
unfoldable pub chain_timestamp : Time → Time
chain_timestamp now = now / 1_000_000_000 * 1_000_000_000 + now % 1_000_000_000 / 1_000 * 1_000

-- One attempt: which statements the database fails, what other transactions commit between the read
-- of the tip and the insert, the clock and the new identifier.
pub record Attempt : Type 0 where
  pub is_postgres : Bool
  pub begin_fails : Bool
  pub lock_fails : Bool
  pub tip_fails : Bool
  pub insert_fails : Bool
  pub commit_fails : Bool
  pub race : List AuditLog → List AuditLog
  pub now : Time
  pub id : Uuid

-- What a caller of `record` passes.
pub record Event : Type 0 where
  pub org_id : Uuid
  pub token : Token
  pub action : AuditAction
  pub subject : String
  pub detail : Option String

abbrev pub of_org : Uuid → List AuditLog → List AuditLog
of_org org_id = keep (λ r. nat_eq r.org_id org_id)

-- `ORDER BY seq DESC LIMIT 1` over the organisation's rows
abbrev pub tip_of : Uuid → List AuditLog → Option AuditLog
tip_of org_id rows = last (order_by_seq (of_org org_id rows))

abbrev pub nonempty : String → Option String
nonempty s = if s == "" then none else some s

abbrev pub tip_hash : Option AuditLog → Option String
tip_hash none = none
tip_hash (some t) = nonempty t.entry_hash

module _ (h : Hasher) (action_text : AuditAction → String) where
  -- The row that an attempt inserts after the tip that it read.
  unfoldable pub next_entry : Attempt → Event → Option AuditLog → AuditLog
  next_entry a e tip =
      let seq = tip_seq tip + 1 in
      let prev = tip_hash tip in
      let at = chain_timestamp a.now in
      record {
        id = a.id;
        org_id = e.org_id;
        at = at;
        action = action_text e.action;
        subject = e.subject;
        actor_token_id = some e.token.id;
        actor_token_name = e.token.name;
        actor_role = actor_role e.token;
        detail = e.detail;
        seq = seq;
        entry_hash = entry_digest h (record {
          org_id = h.uuid_text e.org_id;
          seq = seq;
          at = h.rfc3339 at;
          action = action_text e.action;
          subject = e.subject;
          actor_token_id = some (h.uuid_text e.token.id);
          actor_token_name = e.token.name;
          actor_role = actor_role e.token;
          detail = e.detail;
          prev_hash = unwrap_or "" prev;
        });
        prev_hash = prev;
      }

  -- The transaction of one attempt: the table that it commits.
  unfoldable pub append_chained : Attempt → Event → List AuditLog → DbResult (List AuditLog)
  append_chained a e rows = do
    begun ← statement a.begin_fails (tt {0})
    locked ← (if a.is_postgres then statement a.lock_fails (tt {0}) else done tt)
    tip ← statement a.tip_fails (tip_of e.org_id rows)
    inserted ←
        (if a.insert_fails
          then failed fault
          else insert_row audit_clashes (next_entry a e tip) (a.race rows))
    statement a.commit_fails inserted

  -- After a failed attempt the table holds what the others committed.
  unfoldable pub append_loop : ℕ → (ℕ → Attempt) → Event → List AuditLog → List AuditLog
  append_loop zero attempts e rows = rows
  append_loop (suc n) attempts e rows =
      let a = attempts 0 in
      elim (append_chained a e rows) [
        | done rows' ↦ rows'
        | failed unique_violation ↦ append_loop n (λ i. attempts (i + 1)) e (a.race rows)
        | failed fault ↦ a.race rows
      ]

  -- `record`, which reports nothing to its caller.
  unfoldable pub record_event : (ℕ → Attempt) → Event → List AuditLog → List AuditLog
  unfolding append_loop append_chained
  record_event attempts e rows = append_loop append_attempts attempts e rows
