-- ===== src/Audit/Record/Entries.antt =====
-- What an entry that `append_chained` of src/audit.rs inserts says.
use registry_api_contract.Prelude.{
  ◌+◌, ◌<◌, ◌≤◌, String, ◌≡◌, refl, Option, none, some, unwrap_or, is_some, if◌then◌else◌,
}
use registry_api_contract.Db.{Uuid, Time, AuditLog}
use registry_api_contract.Audit.{Hasher, tip_seq, entry_digest, actor_role}
use registry_api_contract.Audit.Record.{Attempt, Event, AuditAction, tip_hash, next_entry}
use registry_api_contract.Audit.Record.Growth.{chain_timestamp_exact}

module _ (h : Hasher) (action_text : AuditAction → String) where
  -- A row that describes an event, recorded at `now` after the row `tip`: every column, and the hash of
  -- all of them and of the predecessor's hash.
  pub record Entry (e : Event) (now : Time) (tip : Option AuditLog) (row : AuditLog) : Type 0 where
    pub org_id : row.org_id ≡ e.org_id
    pub at : (row.at ≤ now) × (now < row.at + 1_000)
    pub action : row.action ≡ action_text e.action
    pub subject : row.subject ≡ e.subject
    pub actor_token_id : row.actor_token_id ≡ some e.token.id
    pub actor_token_name : row.actor_token_name ≡ e.token.name
    pub actor_role :
        row.actor_role ≡ elim e.token.org_id [ none ↦ "admin" | some id ↦ e.token.role ]
    pub detail : row.detail ≡ e.detail
    pub seq : row.seq ≡ tip_seq tip + 1
    pub prev_hash : row.prev_hash ≡ tip_hash tip
    pub entry_hash :
        row.entry_hash
        ≡ h.sha256_hex (
            h.preimage (record {
              org_id = h.uuid_text e.org_id;
              seq = tip_seq tip + 1;
              at = h.rfc3339 row.at;
              action = action_text e.action;
              subject = e.subject;
              actor_token_id = some (h.uuid_text e.token.id);
              actor_token_name = e.token.name;
              actor_role = row.actor_role;
              detail = e.detail;
              prev_hash = unwrap_or "" (tip_hash tip);
            }))

  pub next_entry-Entry :
      (a : Attempt) (e : Event) (tip : Option AuditLog)
      → Entry e a.now tip (next_entry h action_text a e tip)
  unfolding next_entry entry_digest actor_role
  next_entry-Entry a e tip =
      let (_, early, late, _) = chain_timestamp_exact a.now in
      record {
        org_id = refl;
        at = (early, late);
        action = refl;
        subject = refl;
        actor_token_id = refl;
        actor_token_name = refl;
        actor_role = role e.token.org_id;
        detail = refl;
        seq = refl;
        prev_hash = refl;
        entry_hash = refl;
      }
    where
      role :
          (scope : Option Uuid)
          → (if is_some scope then e.token.role else "admin")
            ≡ elim scope [ none ↦ "admin" | some id ↦ e.token.role ]
      role none = refl
      role (some id) = refl
