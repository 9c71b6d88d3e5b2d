-- ===== src/Audit.antt =====
-- src/audit.rs: the hash chain of an organisation's log, its verifier and the append path.
pub mod Order
pub mod Chain
pub mod Tamper
pub mod Columns
pub mod Record
unfoldable pub use Order.{order_by_seq}
pub use Order.{last, Below, tip_seq, tip_seq_bounds, last-append, order_by_seq-append}
use registry_api_contract.Prelude.{
  ℕ, zero, suc, ◌+◌, String, Bool, true, false, not, Option, none, some, List, [], ◌∷◌, ◌&&◌, ◌==◌,
  nat_eq, ltb, unwrap_or, is_some, keep, if◌then◌else◌,
}
use registry_api_contract.Db.{Uuid, Time, Token, AuditLog}

-- `zed_interfaces::registry::AuditChainInput`: what an entry's hash covers.
pub record AuditChainInput : Type 0 where
  pub org_id : String
  pub seq : ℕ
  pub at : String
  pub action : String
  pub subject : String
  pub actor_token_id : Option String
  pub actor_token_name : String
  pub actor_role : String
  pub detail : Option String
  pub prev_hash : String

-- What src/audit.rs takes from its dependencies: `audit_chain_preimage`, SHA-256 in lowercase
-- hex, and the renderings of identifiers and times.
pub record Hasher : Type 0 where
  pub preimage : AuditChainInput → String
  pub sha256_hex : String → String
  pub uuid_text : Uuid → String
  pub rfc3339 : Time → String

abbrev pub admin_role : String
admin_role = "admin"

unfoldable pub actor_role : Token → String
actor_role token = if is_some token.org_id then token.role else admin_role

pub data ChainProblem : Type 0 where
  hash_mismatch broken_link sequence_gap : ChainProblem

unfoldable pub problem_text : ChainProblem → String
problem_text hash_mismatch = "hash_mismatch"
problem_text broken_link = "broken_link"
problem_text sequence_gap = "sequence_gap"

pub record ChainReport : Type 0 where
  pub intact : Bool
  pub entries_checked : ℕ
  pub first_bad_seq : Option ℕ
  pub problem : Option ChainProblem
  pub head_hash : Option String

-- The variables of the loop in `verify_chain`.
pub record Walk : Type 0 where
  pub prev_hash : String
  pub expected_seq : Option ℕ
  pub checked : ℕ
  pub head : Option String

abbrev pub walk_start : Walk
walk_start = record { prev_hash = ""; expected_seq = none; checked = 0; head = none }

abbrev pub is_gap : Option ℕ → ℕ → Bool
is_gap none seq = false
is_gap (some want) seq = not (nat_eq seq want)

abbrev pub is_chained : AuditLog → Bool
is_chained r = ltb 0 r.seq && not (r.entry_hash == "")

module _ (h : Hasher) where
  unfoldable pub entry_digest : AuditChainInput → String
  entry_digest input = h.sha256_hex (h.preimage input)

  -- The hashed fields of a stored row, with the predecessor's hash.
  abbrev pub chain_input : AuditLog → String → AuditChainInput
  chain_input row prev = record {
    org_id = h.uuid_text row.org_id;
    seq = row.seq;
    at = h.rfc3339 row.at;
    action = row.action;
    subject = row.subject;
    actor_token_id = elim row.actor_token_id [ none ↦ none | some id ↦ some (h.uuid_text id) ];
    actor_token_name = row.actor_token_name;
    actor_role = row.actor_role;
    detail = row.detail;
    prev_hash = prev;
  }

  unfoldable pub expected_hash : AuditLog → String → String
  expected_hash row prev = entry_digest (chain_input row prev)

  abbrev pub bad_report : Walk → ℕ → ChainProblem → ChainReport
  bad_report w seq problem = record {
    intact = false;
    entries_checked = w.checked;
    first_bad_seq = some seq;
    problem = some problem;
    head_hash = w.head;
  }

  abbrev pub advance : Walk → AuditLog → Walk
  advance w row = record {
    prev_hash = row.entry_hash;
    expected_seq = some (row.seq + 1);
    checked = w.checked + 1;
    head = some row.entry_hash;
  }

  -- The loop of `verify_chain`, over the rows that its filter keeps.
  unfoldable pub walk : Walk → List AuditLog → ChainReport
  walk w [] = record {
    intact = true;
    entries_checked = w.checked;
    first_bad_seq = none;
    problem = none;
    head_hash = w.head;
  }
  walk w (row ∷ rows) =
      let rest = walk (advance w row) rows in
      if is_gap w.expected_seq row.seq
      then bad_report w (unwrap_or 0 w.expected_seq) sequence_gap
      else if not (expected_hash row w.prev_hash == row.entry_hash)
      then bad_report w row.seq (
          if expected_hash row (unwrap_or "" row.prev_hash) == row.entry_hash
          then broken_link
          else hash_mismatch)
      else rest

  unfoldable pub verify_chain : List AuditLog → ChainReport
  unfolding walk
  verify_chain rows = walk walk_start (keep is_chained rows)
