-- ===== src/Migration.antt =====
-- migration/src/m20260726_000008_audit_chain.rs: the statement that numbers the audit rows from before the chain.
pub mod Numbering
pub mod Schema
pub mod Tables
pub mod Statements
pub mod Keys
use registry_api_contract.Prelude.{ℕ, Bool, List, ◌&&◌, ◌||◌, nat_eq, ltb, leb, map, keep, length}
use registry_api_contract.Db.{AuditLog}

-- The condition of the correlated count: a row of the same organisation, recorded no later.
unfoldable pub is_earlier : AuditLog → AuditLog → Bool
is_earlier row earlier =
    nat_eq earlier.org_id row.org_id
    && (ltb earlier.at row.at || (nat_eq earlier.at row.at && leb earlier.id row.id))

unfoldable pub legacy_seq : List AuditLog → AuditLog → ℕ
unfolding is_earlier
legacy_seq rows row = length (keep (is_earlier row) rows)

abbrev pub numbered : List AuditLog → AuditLog → AuditLog
numbered rows row = record row { seq = legacy_seq rows row }

-- `LEGACY_SEQ_BACKFILL_SQL`: every row is counted against the table as it was.
unfoldable pub backfill_legacy_seq : List AuditLog → List AuditLog
unfolding legacy_seq
backfill_legacy_seq rows = map (numbered rows) rows
