-- ===== src/Audit/Columns.antt =====
-- Columns of the log that the verifier of src/audit.rs does not look at.
use registry_api_contract.Prelude.{
  String, ◌≡◌, refl, Option, List, [], ◌∷◌, ◌++◌, map, arith, eq_iff, keep, All,
}
use registry_api_contract.Db.{AuditLog}
use registry_api_contract.Audit.{
  Hasher, ChainReport, Walk, walk_start, is_chained, expected_hash, walk, verify_chain, advance,
}

-- Reports that differ at most in the kind of the problem.
pub record SameVerdict (a b : ChainReport) : Type 0 where
  pub intact : a.intact ≡ b.intact
  pub checked : a.entries_checked ≡ b.entries_checked
  pub first_bad : a.first_bad_seq ≡ b.first_bad_seq
  pub head : a.head_hash ≡ b.head_hash

module _ (h : Hasher) (f : AuditLog → Option String) where
  abbrev pub relink : AuditLog → AuditLog
  relink r = record r { prev_hash = f r }

  keep-relink :
      (rows : List AuditLog) → keep is_chained (map relink rows) ≡ map relink (keep is_chained rows)
  keep-relink [] = refl
  keep-relink (r ∷ rows) = ground (arith, keep-relink rows)

  walk-relink :
      (rows : List AuditLog) (w : Walk) → SameVerdict (walk h w (map relink rows)) (walk h w rows)
  unfolding walk expected_hash
  walk-relink [] w = record { intact = refl; checked = refl; first_bad = refl; head = refl }
  walk-relink (r ∷ rows) w = ground (arith, walk-relink rows (advance h w r))

  -- The stored `prev_hash` column has no part in the verdict: whatever it is overwritten with, in any
  -- rows, the log is reported intact or broken at the same place, with the same head, as before. So a
  -- recorded link that does not match its predecessor's hash is not reported as such.
  pub verify_chain-relink :
      (rows : List AuditLog) → SameVerdict (verify_chain h (map relink rows)) (verify_chain h rows)
  unfolding verify_chain
  verify_chain-relink rows = rw (keep-relink rows) (walk-relink (keep is_chained rows) walk_start)

abbrev pub Unhashed : AuditLog → Type 0
Unhashed r = r.entry_hash ≡ ""

keep-Unhashed :
    (rows tail : List AuditLog)
    → All Unhashed tail
    → keep is_chained (rows ++ tail) ≡ keep is_chained rows
keep-Unhashed [] [] u = refl
keep-Unhashed [] (r ∷ tail) u =
    ground (arith, (eq_iff r.entry_hash "").1 u.0, keep-Unhashed [] tail u.1)
keep-Unhashed (r ∷ rows) tail u = ground (arith, keep-Unhashed rows tail u)

-- Rows whose `entry_hash` is empty are skipped whatever their `seq`: newest entries that were edited
-- and had their hash emptied are reported like entries that were never written.
pub verify_chain-Unhashed :
    (h : Hasher) (rows tail : List AuditLog)
    → All Unhashed tail
    → verify_chain h (rows ++ tail) ≡ verify_chain h rows
unfolding verify_chain
verify_chain-Unhashed h rows tail u = rw (keep-Unhashed rows tail u)
