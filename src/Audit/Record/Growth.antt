-- ===== src/Audit/Record/Growth.antt =====
-- What `append_chained` and `record` of src/audit.rs do to an organisation's log.
use registry_api_contract.Prelude.{
  ℕ, ◌+◌, ◌*◌, ◌/◌, ◌<◌, ◌≤◌, String, ◌≡◌, ◌≢◌, refl, sym, ap, subst, ◌∙◌, Bool, true, false,
  Option, some, List, [], ◌∷◌, ◌++◌, arith, eq_iff, nat_eq, nat_eq_iff, keep, unwrap_or, any,
}
use registry_api_contract.Db.{Uuid, Time, AuditLog, done, audit_clashes}
use registry_api_contract.Audit.{
  Hasher, last, order_by_seq, tip_seq, tip_seq_bounds, last-append, order_by_seq-append, is_chained,
  expected_hash, entry_digest,
}
use registry_api_contract.Audit.Chain.{Linked, Follows, newest_first, onto-append, head_hash}
use registry_api_contract.Audit.Record.{
  Attempt, Event, AuditAction, of_org, tip_of, tip_hash, nonempty, next_entry, append_chained,
  chain_timestamp,
}

-- The time that is hashed is a whole number of microseconds, within one of the clock, and cutting it
-- again, as the database does, changes nothing.
pub chain_timestamp_exact :
    (now : Time)
    → (chain_timestamp (chain_timestamp now) ≡ chain_timestamp now)
      × (chain_timestamp now ≤ now)
      × (now < chain_timestamp now + 1_000)
      × ((micros : ℕ) × (chain_timestamp now ≡ micros * 1_000))
unfolding chain_timestamp
chain_timestamp_exact now = (omega arith, omega arith, omega arith, (now / 1_000, omega arith))

pub keep-append :
    (p : AuditLog → Bool) (xs ys : List AuditLog) → keep p (xs ++ ys) ≡ keep p xs ++ keep p ys
keep-append p [] ys = refl
keep-append p (x ∷ xs) ys = ground (arith, keep-append p xs ys)

unwrap_or-nonempty : (s : String) → unwrap_or "" (nonempty s) ≡ s
unwrap_or-nonempty s = ground (arith, eq_iff s "")

chained_of : (r : AuditLog) → 0 < r.seq → r.entry_hash ≢ "" → is_chained r ≡ true
chained_of r p q = ground (arith, eq_iff r.entry_hash "")

module _ (h : Hasher) (action_text : AuditAction → String) where
  -- A log in good order: its chained rows are linked, and the newest row is the newest chained one
  -- (or no row is chained yet).
  pub record IsLog (org_id : Uuid) (rows : List AuditLog) : Type 0 where
    pub linked : Linked h (newest_first (order_by_seq (of_org org_id rows)))
    pub anchored :
        unwrap_or "" (tip_hash (tip_of org_id rows))
        ≡ head_hash (newest_first (order_by_seq (of_org org_id rows)))
    pub follows :
        Follows
          (tip_seq (tip_of org_id rows) + 1)
          (newest_first (order_by_seq (of_org org_id rows)))

  abbrev pub HexDigest : Type 0
  HexDigest = (s : String) → h.sha256_hex s ≢ ""

  next_entry-chained :
      HexDigest
      → (a : Attempt) (e : Event) (tip : Option AuditLog)
      → is_chained (next_entry h action_text a e tip) ≡ true
  unfolding next_entry entry_digest
  next_entry-chained hex a e tip =
      chained_of (next_entry h action_text a e tip) (omega arith) (hex _)

  next_entry-hash :
      (a : Attempt) (e : Event) (tip : Option AuditLog) (prev : String)
      → unwrap_or "" (tip_hash tip) ≡ prev
      → expected_hash h (next_entry h action_text a e tip) prev
        ≡ (next_entry h action_text a e tip).entry_hash
  unfolding next_entry expected_hash
  next_entry-hash a e tip prev p = rw (← p)

  module _ (hex : HexDigest) (a : Attempt) (e : Event) (rows base : List AuditLog)
      (same : of_org e.org_id base ≡ of_org e.org_id rows) where
    abbrev pub entry : AuditLog
    entry = next_entry h action_text a e (tip_of e.org_id rows)

    abbrev pub before : List AuditLog
    before = newest_first (order_by_seq (of_org e.org_id rows))

    of_org-entry : of_org e.org_id (base ++ entry ∷ []) ≡ of_org e.org_id rows ++ entry ∷ []
    unfolding next_entry
    of_org-entry =
        keep-append (λ r. nat_eq r.org_id e.org_id) base (entry ∷ [])
        ∙ rw ((nat_eq_iff e.org_id e.org_id).1 refl, same)

    order-entry :
        order_by_seq (of_org e.org_id (base ++ entry ∷ []))
        ≡ order_by_seq (of_org e.org_id rows) ++ entry ∷ []
    unfolding next_entry
    order-entry =
        ap order_by_seq of_org-entry
        ∙ order_by_seq-append entry (of_org e.org_id rows) (tip_seq_bounds (of_org e.org_id rows))

    pub newest_first-entry :
        newest_first (order_by_seq (of_org e.org_id (base ++ entry ∷ []))) ≡ entry ∷ before
    newest_first-entry =
        ap newest_first order-entry
        ∙ rw
            (
              keep-append is_chained (order_by_seq (of_org e.org_id rows)) (entry ∷ []),
              next_entry-chained hex a e (tip_of e.org_id rows),
            )
            (onto-append h (keep is_chained (order_by_seq (of_org e.org_id rows))) (entry ∷ []) [])

    tip-entry : tip_of e.org_id (base ++ entry ∷ []) ≡ some entry
    tip-entry = ap last order-entry ∙ last-append (order_by_seq (of_org e.org_id rows)) entry

    pub entry-Linked : IsLog e.org_id rows → Linked h (entry ∷ before)
    entry-Linked log = (
      next_entry-hash a e (tip_of e.org_id rows) (head_hash before) log.anchored,
      entry-Follows,
      log.linked,
    )
      where
        entry-Follows : Follows entry.seq before
        entry-Follows = unfold next_entry in log.follows

    tip_hash-entry : unwrap_or "" (tip_hash (some entry)) ≡ entry.entry_hash
    tip_hash-entry = unwrap_or-nonempty entry.entry_hash

    pub entry-IsLog : IsLog e.org_id rows → IsLog e.org_id (base ++ entry ∷ [])
    entry-IsLog log = record {
      linked = subst (Linked h) (sym newest_first-entry) (entry-Linked log);
      anchored =
          ap (λ t. unwrap_or "" (tip_hash t)) tip-entry
          ∙ tip_hash-entry
          ∙ sym (ap head_hash newest_first-entry);
      follows = rw (tip-entry, newest_first-entry) refl;
    }

  pub append_chained-done :
      (a : Attempt) (e : Event) (rows rows' : List AuditLog)
      → append_chained h action_text a e rows ≡ done rows'
      → (rows' ≡ a.race rows ++ next_entry h action_text a e (tip_of e.org_id rows) ∷ [])
        × (any (audit_clashes (next_entry h action_text a e (tip_of e.org_id rows))) (a.race rows)
            ≡ false)
  unfolding append_chained
  append_chained-done a e rows rows' p = ground arith
