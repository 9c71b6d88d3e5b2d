-- ===== src/Audit/Record/Runs.antt =====
-- Whole runs of `record` (src/audit.rs) beside other writers.
use registry_api_contract.Prelude.{
  ℕ, zero, suc, ◌+◌, ◌<◌, String, ◌≡◌, ◌≢◌, ◌⊎◌, inl, inr, refl, sym, ap, subst, ◌∙◌, true, false,
  Option, List, [], ◌∷◌, ◌++◌, arith, nat_eq, Bool-cases, All, In, any_of-In, false≢true, any,
}
use registry_api_contract.Db.{
  Uuid, AuditLog, DbResult-cases, done, failed, unique_violation, audit_clashes,
}
use registry_api_contract.Audit.{
  Below, Hasher, order_by_seq, tip_seq, tip_seq_bounds, verify_chain, ChainReport,
}
use registry_api_contract.Audit.Chain.{Linked, newest_first, intact_report, verify_chain-Linked}
use registry_api_contract.Audit.Record.{
  Attempt, Event, AuditAction, of_org, tip_of, next_entry, append_chained, append_loop,
  record_event, append_attempts,
}
use registry_api_contract.Audit.Record.Growth.{
  IsLog, HexDigest, append_chained-done, entry-IsLog, newest_first-entry, entry-Linked,
}
use registry_api_contract.Audit.Record.Entries.{Entry, next_entry-Entry}

module _ (h : Hasher) (action_text : AuditAction → String) where
  -- What other transactions may do to an organisation's log: leave it alone, or take the next
  -- position, each with the log in good order afterwards.
  pub record OtherWriters (org_id : Uuid) (race : List AuditLog → List AuditLog) : Type 0 where
    pub keeps :
        (rows : List AuditLog)
        → IsLog h action_text org_id rows
        → IsLog h action_text org_id (race rows)
    pub moves :
        (rows : List AuditLog)
        → (of_org org_id (race rows) ≡ of_org org_id rows)
          ⊎ ((r : AuditLog) × In r (race rows)
              × (r.org_id ≡ org_id)
              × (r.seq ≡ tip_seq (tip_of org_id rows) + 1))

  clash_of_position :
      (a : Attempt) (e : Event) (rows : List AuditLog) (r : AuditLog)
      → r.org_id ≡ e.org_id
      → r.seq ≡ tip_seq (tip_of e.org_id rows) + 1
      → audit_clashes (next_entry h action_text a e (tip_of e.org_id rows)) r ≡ true
  unfolding next_entry
  clash_of_position a e rows r o q = ground arith

  -- Two writers never get the same position: when another transaction took the next position after
  -- the tip was read, the attempt fails, and if the database itself fails no statement, it fails as a
  -- unique violation, the error on which `record` tries again.
  pub append_chained_taken :
      (a : Attempt) (e : Event) (rows : List AuditLog) (r : AuditLog)
      → In r (a.race rows)
      → r.org_id ≡ e.org_id
      → r.seq ≡ tip_seq (tip_of e.org_id rows) + 1
      → ((rows' : List AuditLog) → append_chained h action_text a e rows ≢ done rows')
        × (a.begin_fails ≡ false
            → a.lock_fails ≡ false
            → a.tip_fails ≡ false
            → a.insert_fails ≡ false
            → append_chained h action_text a e rows ≡ failed unique_violation)
  append_chained_taken a e rows r m o q =
      let taken =
        any_of-In (audit_clashes (next_entry h action_text a e (tip_of e.org_id rows)))
          (a.race rows) r m (clash_of_position a e rows r o q) in
      (
        λ rows' p. false≢true (sym (append_chained-done h action_text a e rows rows' p).1 ∙ taken),
        λ b l t i. unfold append_chained in ground arith,
      )

  entry_id :
      (a : Attempt) (e : Event) (tip : Option AuditLog)
      → (next_entry h action_text a e tip).id ≡ a.id
  unfolding next_entry
  entry_id a e tip = refl

  pub entry_org :
      (a : Attempt) (e : Event) (tip : Option AuditLog)
      → (next_entry h action_text a e tip).org_id ≡ e.org_id
  unfolding next_entry
  entry_org a e tip = refl

  append_chained_clean :
      (a : Attempt) (e : Event) (rows : List AuditLog)
      → a.begin_fails ≡ false
      → a.lock_fails ≡ false
      → a.tip_fails ≡ false
      → a.insert_fails ≡ false
      → a.commit_fails ≡ false
      → any (audit_clashes (next_entry h action_text a e (tip_of e.org_id rows))) (a.race rows)
        ≡ false
      → append_chained h action_text a e rows
        ≡ done (a.race rows ++ next_entry h action_text a e (tip_of e.org_id rows) ∷ [])
  unfolding append_chained
  append_chained_clean a e rows b l t i c f = ground arith

  append_loop_first :
      (n : ℕ) (attempts : ℕ → Attempt) (e : Event) (rows rows' : List AuditLog)
      → append_chained h action_text (attempts 0) e rows ≡ done rows'
      → append_loop h action_text (suc n) attempts e rows ≡ rows'
  unfolding append_loop
  append_loop_first n attempts e rows rows' p = rw (p, append_loop)

  module _ (hex : HexDigest h action_text) where
    append_chained-IsLog :
        (a : Attempt) (e : Event) (rows rows' : List AuditLog)
        → OtherWriters e.org_id a.race
        → IsLog h action_text e.org_id rows
        → append_chained h action_text a e rows ≡ done rows'
        → IsLog h action_text e.org_id rows'
    append_chained-IsLog a e rows rows' others log p =
        let (added, free) = append_chained-done h action_text a e rows rows' p in
        elim (others.moves rows) [
          | inl same ↦
              subst (IsLog h action_text e.org_id) (sym added)
                (entry-IsLog h action_text hex a e rows (a.race rows) same log)
          | inr (r, m, o, q) ↦ absurd ((append_chained_taken a e rows r m o q).0 rows' p)
        ]

    append_loop-IsLog :
        (n : ℕ) (attempts : ℕ → Attempt) (e : Event) (rows : List AuditLog)
        → ((i : ℕ) → OtherWriters e.org_id (attempts i).race)
        → IsLog h action_text e.org_id rows
        → IsLog h action_text e.org_id (append_loop h action_text n attempts e rows)
    unfolding append_loop
    append_loop-IsLog zero attempts e rows others log = log
    append_loop-IsLog (suc n) attempts e rows others log =
        elim (DbResult-cases (append_chained h action_text (attempts 0) e rows)) [
          | inl (rows', p) ↦
              rw (p, append_loop) (append_chained-IsLog (attempts 0) e rows rows' (others 0) log p)
          | inr (inl p) ↦
              rw (p, append_loop)
                (append_loop-IsLog n (λ i. attempts (i + 1)) e ((attempts 0).race rows)
                  (λ i. others (i + 1)) ((others 0).keeps rows log))
          | inr (inr p) ↦ rw (p, append_loop) ((others 0).keeps rows log)
        ]

    -- Whatever the database fails and whatever the other writers do within `OtherWriters`, `record`
    -- leaves the organisation's log in good order, so it verifies.
    pub record_event-IsLog :
        (attempts : ℕ → Attempt) (e : Event) (rows : List AuditLog)
        → ((i : ℕ) → OtherWriters e.org_id (attempts i).race)
        → IsLog h action_text e.org_id rows
        → IsLog h action_text e.org_id (record_event h action_text attempts e rows)
          × ((verify_chain h (
                order_by_seq (of_org e.org_id (record_event h action_text attempts e rows)))).intact
              ≡ true)
    unfolding record_event
    record_event-IsLog attempts e rows others log =
        let log' = append_loop-IsLog append_attempts attempts e rows others log in
        (log', ap (λ (r : ChainReport). r.intact) (verify_chain-Linked h _ log'.linked))

    free_position :
        (a : Attempt) (e : Event) (tip : ℕ) (rows : List AuditLog)
        → All (λ r. r.id ≢ a.id) rows
        → Below tip (of_org e.org_id rows)
        → (entry : AuditLog) → entry.id ≡ a.id
        → entry.org_id ≡ e.org_id
        → entry.seq ≡ tip
        → any (audit_clashes entry) rows ≡ false
    free_position a e tip [] fresh below entry i o q = refl
    free_position a e tip (r ∷ rows) fresh below entry i o q =
        let rest = free_position a e tip rows fresh.1 in
        elim (Bool-cases (nat_eq r.org_id e.org_id)) [
          | inl mine ↦
              let b : (r.seq < tip) × Below tip (of_org e.org_id rows) = rw mine at below in
              ground (arith, fresh.0, rest b.1 entry i o q)
          | inr other ↦
              let b : Below tip (of_org e.org_id rows) = rw other at below in
              ground (arith, fresh.0, rest b entry i o q)
        ]

    -- When no statement of the first attempt fails, the others left the organisation's log as it was, the new
    -- identifier is fresh and no digest is empty: on a log in good order, `record` appends exactly one entry to
    -- what the others left. It describes the event: the organisation, the action, the subject, the acting
    -- token with its name and its role, and the detail; it carries the clock's time to the microsecond, the
    -- next position, the newest entry's hash, and the hash of all that. The log then verifies with that entry as
    -- its newest.
    pub record_event_appends :
        (attempts : ℕ → Attempt) (e : Event) (rows : List AuditLog)
        → (attempts 0).begin_fails ≡ false
        → (attempts 0).lock_fails ≡ false
        → (attempts 0).tip_fails ≡ false
        → (attempts 0).insert_fails ≡ false
        → (attempts 0).commit_fails ≡ false
        → of_org e.org_id ((attempts 0).race rows) ≡ of_org e.org_id rows
        → All (λ r. r.id ≢ (attempts 0).id) ((attempts 0).race rows)
        → IsLog h action_text e.org_id rows
        → (entry : AuditLog) × Entry h action_text e (attempts 0).now (tip_of e.org_id rows) entry
          × (record_event h action_text attempts e rows ≡ (attempts 0).race rows ++ entry ∷ [])
          × (verify_chain h
                (order_by_seq (of_org e.org_id (record_event h action_text attempts e rows)))
              ≡ intact_report h (entry ∷ newest_first (order_by_seq (of_org e.org_id rows))))
    unfolding record_event
    record_event_appends attempts e rows b l t i c same fresh log =
        let a = attempts 0 in
        let entry = next_entry h action_text a e (tip_of e.org_id rows) in
        let bound : Below (entry.seq) (of_org e.org_id (a.race rows)) =
          rw same (unfold next_entry in tip_seq_bounds (of_org e.org_id rows)) in
        let free =
          free_position a e entry.seq (a.race rows) fresh bound entry (entry_id a e _)
            (entry_org a e _) refl in
        let appended = append_chained_clean a e rows b l t i c free in
        let linked =
          subst (Linked h) (sym (newest_first-entry h action_text hex a e rows (a.race rows) same))
            (entry-Linked h action_text hex a e rows (a.race rows) same log) in
        let run : record_event h action_text attempts e rows ≡ a.race rows ++ entry ∷ [] =
          append_loop_first 3 attempts e rows (a.race rows ++ entry ∷ []) appended in
        rw run (
          entry,
          next_entry-Entry h action_text a e (tip_of e.org_id rows),
          refl,
          verify_chain-Linked h _ linked
              ∙ ap (intact_report h)
                  (newest_first-entry h action_text hex a e rows (a.race rows) same),
        )
