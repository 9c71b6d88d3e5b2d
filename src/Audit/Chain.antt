-- ===== src/Audit/Chain.antt =====
-- The loop of `verify_chain` (src/audit.rs) against a description of intact chains: entries newest
-- first, each hashing to its recorded hash with its predecessor's hash, and the positions
-- contiguous.
use registry_api_contract.Prelude.{
  ℕ, ◌+◌, String, ◌≡◌, ◌∙◌, sym, ap, subst, ◌++◌, false≢true, ◌≢◌, ◌↔◌, inl, inr, refl, true, false,
  Option, none, some, List, [], ◌∷◌, arith, length, Bool-cases, ◌==◌, eq_iff, keep, unwrap_or,
}
use registry_api_contract.Db.{AuditLog}
use registry_api_contract.Audit.{
  Hasher, ChainReport, ChainProblem, Walk, is_chained, is_gap, advance, expected_hash, walk,
  verify_chain, hash_mismatch, broken_link, sequence_gap,
}

abbrev pub head_hash : List AuditLog → String
head_hash [] = ""
head_hash (r ∷ older) = r.entry_hash

abbrev pub head_hash? : List AuditLog → Option String
head_hash? [] = none
head_hash? (r ∷ older) = some r.entry_hash

abbrev pub next_seq : List AuditLog → Option ℕ
next_seq [] = none
next_seq (r ∷ older) = some (r.seq + 1)

abbrev pub Follows : ℕ → List AuditLog → Type 0
Follows seq [] = Unit {0}
Follows seq (o ∷ older) = seq ≡ o.seq + 1

abbrev pub onto : List AuditLog → List AuditLog → List AuditLog
onto [] older = older
onto (r ∷ rows) older = onto rows (r ∷ older)

-- The rows that take part in the chain, newest first.
abbrev pub newest_first : List AuditLog → List AuditLog
newest_first rows = onto (keep is_chained rows) []

abbrev pub walk_of : List AuditLog → Walk
walk_of older = record {
  prev_hash = head_hash older;
  expected_seq = next_seq older;
  checked = length older;
  head = head_hash? older;
}

not-gap_of-Follows :
    (seq : ℕ) (older : List AuditLog) → Follows seq older → is_gap (next_seq older) seq ≡ false
not-gap_of-Follows seq [] f = refl
not-gap_of-Follows seq (o ∷ older) f = ground arith

Follows-of-not-gap :
    (seq : ℕ) (older : List AuditLog) → is_gap (next_seq older) seq ≡ false → Follows seq older
Follows-of-not-gap seq [] g = tt
Follows-of-not-gap seq (o ∷ older) g = ground arith

module _ (h : Hasher) where
  abbrev pub Linked : List AuditLog → Type 0
  Linked [] = Unit {0}
  Linked (r ∷ older) =
      (expected_hash h r (head_hash older) ≡ r.entry_hash) × Follows r.seq older × Linked older

  abbrev pub intact_report : List AuditLog → ChainReport
  intact_report older = record {
    intact = true;
    entries_checked = length older;
    first_bad_seq = none;
    problem = none;
    head_hash = head_hash? older;
  }

  advance-walk_of :
      (row : AuditLog) (older : List AuditLog)
      → advance h (walk_of older) row ≡ walk_of (row ∷ older)
  advance-walk_of row older = ground arith

  pub Linked-suffix : (rows older : List AuditLog) → Linked (onto rows older) → Linked older
  Linked-suffix [] older l = l
  Linked-suffix (r ∷ rows) older l = (Linked-suffix rows (r ∷ older) l).2

  -- One round of the loop on an entry that fits.
  pub walk_fits :
      (older : List AuditLog) (row : AuditLog) (rows : List AuditLog)
      → Linked (row ∷ older)
      → walk h (walk_of older) (row ∷ rows) ≡ walk h (walk_of (row ∷ older)) rows
  unfolding walk
  walk_fits older row rows l = rw (
    not-gap_of-Follows row.seq older l.1,
    (eq_iff (expected_hash h row (head_hash older)) row.entry_hash).1 l.0,
    advance-walk_of row older,
  )

  -- How an entry fails to continue the entries before it, and what is reported of it.
  pub data Misfit (older : List AuditLog) (row : AuditLog) (problem : ChainProblem) (seq : ℕ)
      : Type 0 where
    missing :
        ¬ Follows row.seq older
        → problem ≡ sequence_gap
        → next_seq older ≡ some seq
        → Misfit older row problem seq
    edited :
        Follows row.seq older
        → expected_hash h row (head_hash older) ≢ row.entry_hash
        → expected_hash h row (unwrap_or "" row.prev_hash) ≢ row.entry_hash
        → problem ≡ hash_mismatch
        → seq ≡ row.seq
        → Misfit older row problem seq
    relinked :
        Follows row.seq older
        → expected_hash h row (head_hash older) ≢ row.entry_hash
        → expected_hash h row (unwrap_or "" row.prev_hash) ≡ row.entry_hash
        → problem ≡ broken_link
        → seq ≡ row.seq
        → Misfit older row problem seq

  abbrev pub broken_report : List AuditLog → ChainProblem → ℕ → ChainReport
  broken_report older problem seq = record {
    intact = false;
    entries_checked = length older;
    first_bad_seq = some seq;
    problem = some problem;
    head_hash = head_hash? older;
  }

  -- What a report on `rows`, after the intact entries `older`, says.
  pub data Verdict (older rows : List AuditLog) (report : ChainReport) : Type 0 where
    sound :
        Linked (onto rows older)
        → report ≡ intact_report (onto rows older)
        → Verdict older rows report
    broken :
        (front : List AuditLog) (row : AuditLog) (back : List AuditLog) (problem : ChainProblem)
        (seq : ℕ)
        → rows ≡ front ++ row ∷ back
        → Linked (onto front older)
        → Misfit (onto front older) row problem seq
        → report ≡ broken_report (onto front older) problem seq
        → Verdict older rows report

  Verdict-cons :
      {older rows : List AuditLog} {report : ChainReport} (row : AuditLog)
      → Verdict (row ∷ older) rows report
      → Verdict older (row ∷ rows) report
  Verdict-cons row (sound l e) = sound l e
  Verdict-cons row (broken front bad back problem seq e l m r) =
      broken (row ∷ front) bad back problem seq (ap (◌∷◌ row) e) l m r

  walk_gap :
      (older : List AuditLog) (row : AuditLog) (rows : List AuditLog)
      → Linked older
      → is_gap (next_seq older) row.seq ≡ true
      → Verdict older (row ∷ rows) (walk h (walk_of older) (row ∷ rows))
  unfolding walk
  walk_gap [] row rows l g = cc
  walk_gap (o ∷ older) row rows l g = rw g (
      broken [] row rows sequence_gap (o.seq + 1) refl l (missing (λ f. ground arith) refl refl)
        refl)

  walk_bad_hash :
      (older : List AuditLog) (row : AuditLog) (rows : List AuditLog)
      → Linked older
      → is_gap (next_seq older) row.seq ≡ false
      → (expected_hash h row (head_hash older) == row.entry_hash) ≡ false
      → Verdict older (row ∷ rows) (walk h (walk_of older) (row ∷ rows))
  unfolding walk
  walk_bad_hash older row rows l g e =
      let f = Follows-of-not-gap row.seq older g in
      let bad : expected_hash h row (head_hash older) ≢ row.entry_hash = λ p.
        false≢true (sym e ∙ (eq_iff (expected_hash h row (head_hash older)) row.entry_hash).1 p) in
      elim (Bool-cases (expected_hash h row (unwrap_or "" row.prev_hash) == row.entry_hash)) [
        | inl own ↦
            rw (g, e, own)
              (broken [] row rows broken_link row.seq refl l
                (relinked f bad ((eq_iff _ _).0 own) refl refl) refl)
        | inr own ↦
            rw (g, e, own)
              (broken [] row rows hash_mismatch row.seq refl l
                (edited f bad (λ p. false≢true (sym own ∙ (eq_iff _ _).1 p)) refl refl) refl)
      ]

  walk-Verdict :
      (rows older : List AuditLog) → Linked older → Verdict older rows (walk h (walk_of older) rows)
  unfolding walk
  walk-Verdict [] older l = sound l refl
  walk-Verdict (row ∷ rows) older l = elim (Bool-cases (is_gap (next_seq older) row.seq)) [
    | inl g ↦ walk_gap older row rows l g
    | inr g ↦ elim (Bool-cases (expected_hash h row (head_hash older) == row.entry_hash)) [
      | inr e ↦ walk_bad_hash older row rows l g e
      | inl e ↦
          let l' : Linked (row ∷ older) =
            ((eq_iff _ _).0 e, Follows-of-not-gap row.seq older g, l) in
          subst (Verdict older (row ∷ rows)) (sym (walk_fits older row rows l'))
            (Verdict-cons row (walk-Verdict rows (row ∷ older) l'))
    ]
  ]

  -- The report on any rows is right: either the chained rows are linked, and the report counts them
  -- and carries the newest hash; or it stops at the first row that does not continue the linked
  -- rows before it, and names the position, the kind of the fault, and how many rows were linked.
  pub verify_chain-Verdict :
      (rows : List AuditLog) → Verdict [] (keep is_chained rows) (verify_chain h rows)
  unfolding verify_chain
  verify_chain-Verdict rows = walk-Verdict (keep is_chained rows) [] tt

  Misfit-not-Linked :
      (older : List AuditLog) (row : AuditLog) (problem : ChainProblem) (seq : ℕ)
      → Misfit older row problem seq
      → ¬ Linked (row ∷ older)
  Misfit-not-Linked older row problem seq (missing g _ _) l = g l.1
  Misfit-not-Linked older row problem seq (edited _ bad _ _ _) l = bad l.0
  Misfit-not-Linked older row problem seq (relinked _ bad _ _ _) l = bad l.0

  pub onto-append : (xs ys older : List AuditLog) → onto (xs ++ ys) older ≡ onto ys (onto xs older)
  onto-append [] ys older = refl
  onto-append (x ∷ xs) ys older = onto-append xs ys (x ∷ older)

  intact_of_Verdict :
      (older rows : List AuditLog) (report : ChainReport)
      → Verdict older rows report
      → report.intact ≡ true
      → Linked (onto rows older)
  intact_of_Verdict older rows report (sound l e) i = l
  intact_of_Verdict older rows report (broken _ _ _ _ _ _ _ _ e) i = cc

  Linked-intact :
      (older rows : List AuditLog) (report : ChainReport)
      → Verdict older rows report
      → Linked (onto rows older)
      → report ≡ intact_report (onto rows older)
  Linked-intact older rows report (sound l e) _ = e
  Linked-intact older rows report (broken front row back problem seq split _ m _) l = absurd (
      Misfit-not-Linked (onto front older) row problem seq m (
        Linked-suffix back (row ∷ onto front older)
          (subst Linked (ap (λ rs. onto rs older) split ∙ onto-append front (row ∷ back) older) l)))

  -- The chain is reported intact exactly when the chained rows are linked.
  pub verify_chain-intact_iff :
      (rows : List AuditLog) → ((verify_chain h rows).intact ≡ true) ↔ Linked (newest_first rows)
  verify_chain-intact_iff rows = (
    intact_of_Verdict [] _ _ (verify_chain-Verdict rows),
    λ l. ap (λ (r : ChainReport). r.intact) (Linked-intact [] _ _ (verify_chain-Verdict rows) l),
  )

  pub verify_chain-Linked :
      (rows : List AuditLog)
      → Linked (newest_first rows)
      → verify_chain h rows ≡ intact_report (newest_first rows)
  verify_chain-Linked rows l = Linked-intact [] _ _ (verify_chain-Verdict rows) l
