-- ===== src/Tests/Logs.antt =====
-- The audit log of src/audit.rs on three entries of one organisation.
use registry_api_contract.Prelude.{
  String, ◌≡◌, ◌≢◌, refl, ◌⊎◌, ◌↔◌, inl, inr, true, Bool-cases, none, some, List, [], ◌∷◌, ◌++◌,
  map, keep, ◌==◌, eq_iff,
}
use registry_api_contract.Db.{AuditLog}
use registry_api_contract.Audit.{
  sequence_gap, is_chained, expected_hash, entry_digest, verify_chain,
}
use registry_api_contract.Audit.Order.{order_by_seq}
use registry_api_contract.Audit.Chain.{
  Verdict, Linked, newest_first, onto, broken_report, intact_report, verify_chain-Verdict,
  verify_chain-intact_iff,
}
use registry_api_contract.Audit.Tamper.{Collision, inputs, head_hash_binding, deletion_detected}
use registry_api_contract.Audit.Columns.{
  SameVerdict, relink, verify_chain-relink, verify_chain-Unhashed,
}
use registry_api_contract.Audit.Record.{AuditAction, Event, of_org, tip_of, record_event}
use registry_api_contract.Audit.Record.Growth.{IsLog, HexDigest}
use registry_api_contract.Audit.Record.Runs.{OtherWriters, record_event_appends}
use registry_api_contract.Audit.Record.Entries.{Entry}
use registry_api_contract.Tests.Fixtures.{hasher, action_text, attempt, owner_token}

abbrev first_entry : AuditLog
first_entry = record {
  id = 61;
  org_id = 10;
  at = 1;
  action = "publish";
  subject = "s1";
  actor_token_id = some 1;
  actor_token_name = "ci";
  actor_role = "owner";
  detail = none;
  seq = 1;
  entry_hash = "us1";
  prev_hash = none;
}

abbrev second_entry : AuditLog
second_entry = record first_entry {
  id = 62;
  subject = "s2";
  seq = 2;
  entry_hash = "us2us1";
  prev_hash = some "us1";
}

abbrev third_entry : AuditLog
third_entry = record first_entry {
  id = 63;
  subject = "s3";
  seq = 3;
  entry_hash = "us3us2us1";
  prev_hash = some "us2us1";
}

abbrev log : List AuditLog
log = first_entry ∷ second_entry ∷ third_entry ∷ []

abbrev unhashed_entry : AuditLog
unhashed_entry = record third_entry { entry_hash = "" }

log_intact : (verify_chain hasher log).intact ≡ true
unfolding verify_chain expected_hash entry_digest
log_intact = refl

verify_chain-Verdict_example : Verdict hasher [] (keep is_chained log) (verify_chain hasher log)
verify_chain-Verdict_example = verify_chain-Verdict hasher log

verify_chain-intact_iff_example :
    ((verify_chain hasher log).intact ≡ true) ↔ Linked hasher (newest_first log)
verify_chain-intact_iff_example = verify_chain-intact_iff hasher log

head_hash_binding_example :
    (inputs hasher (newest_first log) ≡ inputs hasher (newest_first log)) ⊎ Collision hasher
head_hash_binding_example = head_hash_binding hasher log log log_intact log_intact refl

deletion_detected_example :
    verify_chain hasher (first_entry ∷ third_entry ∷ [])
    ≡ broken_report hasher (onto [] (first_entry ∷ [])) sequence_gap 2
deletion_detected_example =
    deletion_detected hasher first_entry [] second_entry third_entry [] (refl, (refl, (refl, tt)))
      log_intact

verify_chain-relink_example :
    SameVerdict
      (verify_chain hasher (map (relink hasher (λ r. none)) log))
      (verify_chain hasher log)
verify_chain-relink_example = verify_chain-relink hasher (λ r. none) log

verify_chain-Unhashed_example :
    verify_chain hasher ((first_entry ∷ second_entry ∷ []) ++ unhashed_entry ∷ [])
    ≡ verify_chain hasher (first_entry ∷ second_entry ∷ [])
verify_chain-Unhashed_example =
    verify_chain-Unhashed hasher (first_entry ∷ second_entry ∷ []) (unhashed_entry ∷ []) (refl, tt)

pub digest_nonempty : HexDigest hasher action_text
digest_nonempty s h = elim (Bool-cases (s == "")) [
  | inl e ↦ let k = rw e at h in zero_nonempty k
  | inr e ↦ let k = rw e at h in let t = (eq_iff s "").1 k in cc
]
  where
    zero_nonempty : ◌≢◌ {A = String} "0" ""
    zero_nonempty p = let t = (eq_iff "0" "").1 p in cc

abbrev event : Event
event = record {
  org_id = 10;
  token = owner_token;
  action = AuditAction.publish;
  subject = "s1";
  detail = none;
}

nothing_logged : IsLog hasher action_text 10 []
unfolding order_by_seq
nothing_logged = record { linked = tt; anchored = refl; follows = tt }

undisturbed : OtherWriters hasher action_text 10 attempt.race
undisturbed = record { keeps = λ rows l. l; moves = λ rows. inl refl }

record_event_appends_example :
    (entry : AuditLog) × Entry hasher action_text event attempt.now (tip_of 10 []) entry
    × (record_event hasher action_text (λ i. attempt) event [] ≡ entry ∷ [])
    × (verify_chain hasher
          (order_by_seq (of_org 10 (record_event hasher action_text (λ i. attempt) event [])))
        ≡ intact_report hasher (entry ∷ newest_first (order_by_seq (of_org 10 []))))
record_event_appends_example =
    record_event_appends hasher action_text digest_nonempty (λ i. attempt) event [] refl refl refl
      refl refl refl tt nothing_logged
