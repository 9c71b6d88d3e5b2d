-- ===== src/Registry/Logs.antt =====
-- Over any sequence of the writes of src/routes/mod.rs: the audit log of every organisation stays in good
-- order, and src/audit.rs reports it intact.
use registry_api_contract.Prelude.{
  ℕ, zero, suc, ◌+◌, String, ◌≡◌, ◌≢◌, sym, ap, subst, ◌∙◌, inl, inr, Bool, true, false, nat_eq,
  arith, Option, none, some, List, [], ◌∷◌, ◌++◌, append-nil, Bool-cases,
}
use registry_api_contract.Db.{Uuid, Org, AuditLog, DbResult-cases}
use registry_api_contract.Storage.{Bytes, ArtifactStore}
use registry_api_contract.Audit.{Hasher, ChainReport, verify_chain, order_by_seq}
use registry_api_contract.Audit.Chain.{verify_chain-Linked}
use registry_api_contract.Audit.Record.{
  Attempt, Event, AuditAction, of_org, tip_of, next_entry, append_chained, append_loop,
  record_event,
}
use registry_api_contract.Audit.Record.Growth.{IsLog, HexDigest, append_chained-done, keep-append}
use registry_api_contract.Audit.Record.Runs.{OtherWriters, entry_org, record_event-IsLog}
use registry_api_contract.Embeddings.{Floats}
use registry_api_contract.State.{Database, World, AppState, Dependencies, Outside}
use registry_api_contract.State.Effects.{Keeps}
use registry_api_contract.Routes.Payload.{Manifest, PublishMeta, PublishRequest}
use registry_api_contract.Routes.Publish.{store_and_record, record_version, stored_artifact}
use registry_api_contract.Routes.Publish.Atomic.{require_unpublished-Keeps}
use registry_api_contract.Registry.Parts.{
  Frame, in_turn, unchanged, transaction_kept, meanwhile_kept,
}
use registry_api_contract.Registry.Handlers.{
  record_body_kept, publish_kept, yank_kept, claim_org_kept, upsert_embedding_kept,
}
use registry_api_contract.Registry.{
  Write, put_version, post_yank, post_org, put_embedding, router, Reach, start, later,
}

module _ (h : Hasher) (action_text : AuditAction → String) where
  -- The order of a log is in the rows of its organisation.
  IsLog-same :
      (org_id : Uuid) (rows rows' : List AuditLog)
      → of_org org_id rows' ≡ of_org org_id rows
      → IsLog h action_text org_id rows
      → IsLog h action_text org_id rows'
  IsLog-same org_id rows rows' same log = record {
    linked = rw same log.linked;
    anchored = rw same log.anchored;
    follows = rw same log.follows;
  }

  another_org :
      (org_id : Uuid) (rows : List AuditLog) (entry : AuditLog)
      → entry.org_id ≢ org_id
      → of_org org_id (rows ++ entry ∷ []) ≡ of_org org_id rows
  another_org org_id rows entry apart =
      let e : nat_eq entry.org_id org_id ≡ false = ground arith in
      keep-append (λ r. nat_eq r.org_id org_id) rows (entry ∷ []) ∙ rw e (append-nil _)

  -- An event of one organisation leaves the others' logs to their own writers.
  append_loop-another :
      (org_id : Uuid) (n : ℕ) (attempts : ℕ → Attempt) (e : Event) (rows : List AuditLog)
      → e.org_id ≢ org_id
      → ((i : ℕ) → OtherWriters h action_text org_id (attempts i).race)
      → IsLog h action_text org_id rows
      → IsLog h action_text org_id (append_loop h action_text n attempts e rows)
  unfolding append_loop
  append_loop-another org_id zero attempts e rows apart others log = log
  append_loop-another org_id (suc n) attempts e rows apart others log =
      let raced = (others 0).keeps rows log in
      elim (DbResult-cases (append_chained h action_text (attempts 0) e rows)) [
        | inl (rows', p) ↦
            let added = (append_chained-done h action_text (attempts 0) e rows rows' p).0 in
            let entry = next_entry h action_text (attempts 0) e (tip_of e.org_id rows) in
            let outside : entry.org_id ≢ org_id = λ q.
              apart (sym (entry_org h action_text (attempts 0) e (tip_of e.org_id rows)) ∙ q) in
            rw (p, append_loop)
              (IsLog-same org_id _ rows'
                (ap (of_org org_id) added ∙ another_org org_id _ entry outside) raced)
        | inr (inl p) ↦
            rw (p, append_loop)
              (append_loop-another org_id n (λ i. attempts (i + 1)) e ((attempts 0).race rows) apart
                (λ i. others (i + 1)) raced)
        | inr (inr p) ↦ rw (p, append_loop) raced
      ]

  -- Every organisation's log is in good order.
  abbrev pub AllLogs : List AuditLog → Type 0
  AllLogs rows = (org_id : Uuid) → IsLog h action_text org_id rows

  -- What others write to the log, before the transaction of a request and between its appends.
  pub record IsOrderly (o : Outside) : Type 0 where
    pub race : (v : Database) → AllLogs v.audit_log → AllLogs (o.race v).audit_log
    pub attempts : (i : ℕ) (org_id : Uuid) → OtherWriters h action_text org_id (o.attempts i).race

  record_event-AllLogs :
      HexDigest h action_text
      → (o : Outside) (e : Event) (rows : List AuditLog) → IsOrderly o
      → AllLogs rows
      → AllLogs (record_event h action_text o.attempts e rows)
  unfolding record_event
  record_event-AllLogs hex o e rows orderly logs org_id =
      elim (Bool-cases (nat_eq e.org_id org_id)) [
        | inl same ↦
            let q : e.org_id ≡ org_id = ground arith in
            subst (λ i. IsLog h action_text i (record_event h action_text o.attempts e rows)) q
              (record_event-IsLog h action_text hex o.attempts e rows
                (λ i. orderly.attempts i e.org_id) (logs e.org_id)).0
        | inr other ↦
            append_loop-another org_id 4 o.attempts e rows (λ q. ground arith)
              (λ i. orderly.attempts i org_id) (logs org_id)
      ]

module _ (d : Dependencies) (hex : HexDigest d.hasher d.action_text) where
  -- What a request keeps.
  abbrev pub Logged : World → World → Type 0
  Logged v w =
      AllLogs d.hasher d.action_text v.database.audit_log
      → AllLogs d.hasher d.action_text w.database.audit_log

  logging : (o : Outside) → IsOrderly d.hasher d.action_text o → Frame d o Logged
  logging o orderly = record {
    same = λ w logs. logs;
    trans = λ u v w p q logs. q (p logs);
    rolled_back = λ v w p logs. logs;
    raced = λ w logs. orderly.race w.database logs;
    orgs = λ w rows more logs. logs;
    tokens = λ w rows more logs. logs;
    packages = λ w rows more logs. logs;
    yanked = λ w id yanked logs. logs;
    audited = λ w e logs.
        record_event-AllLogs d.hasher d.action_text hex o e w.database.audit_log orderly logs;
    embeddings = λ w rows logs. logs;
  }

  upload-Logged : (x : Option ArtifactStore) (w : World) → Logged w (stored_artifact x w).1
  upload-Logged none w logs = logs
  upload-Logged (some store) w logs = logs

  store_and_record-Logged :
      (s : AppState) (o : Outside) (orderly : IsOrderly d.hasher d.action_text o)
      (r : PublishRequest) (org : Org) (meta : PublishMeta) (artifact : Bytes)
      → Keeps Logged (store_and_record d o org r meta artifact)
  unfolding store_and_record record_version
  store_and_record-Logged s o orderly r org meta artifact =
      let frame = logging o orderly in
      in_turn frame (unchanged frame (require_unpublished-Keeps d (λ m. true) s o org r))
        λ unpublished.
          in_turn frame (record { kept = λ w. upload-Logged _ w })
            λ uploaded. in_turn frame (meanwhile_kept frame) λ others.
              transaction_kept frame (record_body_kept d s frame org r meta _ _ λ pkg w logs. logs)

  module _ {F : Type 0} (fl : Floats F) (valid_manifest : Manifest → Bool) (s : AppState) where
    router-Logged :
        (o : Outside) (q : Write F) (w : World)
        → IsOrderly d.hasher d.action_text o
        → Logged w (router fl d valid_manifest s o q w)
    unfolding router
    router-Logged o (put_version r) w orderly =
        (publish_kept d s (logging o orderly) valid_manifest r
            (store_and_record-Logged s o orderly r)).kept
          w
    router-Logged o (post_yank r) w orderly = (yank_kept d s (logging o orderly) r).kept w
    router-Logged o (post_org r) w orderly = (claim_org_kept d s (logging o orderly) r).kept w
    router-Logged o (put_embedding r) w orderly =
        (upsert_embedding_kept d s (logging o orderly) fl r).kept w

    Reach-AllLogs :
        {v w : World}
        → Reach fl d valid_manifest s (λ o u. IsOrderly d.hasher d.action_text o) v w
        → Logged v w
    Reach-AllLogs start logs = logs
    Reach-AllLogs (later {w = w} o q before orderly) logs =
        router-Logged o q w orderly (Reach-AllLogs before logs)

    -- If every organisation's audit log was in good order, the verification reports every organisation's
    -- log intact, whatever requests to publish, to yank or restore, to claim and to embed have come,
    -- whatever of them failed and in both modes of authentication, as long as other writers keep each
    -- log in good order and, between a request's read of a log and its insert, leave it alone or take its next position.
    pub Reach-intact :
        {v w : World}
        → Reach fl d valid_manifest s (λ o u. IsOrderly d.hasher d.action_text o) v w
        → AllLogs d.hasher d.action_text v.database.audit_log
        → (org_id : Uuid)
        → (verify_chain d.hasher (order_by_seq (of_org org_id w.database.audit_log))).intact ≡ true
    Reach-intact reached logs org_id =
        ap (λ (r : ChainReport). r.intact)
          (verify_chain-Linked d.hasher _ (Reach-AllLogs reached logs org_id).linked)
