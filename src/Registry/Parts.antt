-- ===== src/Registry/Parts.antt =====
-- The parts of the handlers of src/routes/ that write, each with what it does to the tables.
use registry_api_contract.Prelude.{
  ℕ, zero, suc, ◌+◌, ◌≡◌, refl, sym, subst, inl, inr, Bool, List, [], ◌∷◌, ◌++◌, map, In,
  In-append_left, if◌then◌else◌,
}
use registry_api_contract.Error.{ApiResult, ok, err}
use registry_api_contract.Db.{
  Uuid, Org, Token, Package, Version, AuditLog, Embedding, DbResult, DbResult-cases, done, failed,
  unique_violation, fault, insert_row,
}
use registry_api_contract.Audit.Record.{
  Attempt, Event, append_chained, append_loop, record_event, append_attempts,
}
use registry_api_contract.Audit.Record.Growth.{append_chained-done}
use registry_api_contract.State.{
  Database, World, Dependencies, Outside, Handler, ◌>>=◌, meanwhile, transaction, settled,
}
use registry_api_contract.State.Effects.{Keeps, Keeps->>=, Unchanged, insert_row_done, unfailed}
use registry_api_contract.Routes.{audit}
use registry_api_contract.Routes.Publish.{stored, inserted, upsert_row}
use registry_api_contract.Routes.Orgs.{inserted_org}
use registry_api_contract.Routes.Yank.{set_yanked}
use registry_api_contract.Registry.Growth.{
  Subset, SamePackage, Grows, insert_row_grows, upsert_row_grows,
}

-- What a request relies on: what others commit meanwhile loses and rewrites nothing either.
pub record IsFair (o : Outside) : Type 0 where
  pub race : (v : Database) → Grows v (o.race v)
  pub attempts : (i : ℕ) (rows : List AuditLog) → Subset rows ((o.attempts i).race rows)

-- A relation between the worlds before and after that the statements of the handlers keep, with
-- the surroundings `o`: in sequence, on a rollback, through what others commit, and table by table.
pub record Frame (d : Dependencies) (o : Outside) (R : World → World → Type 0) : Type 0 where
  pub same : (w : World) → R w w
  pub trans : (u v w : World) → R u v → R v w → R u w
  pub rolled_back : (v w : World) → R v w → R v (record w { database = v.database })
  pub raced : (w : World) → R w (record w { database = o.race w.database })
  pub orgs :
      (w : World) (rows : List Org)
      → Subset w.database.orgs rows
      → R w (record w { database = record w.database { orgs = rows } })
  pub tokens :
      (w : World) (rows : List Token)
      → Subset w.database.tokens rows
      → R w (record w { database = record w.database { tokens = rows } })
  pub packages :
      (w : World) (rows : List Package)
      → ((p : Package) → In p w.database.packages → (q : Package) × In q rows × SamePackage p q)
      → R w (record w { database = record w.database { packages = rows } })
  pub yanked :
      (w : World) (id : Uuid) (yanked : Bool)
      → R w (record w {
        database = record w.database { versions = map (set_yanked id yanked) w.database.versions };
      })
  pub audited :
      (w : World) (e : Event)
      → R w (record w {
        database = record w.database {
          audit_log = record_event d.hasher d.action_text o.attempts e w.database.audit_log;
        };
      })
  pub embeddings :
      (w : World) (rows : List Embedding)
      → R w (record w { database = record w.database { embeddings = rows } })

module _ {d : Dependencies} {o : Outside} {R : World → World → Type 0} (frame : Frame d o R) where
  pub audit_kept : (e : Event) → Keeps R (audit d o e)
  audit_kept e = record { kept = λ w. frame.audited w e }

  pub unchanged : {A : Type 0} {m : Handler A} → Keeps Unchanged m → Keeps R m
  unchanged k = record { kept = λ w. rw (k.kept w) (frame.same w) }

  -- Part by part, and a transaction with its rollback.
  pub in_turn :
      {A B : Type 0} {m : Handler A} {f : A → Handler B}
      → Keeps R m
      → ((a : A) → Keeps R (f a))
      → Keeps R (m >>= f)
  in_turn k l = Keeps->>= frame.trans k l

  settled_kept :
      {A : Type 0} (v : World) (x : ApiResult A × World) → R v x.1 → R v (settled v.database x).1
  settled_kept v (ok a, w) g = g
  settled_kept v (err e, w) g = frame.rolled_back v w g

  pub transaction_kept : {A : Type 0} {m : Handler A} → Keeps R m → Keeps R (transaction m)
  unfolding transaction
  transaction_kept {m = m} k = record { kept = λ w. settled_kept w (m w) (k.kept w) }

  pub meanwhile_kept : Keeps R (meanwhile o.race)
  meanwhile_kept = record { kept = frame.raced }

  -- The inserts.
  inserted_kept :
      (x : DbResult (List Version)) (w : World)
      → ((rows : List Version)
          → x ≡ done rows
          → R w (record w { database = record w.database { versions = rows } }))
      → R w (inserted x w).1
  inserted_kept (done rows) w more = more rows refl
  inserted_kept (failed unique_violation) w more = frame.same w
  inserted_kept (failed fault) w more = frame.same w

  inserted_org_kept :
      (x : DbResult (List Org)) (w : World)
      → ((rows : List Org) → x ≡ done rows → Subset w.database.orgs rows)
      → R w (inserted_org x w).1
  inserted_org_kept (done rows) w more = frame.orgs w rows (more rows refl)
  inserted_org_kept (failed unique_violation) w more = frame.same w
  inserted_org_kept (failed fault) w more = frame.same w

  stored_kept :
      (x : DbResult (List Package)) (w : World)
      → ((rows : List Package)
          → x ≡ done rows
          → (p : Package) → In p w.database.packages
          → (q : Package) × In q rows × SamePackage p q)
      → R w (stored (λ rows db. record db { packages = rows }) x w).1
  stored_kept (done rows) w more = frame.packages w rows (more rows refl)
  stored_kept (failed e) w more = frame.same w

  -- A version's row is inserted, or the statement fails.
  pub version_insert_kept :
      (fails : Bool) (clashes : Version → Version → Bool) (row : Version)
      → ((w : World)
          → R w (record w {
            database = record w.database { versions = w.database.versions ++ row ∷ [] };
          }))
      → Keeps R (λ w.
        inserted (if fails then failed fault else insert_row clashes row w.database.versions) w)
  version_insert_kept fails clashes row added = record {
    kept = λ w.
        inserted_kept (if fails then failed fault else insert_row clashes row w.database.versions) w
          λ rows e.
            rw
              (insert_row_done clashes row w.database.versions rows
                (unfailed fails (insert_row clashes row w.database.versions) e)).1
              (added w);
  }

  pub org_insert_kept :
      (fails : Bool) (clashes : Org → Org → Bool) (row : Org)
      → Keeps R (λ w.
        inserted_org (if fails then failed fault else insert_row clashes row w.database.orgs) w)
  org_insert_kept fails clashes row = record {
    kept = λ w.
        inserted_org_kept _ w λ rows e. insert_row_grows clashes row _ rows (unfailed fails _ e);
  }

  pub upsert_kept :
      (fails : Bool) (new : Package)
      → Keeps R (λ w.
        stored
          (λ rows db. record db { packages = rows })
          (if fails then failed fault else upsert_row new w.database.packages)
          w)
  upsert_kept fails new = record {
    kept = λ w. stored_kept _ w λ rows e. upsert_row_grows new _ rows (unfailed fails _ e);
  }

-- The audit log.
module _ (d : Dependencies) where
  append_loop_grows :
      (n : ℕ) (attempts : ℕ → Attempt) (e : Event) (rows : List AuditLog)
      → ((i : ℕ) (rows' : List AuditLog) → Subset rows' ((attempts i).race rows'))
      → Subset rows (append_loop d.hasher d.action_text n attempts e rows)
  unfolding append_loop
  append_loop_grows zero attempts e rows fair x i = i
  append_loop_grows (suc n) attempts e rows fair x i =
      elim (DbResult-cases (append_chained d.hasher d.action_text (attempts 0) e rows)) [
        | inl (rows', p) ↦
            let added = append_chained-done d.hasher d.action_text (attempts 0) e rows rows' p in
            rw (p, append_loop)
              (subst (In x) (sym added.0) (In-append_left x _ _ (fair 0 rows x i)))
        | inr (inl p) ↦
            rw (p, append_loop)
              (append_loop_grows n (λ j. attempts (j + 1)) e ((attempts 0).race rows)
                (λ j. fair (j + 1)) x (fair 0 rows x i))
        | inr (inr p) ↦ rw (p, append_loop) (fair 0 rows x i)
      ]

  pub record_event_grows :
      (o : Outside) (e : Event) (rows : List AuditLog)
      → IsFair o
      → Subset rows (record_event d.hasher d.action_text o.attempts e rows)
  unfolding record_event
  record_event_grows o e rows fair =
      append_loop_grows append_attempts o.attempts e rows fair.attempts
