-- ===== src/Routes/Orgs/Quota.antt =====
-- What a claim of src/routes/orgs.rs leaves: the quota of its token, and one owner of a slug.
use registry_api_contract.Prelude.{
  ℕ, ◌<◌, ◌≡◌, refl, ap, ◌∙◌, ◌⊎◌, inl, inr, Bool, true, false, not, leb, eq_iff, arith, Option,
  none, some, List, [], ◌∷◌, ◌++◌, any, In, All, ◌≢◌, find, find-some, is_some, if◌then◌else◌,
  Bool-cases,
}
use registry_api_contract.Error.{ApiErr, ApiResult, ok, err}
use registry_api_contract.Db.{
  Org, Token, DbResult, done, failed, unique_violation, fault, org_clashes, same_uuid?,
}
use registry_api_contract.State.{
  World, AppState, Dependencies, Outside, Handler, ◌>>=◌, after, require, meanwhile, transaction,
  insert_org,
}
use registry_api_contract.State.Effects.{
  Keeps, Keeps->>=, Unchanged, Unchanged-trans, transaction_ok, lift-Keeps, query-Keeps,
  require-Keeps, through, through_kept, through_query, through_require, through_meanwhile, unfailed,
  insert_row_done,
}
use registry_api_contract.Auth.{auth_disabled, require_token}
use registry_api_contract.Auth.Liveness.{Bears, require_token-Keeps, require_token_ok}
use registry_api_contract.Routes.{has_slug}
use registry_api_contract.Routes.Orgs.{
  ClaimOrgRequest, ClaimOrgResponse, claimed, inserted_org, org_row, check_quota, claim_body,
  acknowledge_claim, claim_org_serialized, claim_unless_taken, claim_org,
}

through_inserted :
    {B : Type 0} (P : ApiResult B × World → Type 0) (x : World → DbResult (List Org))
    (f : Unit {0} → Handler B) {w : World} {b : B}
    → (((λ v. inserted_org (x v) v) >>= f) w).0 ≡ ok b
    → ((rows : List Org)
        → x w ≡ done rows
        → (f tt (record w { database = record w.database { orgs = rows } })).0 ≡ ok b
        → P (f tt (record w { database = record w.database { orgs = rows } })))
    → P (((λ v. inserted_org (x v) v) >>= f) w)
unfolding ◌>>=◌
through_inserted {B = B} P x f {w = w} {b = b} h k = go (x w) refl h
  where
    go :
        (y : DbResult (List Org))
        → x w ≡ y
        → (after f (inserted_org y w).0 (inserted_org y w).1).0 ≡ ok b
        → P (after f (inserted_org y w).0 (inserted_org y w).1)
    go (done rows) e j = k rows e j
    go (failed unique_violation) e j = cc
    go (failed fault) e j = cc

below :
    (limit n : ℕ) (e : ApiErr) {u : Unit {0}}
    → (if not (leb limit n) then ok tt else err e) ≡ ok u
    → n < limit
below limit n e h = elim (Bool-cases (leb limit n)) [
  | inl t ↦ let k = rw t at h in cc
  | inr f ↦ ground arith
]

module _ (d : Dependencies) (s : AppState) (o : Outside) where
  -- What the transaction commits.
  pub record Claimed (token : Token) (r : ClaimOrgRequest) (v w : World) : Type 0 where
    pub within :
        (is_some token.org_id ≡ false) ⊎ (claimed token.id v.database < s.max_orgs_per_token)
    pub new : any (org_clashes (org_row d s o token r)) v.database.orgs ≡ false
    pub leaves : w ≡ record v {
      database = record v.database { orgs = v.database.orgs ++ org_row d s o token r ∷ [] };
    }

  check_quota-Keeps :
      (scoped : Bool) (token : Token) → Keeps Unchanged (check_quota d s o scoped token)
  unfolding check_quota
  check_quota-Keeps false token = lift-Keeps _
  check_quota-Keeps true token = Keeps->>= Unchanged-trans (query-Keeps _ _) λ n. require-Keeps _ _

  check_quota_ok :
      (scoped : Bool) (token : Token) (v : World) {u : Unit {0}}
      → (check_quota d s o scoped token v).0 ≡ ok u
      → (scoped ≡ false) ⊎ (claimed token.id v.database < s.max_orgs_per_token)
  unfolding check_quota require
  check_quota_ok false token v h = inl refl
  check_quota_ok true token v h = inr (
      through_query (λ x. claimed token.id v.database < s.max_orgs_per_token) _ _ _ h
        λ h1. below s.max_orgs_per_token (claimed token.id v.database) _ h1)

  claim_body_ok :
      (token : Token) (r : ClaimOrgRequest) (v : World) {u : Unit {0}}
      → (claim_body d s o token r v).0 ≡ ok u
      → Claimed token r v (claim_body d s o token r v).1
  unfolding claim_body require
  claim_body_ok token r v h =
      through_require (λ x. Claimed token r v x.1) _ _ _ h
        λ begun h1.
          through_require (λ x. Claimed token r v x.1) _ _ _ h1
            λ locked h2.
              through_kept (λ x. Claimed token r v x.1) _
                (check_quota-Keeps (is_some token.org_id) token) h2
                λ u quota h3.
                  through_inserted (λ x. Claimed token r v x.1) _ _ h3
                    λ rows e h4.
                      let (fresh, grown) =
                        insert_row_done org_clashes (org_row d s o token r) v.database.orgs rows
                          (unfailed (o.fails insert_org) _ e) in
                      record {
                        within = check_quota_ok (is_some token.org_id) token v quota;
                        new = fresh;
                        leaves = rw grown refl;
                      }

  pub acknowledge_orgs :
      (token : Token) (r : ClaimOrgRequest) (v : World)
      → ((acknowledge_claim d s o token r v).1.database.orgs ≡ v.database.orgs)
        × ((acknowledge_claim d s o token r v).0 ≡ ok (record { slug = r.slug; created = true }))
  unfolding acknowledge_claim ◌>>=◌
  acknowledge_orgs token r v = (refl, refl)

  -- What stands behind the answer of a claim.
  pub record Outcome (token : Token) (r : ClaimOrgRequest) (v : World)
      (x : ApiResult ClaimOrgResponse × World) : Type 0 where
    pub outcome :
        ((existing : Org) × In existing v.database.orgs
          × (existing.slug ≡ r.slug)
          × (same_uuid? token.org_id (some existing.id) ≡ true)
          × (x ≡ (ok (record { slug = r.slug; created = false }), v)))
        ⊎ (((is_some token.org_id ≡ false)
              ⊎ (claimed token.id (o.race v.database) < s.max_orgs_per_token))
            × (any (has_slug r.slug) (o.race v.database).orgs ≡ false)
            × ((row : Org) × (x.1.database.orgs ≡ (o.race v.database).orgs ++ row ∷ [])
                × (row.slug ≡ r.slug)
                × (row.created_by_token ≡ some token.id)
                × (row.created_at ≡ o.now)
                × All (λ other. other.id ≢ row.id) (o.race v.database).orgs)
            × (x.0 ≡ ok (record { slug = r.slug; created = true })))

  no_slug :
      (token : Token) (r : ClaimOrgRequest) (orgs : List Org)
      → any (org_clashes (org_row d s o token r)) orgs ≡ false
      → any (has_slug r.slug) orgs ≡ false
  unfolding org_row
  no_slug token r [] h = refl
  no_slug token r (x ∷ xs) h =
      ground (arith, no_slug token r xs, eq_iff r.slug x.slug, eq_iff x.slug r.slug)

  row_fields :
      (token : Token) (r : ClaimOrgRequest)
      → ((org_row d s o token r).slug ≡ r.slug)
        × ((org_row d s o token r).created_by_token ≡ some token.id)
        × ((org_row d s o token r).created_at ≡ o.now)
  unfolding org_row
  row_fields token r = (refl, refl, refl)

  no_id :
      (row : Org) (orgs : List Org)
      → any (org_clashes row) orgs ≡ false
      → All (λ other. other.id ≢ row.id) orgs
  no_id row [] h = tt
  no_id row (x ∷ xs) h = (λ e. ground (arith, e), no_id row xs (ground arith))

  claim_serialized_ok :
      (token : Token) (r : ClaimOrgRequest) (v : World) {resp : ClaimOrgResponse}
      → ((meanwhile o.race >>= λ u. claim_org_serialized d s o token r) v).0 ≡ ok resp
      → Outcome token r v ((meanwhile o.race >>= λ u. claim_org_serialized d s o token r) v)
  unfolding claim_org_serialized
  claim_serialized_ok token r v h = through_meanwhile (Outcome token r v) _ _ h λ h1.
      through (Outcome token r v) _ _ h1 λ u recorded h2.
        let (body, same) = transaction_ok (claim_body d s o token r) _ recorded in
        let c = claim_body_ok token r _ body in
        let (orgs, answered) =
          acknowledge_orgs token r
            (transaction (claim_body d s o token r)
              (record v { database = o.race v.database })).1 in
        record {
          outcome = inr (
            c.within,
            no_slug token r _ c.new,
            (
              org_row d s o token r,
              orgs ∙ ap (λ x. x.1.database.orgs) same ∙ ap (λ x. x.database.orgs) c.leaves,
              (row_fields token r).0,
              (row_fields token r).1,
              (row_fields token r).2,
              no_id (org_row d s o token r) _ c.new,
            ),
            answered,
          );
        }

  claim_unless_taken_ok :
      (token : Token) (r : ClaimOrgRequest) (found : Option Org) (v : World)
      {resp : ClaimOrgResponse}
      → find (has_slug r.slug) v.database.orgs ≡ found
      → (claim_unless_taken d s o token r found v).0 ≡ ok resp
      → Outcome token r v (claim_unless_taken d s o token r found v)
  unfolding claim_unless_taken
  claim_unless_taken_ok token r none v f h = claim_serialized_ok token r v h
  claim_unless_taken_ok token r (some existing) v f h =
      elim (Bool-cases (same_uuid? token.org_id (some existing.id))) [
        | inl t ↦
            let (member, hit) = find-some (has_slug r.slug) v.database.orgs existing f in
            record {
              outcome = inl (
                existing,
                member,
                ground (arith, eq_iff existing.slug r.slug, hit),
                t,
                rw t refl,
              );
            }
        | inr t ↦ let k = rw t at h in cc
      ]

  -- Who claimed, for a slug of the right form, and what came of it.
  abbrev pub Behind : ClaimOrgRequest → World → ApiResult ClaimOrgResponse × World → Type 0
  Behind r v x =
      (token : Token) × ((require_token d s o r.authorization v).0 ≡ ok token)
      × Bears d s o r.authorization v token
      × (d.is_slug r.slug ≡ true)
      × Outcome token r v x

  -- With bearer tokens required, a claim that answers came with a bearer text that hashes to a stored live
  -- token, for a slug of the right form. Either an organisation of that slug was there and is the token's own, and
  -- nothing changed; or, of the organisations that the other requests left, none had the slug, the token is
  -- unscoped or had claimed fewer than the limit, and exactly one row was added, with the slug, the time, the token
  -- as its creator and an identifier that none of them had.
  pub claim_org_outcome :
      (r : ClaimOrgRequest) (v : World) (resp : ClaimOrgResponse)
      → auth_disabled s ≡ false
      → (claim_org d s o r v).0 ≡ ok resp
      → Behind r v (claim_org d s o r v)
  unfolding claim_org
  claim_org_outcome r v resp e h =
      through_kept (Behind r v) _ (require_token-Keeps d s o r.authorization e) h
        λ token authenticated h1. through_require (Behind r v) _ _ _ h1 λ valid h2.
          through_query (Behind r v) _ _ _ h2 λ h3. (
            token,
            authenticated,
            require_token_ok d s o r.authorization v token e authenticated,
            valid,
            claim_unless_taken_ok token r _ v refl h3,
          )
