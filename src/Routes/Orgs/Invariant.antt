-- ===== src/Routes/Orgs/Invariant.antt =====
-- What every claim of src/routes/orgs.rs preserves, whether it answers or fails.
use registry_api_contract.Prelude.{
  ℕ, ◌+◌, ◌≤◌, ◌<◌, ◌≡◌, refl, sym, ap, subst, ◌∙◌, ◌⊎◌, inl, inr, Bool, true, false, arith, nat_eq,
  Option, none, some, List, [], ◌∷◌, ◌++◌, keep, length, is_some, if◌then◌else◌, Bool-cases,
  false≢true,
}
use registry_api_contract.Error.{ok_injective, ApiErr, ok, err, ApiResult-cases}
use registry_api_contract.Db.{Org, Token, same_uuid?}
use registry_api_contract.State.{World, AppState, Dependencies, Outside, ◌>>=◌, meanwhile}
use registry_api_contract.State.Effects.{
  OnError, OnError->>=, OnError-last, Keeps-database, SameDatabase, Settled, Settled-trans,
  Settled-weaken, transaction_rolls_back, query-Keeps, require-Keeps,
}
use registry_api_contract.Auth.{auth_disabled, require_token}
use registry_api_contract.Auth.Liveness.{require_token-Keeps}
use registry_api_contract.Routes.Orgs.{
  ClaimOrgRequest, created_by, claimed, claim_body, acknowledge_claim, claim_org_serialized,
  claim_unless_taken, claim_org,
}
use registry_api_contract.Routes.Orgs.Quota.{claim_org_outcome, acknowledge_orgs}

length-keep_added :
    {A : Type 0} (p : A → Bool) (xs : List A) (y : A)
    → length (keep p (xs ++ y ∷ [])) ≡ length (keep p xs) + (if p y then 1 else 0)
length-keep_added p [] y = ground arith
length-keep_added p (x ∷ xs) y = ground (arith, length-keep_added p xs y)

module _ (d : Dependencies) (s : AppState) (o : Outside) where
  committed :
      (token : Token) (r : ClaimOrgRequest)
      → OnError SameDatabase (claim_org_serialized d s o token r)
  unfolding claim_org_serialized
  committed token r =
      OnError-last (λ u. acknowledge_claim d s o token r)
        (transaction_rolls_back (claim_body d s o token r))
        λ u w. let (_, answered) = acknowledge_orgs d s o token r w in (_, answered)

  serialized-OnError :
      (token : Token) (r : ClaimOrgRequest)
      → OnError (Settled o.race) (meanwhile o.race >>= λ u. claim_org_serialized d s o token r)
  unfolding claim_org_serialized ◌>>=◌
  serialized-OnError token r = record {
    left = λ w e h. inr ((committed token r).left (record w { database = o.race w.database }) e h);
  }

  unless_taken-OnError :
      (token : Token) (r : ClaimOrgRequest) (found : Option Org)
      → OnError (Settled o.race) (claim_unless_taken d s o token r found)
  unfolding claim_unless_taken
  unless_taken-OnError token r none = serialized-OnError token r
  unless_taken-OnError token r (some existing) = record {
    left = λ w e h. elim (Bool-cases (same_uuid? token.org_id (some existing.id))) [
      | inl t ↦ inl (rw t refl)
      | inr t ↦ inl (rw t refl)
    ];
  }

  claim_org-OnError :
      (r : ClaimOrgRequest) → auth_disabled s ≡ false → OnError (Settled o.race) (claim_org d s o r)
  unfolding claim_org
  claim_org-OnError r e =
      OnError->>= (Settled-trans o.race) (Settled-weaken o.race)
        (Keeps-database (require_token-Keeps d s o r.authorization e))
        λ token.
          OnError->>= (Settled-trans o.race) (Settled-weaken o.race)
            (Keeps-database (require-Keeps _ _))
            λ valid.
              OnError->>= (Settled-trans o.race) (Settled-weaken o.race)
                (Keeps-database (query-Keeps _ _)) λ found. unless_taken-OnError token r found

  -- With bearer tokens required, a claim that answers with an error leaves the database as it was, or as
  -- the other requests made it that committed before its transaction.
  pub claim_error_leaves_nothing :
      (r : ClaimOrgRequest) (v : World) (e : ApiErr)
      → auth_disabled s ≡ false
      → (claim_org d s o r v).0 ≡ err e
      → ((claim_org d s o r v).1.database ≡ v.database)
        ⊎ ((claim_org d s o r v).1.database ≡ o.race v.database)
  claim_error_leaves_nothing r v e a h = (claim_org-OnError r a).left v e h

  claimed_added :
      (token : Token) (row : Org) (i : ℕ) (orgs : List Org)
      → row.created_by_token ≡ some token.id
      → length (keep (created_by i) (orgs ++ row ∷ []))
        ≡ length (keep (created_by i) orgs) + (if nat_eq token.id i then 1 else 0)
  claimed_added token row i orgs by = length-keep_added (created_by i) orgs row ∙ rw by refl

  grown_within :
      (token : Token) (row : Org) (i : ℕ) (orgs : List Org)
      → row.created_by_token ≡ some token.id
      → (is_some token.org_id ≡ false)
        ⊎ (length (keep (created_by token.id) orgs) < s.max_orgs_per_token)
      → is_some token.org_id ≡ true
      → length (keep (created_by i) orgs) ≤ s.max_orgs_per_token
      → length (keep (created_by i) (orgs ++ row ∷ [])) ≤ s.max_orgs_per_token
  grown_within token row i orgs by (inl unscoped) scoped within =
      absurd (false≢true (sym unscoped ∙ scoped))
  grown_within token row i orgs by (inr below) scoped within =
      elim (Bool-cases (nat_eq token.id i)) [
        | inl t ↦
            let same : token.id ≡ i = ground arith in
            let fits =
              subst (λ j. length (keep (created_by j) orgs) < s.max_orgs_per_token) same below in
            rw (claimed_added token row i orgs by, t) (omega (arith, fits))
        | inr t ↦ rw (claimed_added token row i orgs by, t) (omega (arith, within))
      ]

  -- Every scoped token stays within the quota: a request with a scoped token, whether its claim answers
  -- or fails, leaves each token with at most the limit of claimed organisations, if the database before
  -- it, and what the other requests made of that, had each token within the limit.
  pub claim_keeps_quota :
      (r : ClaimOrgRequest) (v : World) (token : Token) (i : ℕ)
      → auth_disabled s ≡ false
      → (require_token d s o r.authorization v).0 ≡ ok token
      → is_some token.org_id ≡ true
      → claimed i v.database ≤ s.max_orgs_per_token
      → claimed i (o.race v.database) ≤ s.max_orgs_per_token
      → claimed i (claim_org d s o r v).1.database ≤ s.max_orgs_per_token
  claim_keeps_quota r v token i e authenticated scoped before raced =
      elim (ApiResult-cases (claim_org d s o r v).0) [
        | inl (resp, h) ↦
            let (t, same, _, _, behind) = claim_org_outcome d s o r v resp e h in
            let one : t ≡ token = ok_injective (sym same ∙ authenticated) in
            elim behind.outcome [
              | inl (_, _, _, _, x) ↦
                  subst (λ db. claimed i db ≤ s.max_orgs_per_token) (sym (ap (λ y. y.1.database) x))
                    before
              | inr (within, _, (row, orgs, _, by, _, _), _) ↦
                  subst (λ os. length (keep (created_by i) os) ≤ s.max_orgs_per_token) (sym orgs)
                    (grown_within t row i (o.race v.database).orgs by within
                      (subst (λ x. is_some x.org_id ≡ true) (sym one) scoped) raced)
            ]
        | inr (x, h) ↦ elim (claim_error_leaves_nothing r v x e h) [
          | inl unchanged ↦ subst (λ db. claimed i db ≤ s.max_orgs_per_token) (sym unchanged) before
          | inr settled ↦ subst (λ db. claimed i db ≤ s.max_orgs_per_token) (sym settled) raced
        ]
      ]
