-- ===== src/Tokens/Revoke/Loop.antt =====
-- The loop of `revoke_token` of src/tokens.rs over the rows that match.
use registry_api_contract.Prelude.{
  ℕ, suc, ◌+◌, ◌≡◌, refl, sym, ap, ◌∙◌, inl, inr, Bool, true, false, not, Bool-cases, List, [], ◌∷◌,
  ◌&&◌, nat_eq, map, keep, any, is_some, length, arith, if◌then◌else◌,
}
use registry_api_contract.Anyhow.{ok}
use registry_api_contract.Db.{Uuid, Token}
use registry_api_contract.State.{Database}
use registry_api_contract.Tokens.{Tools, Surroundings}
use registry_api_contract.Tokens.Steps.{through_then}
use registry_api_contract.Tokens.Revoke.{stamp, stamp_id, update_row, revoke_all}

-- The rows that a revocation has to stamp.
abbrev pub is_pending : Token → Bool
is_pending row = not (is_some row.revoked_at)

abbrev pub is_listed : List Token → Token → Bool
is_listed rows x = any (λ r. is_pending r && nat_eq x.id r.id) rows

abbrev pub pending_count : List Token → ℕ
pending_count rows = length (keep is_pending rows)

module _ (t : Tools) (o : Surroundings) where
  abbrev pub stamp_listed : List Token → Token → Token
  stamp_listed rows x = if is_listed rows x then stamp t o x else x

  stamp_listed_nil : (xs : List Token) → map (stamp_listed []) xs ≡ xs
  stamp_listed_nil [] = refl
  stamp_listed_nil (x ∷ xs) = ap (◌∷◌ x) (stamp_listed_nil xs)

  stamp_listed_skip :
      (r : Token) (rows xs : List Token)
      → is_some r.revoked_at ≡ true
      → map (stamp_listed (r ∷ rows)) xs ≡ map (stamp_listed rows) xs
  stamp_listed_skip r rows [] e = refl
  stamp_listed_skip r rows (x ∷ xs) e = rw (e, stamp_listed_skip r rows xs e) refl

  stamp_listed_row :
      (r : Token) (rows : List Token) (x : Token)
      → is_some r.revoked_at ≡ false
      → stamp_listed rows (stamp_id t o r.id x) ≡ stamp_listed (r ∷ rows) x
  stamp_listed_row r rows x e = elim (Bool-cases (nat_eq x.id r.id)) [
    | inl same ↦ elim (Bool-cases (is_listed rows x)) [
      | inl l ↦ rw (e, same, l) refl
      | inr l ↦ rw (e, same, l) refl
    ]
    | inr other ↦ rw (e, other) refl
  ]

  stamp_listed_cons :
      (r : Token) (rows xs : List Token)
      → is_some r.revoked_at ≡ false
      → map (stamp_listed rows) (map (stamp_id t o r.id) xs) ≡ map (stamp_listed (r ∷ rows)) xs
  stamp_listed_cons r rows [] e = refl
  stamp_listed_cons r rows (x ∷ xs) e =
      ap (λ y. y ∷ map (stamp_listed rows) (map (stamp_id t o r.id) xs))
        (stamp_listed_row r rows x e)
      ∙ ap (◌∷◌ (stamp_listed (r ∷ rows) x)) (stamp_listed_cons r rows xs e)

  update_row_lem :
      (id : Uuid) (db : Database)
      → (update_row t o id db).0 ≡ ok tt
      → (update_row t o id db).1 ≡ record db { tokens = map (stamp_id t o id) db.tokens }
  unfolding update_row
  update_row_lem id db h = elim (Bool-cases (o.update_fails id)) [
    | inl e ↦ let k = rw e at h in cc
    | inr e ↦ rw e refl
  ]

  -- The table after the loop, and the count.
  abbrev pub Stamped : List Token → Database → Database → Type 0
  Stamped rows db db' = db' ≡ record db { tokens = map (stamp_listed rows) db.tokens }

  pub revoke_all_lem :
      (rows : List Token) (k n : ℕ) (db db' : Database)
      → revoke_all t o rows k db ≡ (ok n, db')
      → Stamped rows db db' × (n ≡ k + pending_count rows)
  unfolding revoke_all
  revoke_all_lem [] k n db db' h =
      let same : db ≡ db' = ap (λ x. x.1) h in
      let count : ok k ≡ ok n = ap (λ x. x.0) h in
      (
        sym same ∙ ap (λ ts. record db { tokens = ts }) (sym (stamp_listed_nil db.tokens)),
        ground arith,
      )
  revoke_all_lem (r ∷ rows) k n db db' h = elim (Bool-cases (is_some r.revoked_at)) [
    | inl e ↦
        let (s, c) = revoke_all_lem rows k n db db' (rw e at h) in
        (
          s ∙ ap (λ ts. record db { tokens = ts }) (sym (stamp_listed_skip r rows db.tokens e)),
          rw e c,
        )
    | inr e ↦
        let (u, j) = through_then (update_row t o r.id) (revoke_all t o rows (suc k)) (rw e at h) in
        let (s, c) =
          revoke_all_lem rows (suc k) n (record db { tokens = map (stamp_id t o r.id) db.tokens })
            db' (rw (← update_row_lem r.id db u) j) in
        (
          s ∙ ap (λ ts. record db { tokens = ts }) (stamp_listed_cons r rows db.tokens e),
          rw e (omega (arith, c)),
        )
  ]
