-- ===== src/Audit/Tamper.antt =====
-- What the chain of src/audit.rs says of a log that was changed behind the server's back.
use native.Mathlib.Decide.{ℕ_discrete}
use mathlib.Core.Path.{ap₂}
use registry_api_contract.Prelude.{
  String, ◌≡◌, ◌≢◌, refl, sym, ap, subst, ◌∙◌, ◌⊎◌, inl, inr, true, List, [], ◌∷◌, ◌++◌, arith,
  ◌==◌, eq_iff, keep, unwrap_or, Bool-cases, false≢true, All,
}
use registry_api_contract.Db.{AuditLog}
use registry_api_contract.Audit.{
  Hasher, AuditChainInput, is_chained, chain_input, entry_digest, expected_hash, walk, ChainReport,
  sequence_gap, verify_chain,
}
use registry_api_contract.Audit.Chain.{
  Linked, Linked-suffix, walk_of, walk_fits, onto, newest_first, head_hash, head_hash?,
  broken_report, verify_chain-intact_iff, verify_chain-Linked, onto-append,
}

String-discrete : Discrete String
String-discrete s t = elim (Bool-cases (s == t)) [
  | inl e ↦ yes ((eq_iff s t).0 e)
  | inr e ↦ no (λ p. false≢true (sym e ∙ (eq_iff s t).1 p))
]

AuditChainInput-discrete : Discrete AuditChainInput
AuditChainInput-discrete = hlevel (String-discrete, ℕ_discrete)

abbrev pub Hashed : AuditLog → Type 0
Hashed r = r.entry_hash ≢ ""

is_chained-Hashed : (r : AuditLog) → is_chained r ≡ true → Hashed r
is_chained-Hashed r h e = ground (arith, (eq_iff r.entry_hash "").1 e)

keep-Hashed : (rows : List AuditLog) → All Hashed (keep is_chained rows)
keep-Hashed [] = tt
keep-Hashed (r ∷ rows) = elim (Bool-cases (is_chained r)) [
  | inl e ↦ rw e (is_chained-Hashed r e, keep-Hashed rows)
  | inr e ↦ rw e (keep-Hashed rows)
]

onto-All :
    (P : AuditLog → Type 0) (rows older : List AuditLog)
    → All P rows
    → All P older
    → All P (onto rows older)
onto-All P [] older h k = k
onto-All P (r ∷ rows) older h k = onto-All P rows (r ∷ older) h.1 (h.0, k)

newest_first-Hashed : (rows : List AuditLog) → All Hashed (newest_first rows)
newest_first-Hashed rows = onto-All Hashed (keep is_chained rows) [] (keep-Hashed rows) tt

head_of_optional : (l : List AuditLog) → unwrap_or "" (head_hash? l) ≡ head_hash l
head_of_optional [] = refl
head_of_optional (r ∷ l) = refl

All-without :
    (P : AuditLog → Type 0) (front : List AuditLog) (row : AuditLog) (back : List AuditLog)
    → All P (front ++ row ∷ back)
    → All P (front ++ back)
All-without P [] row back a = a.1
All-without P (x ∷ front) row back a = (a.0, All-without P front row back a.1)

onto-cons :
    (rows : List AuditLog) (o : AuditLog) (older : List AuditLog)
    → (o' : AuditLog) × (older' : List AuditLog) × (onto rows (o ∷ older) ≡ o' ∷ older')
onto-cons [] o older = (o, older, refl)
onto-cons (r ∷ rows) o older = onto-cons rows r (o ∷ older)

module _ (h : Hasher) where
  -- Two different inputs with one digest.
  pub record Collision : Type 0 where
    pub left : AuditChainInput
    pub right : AuditChainInput
    pub differ : left ≢ right
    pub same_digest : entry_digest h left ≡ entry_digest h right

  -- What the hashes of a log cover, newest first.
  abbrev pub inputs : List AuditLog → List AuditChainInput
  inputs [] = []
  inputs (r ∷ older) = chain_input h r (head_hash older) ∷ inputs older

  binding :
      (xs ys : List AuditLog)
      → Linked h xs
      → Linked h ys
      → All Hashed xs
      → All Hashed ys
      → head_hash xs ≡ head_hash ys
      → (inputs xs ≡ inputs ys) ⊎ Collision
  unfolding expected_hash
  binding [] [] lx ly hx hy e = inl refl
  binding [] (y ∷ ys) lx ly hx hy e = absurd (hy.0 (sym e))
  binding (x ∷ xs) [] lx ly hx hy e = absurd (hx.0 e)
  binding (x ∷ xs) (y ∷ ys) lx ly hx hy e =
      let older = binding xs ys lx.2 ly.2 hx.1 hy.1 in
      elim (AuditChainInput-discrete (chain_input h x (head_hash xs))
        (chain_input h y (head_hash ys))) [
          | yes p ↦ elim (older (ap (λ (i : AuditChainInput). i.prev_hash) p)) [
            | inl q ↦ inl (ap₂ ◌∷◌ p q)
            | inr c ↦ inr c
          ]
          | no p ↦ inr (record {
            left = chain_input h x (head_hash xs);
            right = chain_input h y (head_hash ys);
            differ = p;
            same_digest = lx.0 ∙ e ∙ sym ly.0;
          })
        ]

  -- An externally recorded head hash pins the whole log: two logs that both verify with the same
  -- head agree in every field that the hashes cover, from the newest entry to the first, or they
  -- exhibit two different inputs with the same digest.
  pub head_hash_binding :
      (rows rows' : List AuditLog)
      → (verify_chain h rows).intact ≡ true
      → (verify_chain h rows').intact ≡ true
      → (verify_chain h rows).head_hash ≡ (verify_chain h rows').head_hash
      → (inputs (newest_first rows) ≡ inputs (newest_first rows')) ⊎ Collision
  head_hash_binding rows rows' i i' e =
      let l = (verify_chain-intact_iff h rows).0 i in
      let l' = (verify_chain-intact_iff h rows').0 i' in
      let head = ap (λ (r : ChainReport). r.head_hash) (verify_chain-Linked h rows l) in
      let head' = ap (λ (r : ChainReport). r.head_hash) (verify_chain-Linked h rows' l') in
      binding (newest_first rows) (newest_first rows') l l' (newest_first-Hashed rows)
        (newest_first-Hashed rows')
        (sym (head_of_optional (newest_first rows))
          ∙ ap (unwrap_or "") (sym head ∙ e ∙ head')
          ∙ head_of_optional (newest_first rows'))

  walk_front :
      (front older rest : List AuditLog)
      → Linked h (onto front older)
      → walk h (walk_of older) (front ++ rest) ≡ walk h (walk_of (onto front older)) rest
  walk_front [] older rest l = refl
  walk_front (r ∷ front) older rest l =
      walk_fits h older r (front ++ rest) (Linked-suffix h front (r ∷ older) l)
      ∙ walk_front front (r ∷ older) rest l

  walk_after_gap :
      (older : List AuditLog) (o row next : AuditLog) (rest back : List AuditLog)
      → older ≡ o ∷ rest
      → Linked h (next ∷ row ∷ older)
      → walk h (walk_of older) (next ∷ back) ≡ broken_report h older sequence_gap row.seq
  unfolding walk
  walk_after_gap [] o row next rest back e l = cc
  walk_after_gap (o' ∷ older) o row next rest back e l = ground arith

  keep-All :
      (rows : List AuditLog) → All (λ r. is_chained r ≡ true) rows → keep is_chained rows ≡ rows
  keep-All [] a = refl
  keep-All (r ∷ rows) a = rw (a.0, keep-All rows a.1)

  -- Deleting an entry from the middle of a log that verifies is reported as a gap at the position of
  -- the deleted entry, with the entries before it counted as intact.
  pub deletion_detected :
      (first : AuditLog) (front : List AuditLog) (row next : AuditLog) (back : List AuditLog)
      → All (λ r. is_chained r ≡ true) (first ∷ front ++ row ∷ next ∷ back)
      → (verify_chain h (first ∷ front ++ row ∷ next ∷ back)).intact ≡ true
      → verify_chain h (first ∷ front ++ next ∷ back)
        ≡ broken_report h (onto front (first ∷ [])) sequence_gap row.seq
  unfolding verify_chain
  deletion_detected first front row next back a i =
      let before = onto front (first ∷ []) in
      let rows = first ∷ front ++ row ∷ next ∷ back in
      let linked : Linked h (onto back (next ∷ row ∷ before)) =
        subst (Linked h)
          (ap (λ rs. onto rs []) (keep-All rows a)
            ∙ onto-append h front (row ∷ next ∷ back) (first ∷ []))
          ((verify_chain-intact_iff h rows).0 i) in
      let l = Linked-suffix h back (next ∷ row ∷ before) linked in
      let (o, rest, e) = onto-cons front first [] in
      rw
        (keep-All (first ∷ front ++ next ∷ back)
          (All-without _ (first ∷ front) row (next ∷ back) a))
        (walk_front (first ∷ front) [] (next ∷ back) l.2.2
          ∙ walk_after_gap before o row next rest back e l)
