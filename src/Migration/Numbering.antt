-- ===== src/Migration/Numbering.antt =====
-- The numbers that migration/src/m20260726_000008_audit_chain.rs gives to the rows from before the chain.
use registry_api_contract.Prelude.{
  ℕ, ◌<◌, ◌≤◌, ◌≡◌, ◌≢◌, refl, sym, ap, ◌∙◌, ◌⊎◌, inl, inr, Bool, true, false, Bool-cases, List, [],
  ◌∷◌, nat_eq, ltb, keep, length, In, In-map_inv, arith,
}
use registry_api_contract.Db.{AuditLog}
use registry_api_contract.Migration.{is_earlier, numbered, legacy_seq, backfill_legacy_seq}

-- An entry's identifier is its primary key.
abbrev pub IdsUnique : List AuditLog → Type 0
IdsUnique rows = (a b : AuditLog) → In a rows → In b rows → a.id ≡ b.id → a ≡ b

-- Recorded before: by time, and by identifier at the same time.
abbrev pub Precedes : AuditLog → AuditLog → Type 0
Precedes a b = (a.at < b.at) ⊎ ((a.at ≡ b.at) × (a.id < b.id))

count_mono :
    {A : Type 0} (p q : A → Bool) (xs : List A)
    → ((x : A) → p x ≡ true → q x ≡ true)
    → length (keep p xs) ≤ length (keep q xs)
count_mono p q [] h = omega arith
count_mono p q (x ∷ xs) h = ground (arith, h x, count_mono p q xs h)

count_lt :
    {A : Type 0} (p q : A → Bool) (xs : List A) (b : A)
    → ((x : A) → p x ≡ true → q x ≡ true)
    → In b xs
    → p b ≡ false
    → q b ≡ true
    → length (keep p xs) < length (keep q xs)
count_lt p q [] b h i n y = elim i [ ]
count_lt p q (x ∷ xs) b h (inl e) n y =
    rw (← e) (rw (n, y) (let k = count_mono p q xs h in omega (arith, k)))
count_lt p q (x ∷ xs) b h (inr i) n y = ground (arith, h x, count_lt p q xs b h i n y)

earlier_trans :
    (a b x : AuditLog)
    → a.org_id ≡ b.org_id
    → Precedes a b
    → is_earlier a x ≡ true
    → is_earlier b x ≡ true
unfolding is_earlier
earlier_trans a b x o (inl t) h = ground arith
earlier_trans a b x o (inr (t, i)) h = ground arith

later_not_earlier : (a b : AuditLog) → Precedes a b → is_earlier a b ≡ false
unfolding is_earlier
later_not_earlier a b (inl t) = ground arith
later_not_earlier a b (inr (t, i)) = ground arith

earlier_refl : (a : AuditLog) → is_earlier a a ≡ true
unfolding is_earlier
earlier_refl a = ground arith

legacy_seq-lt :
    (rows : List AuditLog) (a b : AuditLog)
    → In b rows
    → a.org_id ≡ b.org_id
    → Precedes a b
    → legacy_seq rows a < legacy_seq rows b
unfolding legacy_seq
legacy_seq-lt rows a b i o p =
    count_lt (is_earlier a) (is_earlier b) rows b (λ x. earlier_trans a b x o p) i
      (later_not_earlier a b p) (earlier_refl b)

Precedes-total : (a b : AuditLog) → a.id ≢ b.id → Precedes a b ⊎ Precedes b a
Precedes-total a b n = elim (Bool-cases (ltb a.at b.at)) [
  | inl e ↦ inl (inl (ground arith))
  | inr e ↦ elim (Bool-cases (ltb b.at a.at)) [
    | inl f ↦ inr (inl (ground arith))
    | inr f ↦ elim (Bool-cases (ltb a.id b.id)) [
      | inl g ↦ inl (inr (ground arith, ground arith))
      | inr g ↦ inr (inr (ground arith, ground (arith, n)))
    ]
  ]
]

-- The rows of an organisation.
abbrev pub of_org : ℕ → AuditLog → Bool
of_org org row = nat_eq row.org_id org

-- What a table that has been numbered satisfies, by the table it was.
pub record Numbered (rows after : List AuditLog) : Type 0 where
  pub kept :
      (r : AuditLog) → In r after → (x : AuditLog) × In x rows × (r ≡ record x { seq = r.seq })
  pub distinct :
      (r s : AuditLog) → In r after → In s after → r.org_id ≡ s.org_id → r.seq ≡ s.seq → r ≡ s
  pub ordered :
      (r s : AuditLog)
      → In r after
      → In s after
      → r.org_id ≡ s.org_id
      → Precedes r s
      → r.seq < s.seq
  pub ranged :
      (r : AuditLog) → In r after → (1 ≤ r.seq) × (r.seq ≤ length (keep (of_org r.org_id) rows))

earlier_of_org : (a x : AuditLog) → is_earlier a x ≡ true → of_org a.org_id x ≡ true
unfolding is_earlier
earlier_of_org a x h = ground arith

positive_count :
    {A : Type 0} (p : A → Bool) (xs : List A) (x : A)
    → In x xs
    → p x ≡ true
    → 1 ≤ length (keep p xs)
positive_count p [] x i h = elim i [ ]
positive_count p (y ∷ xs) x (inl e) h = rw (← e) (rw h (omega arith))
positive_count p (y ∷ xs) x (inr i) h = ground (arith, positive_count p xs x i h)

legacy_seq_range :
    (rows : List AuditLog) (a : AuditLog)
    → In a rows
    → (1 ≤ legacy_seq rows a) × (legacy_seq rows a ≤ length (keep (of_org a.org_id) rows))
unfolding legacy_seq
legacy_seq_range rows a i = (
  positive_count (is_earlier a) rows a i (earlier_refl a),
  count_mono (is_earlier a) (of_org a.org_id) rows (earlier_of_org a),
)

legacy_seq_distinct :
    (rows : List AuditLog) (a b : AuditLog)
    → IdsUnique rows
    → In a rows
    → In b rows
    → a.org_id ≡ b.org_id
    → legacy_seq rows a ≡ legacy_seq rows b
    → a ≡ b
legacy_seq_distinct rows a b unique i j o e = elim (Bool-cases (nat_eq a.id b.id)) [
  | inl same ↦ unique a b i j (ground arith)
  | inr other ↦ elim (Precedes-total a b (ground arith)) [
    | inl p ↦ absurd (omega (arith, e, legacy_seq-lt rows a b j o p))
    | inr p ↦ absurd (omega (arith, e, legacy_seq-lt rows b a i (sym o) p))
  ]
]

-- The numbering that runs before the unique index over organisation and position is made: it changes nothing of a
-- row but its position; within an organisation no two rows have the same position, so the index can be made; rows
-- recorded earlier, by time and then by identifier, have smaller positions; and positions start at 1 and do not
-- pass the number of the organisation's rows. Identifiers are taken to be unique, as the primary key demands.
pub backfill_legacy_seq-Numbered :
    (rows : List AuditLog) → IdsUnique rows → Numbered rows (backfill_legacy_seq rows)
unfolding backfill_legacy_seq
backfill_legacy_seq-Numbered rows unique = record {
  kept = λ r i. let (x, j, e) = In-map_inv (numbered rows) rows r i in (x, j, rw e refl);
  distinct = λ r s i j o q.
      let (x, k, e) = In-map_inv (numbered rows) rows r i in
      let (y, l, f) = In-map_inv (numbered rows) rows s j in
      let org : x.org_id ≡ y.org_id = sym (ap (λ z. z.org_id) e) ∙ o ∙ ap (λ z. z.org_id) f in
      let seq : legacy_seq rows x ≡ legacy_seq rows y =
        sym (ap (λ z. z.seq) e) ∙ q ∙ ap (λ z. z.seq) f in
      e ∙ ap (numbered rows) (legacy_seq_distinct rows x y unique k l org seq) ∙ sym f;
  ordered = λ r s i j o p.
      let (x, k, e) = In-map_inv (numbered rows) rows r i in
      let (y, l, f) = In-map_inv (numbered rows) rows s j in
      rw (e, f)
        (legacy_seq-lt rows x y l (sym (ap (λ z. z.org_id) e) ∙ o ∙ ap (λ z. z.org_id) f)
          (rw (e, f) at p));
  ranged = λ r i.
      let (x, k, e) = In-map_inv (numbered rows) rows r i in rw e (legacy_seq_range rows x k);
}
