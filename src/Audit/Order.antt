-- ===== src/Audit/Order.antt =====
-- `ORDER BY seq` of the queries over an organisation's log.
use registry_api_contract.Prelude.{
  ◌≤◌, ◌+◌, Bool-cases, inl, inr, All-mono, ℕ, ◌<◌, ◌≡◌, refl, Option, none, some, List, [], ◌∷◌,
  ◌++◌, leb, if◌then◌else◌, All, arith,
}
use registry_api_contract.Db.{AuditLog}

abbrev pub last {ℓ} : {A : Type ℓ} → List A → Option A
last [] = none
last (x ∷ []) = some x
last (x ∷ y ∷ l) = last (y ∷ l)

unfoldable pub insert_by_seq : AuditLog → List AuditLog → List AuditLog
insert_by_seq r [] = r ∷ []
insert_by_seq r (x ∷ rows) =
    let rest = insert_by_seq r rows in if leb r.seq x.seq then r ∷ x ∷ rows else x ∷ rest

-- Ascending; the last of it is what `ORDER BY seq DESC LIMIT 1` returns.
unfoldable pub order_by_seq : List AuditLog → List AuditLog
unfolding insert_by_seq
order_by_seq [] = []
order_by_seq (r ∷ rows) = insert_by_seq r (order_by_seq rows)

abbrev pub Below : ℕ → List AuditLog → Type 0
Below n = All (λ r. r.seq < n)

pub last-append {ℓ} : {A : Type ℓ} (l : List A) (x : A) → last (l ++ x ∷ []) ≡ some x
last-append [] x = refl
last-append (y ∷ []) x = refl
last-append (y ∷ z ∷ l) x = last-append (z ∷ l) x

-- The position that an append counts from.
abbrev pub tip_seq : Option AuditLog → ℕ
tip_seq none = 0
tip_seq (some t) = t.seq

insert_by_seq-append :
    (r x : AuditLog) (rows : List AuditLog)
    → r.seq < x.seq
    → insert_by_seq r (rows ++ x ∷ []) ≡ insert_by_seq r rows ++ x ∷ []
unfolding insert_by_seq
insert_by_seq-append r x [] h = ground arith
insert_by_seq-append r x (y ∷ rows) h = ground (arith, insert_by_seq-append r x rows h)

-- A row above all others is the last in order, and leaves the order of the others alone.
pub order_by_seq-append :
    (x : AuditLog) (rows : List AuditLog)
    → Below x.seq rows
    → order_by_seq (rows ++ x ∷ []) ≡ order_by_seq rows ++ x ∷ []
unfolding order_by_seq
order_by_seq-append x [] h = refl
order_by_seq-append x (r ∷ rows) h =
    rw (order_by_seq-append x rows h.1) (insert_by_seq-append r x (order_by_seq rows) h.0)

abbrev IsSorted : List AuditLog → Type 0
IsSorted [] = Unit {0}
IsSorted (x ∷ l) = All (λ y. x.seq ≤ y.seq) l × IsSorted l

insert_by_seq-All :
    (P : AuditLog → Type 0) (r : AuditLog) (l : List AuditLog)
    → P r
    → All P l
    → All P (insert_by_seq r l)
unfolding insert_by_seq
insert_by_seq-All P r [] p h = (p, tt)
insert_by_seq-All P r (x ∷ l) p h = elim (Bool-cases (leb r.seq x.seq)) [
  | inl e ↦ rw e (p, h)
  | inr e ↦ rw e (h.0, insert_by_seq-All P r l p h.1)
]

insert_by_seq-IsSorted :
    (r : AuditLog) (l : List AuditLog) → IsSorted l → IsSorted (insert_by_seq r l)
unfolding insert_by_seq
insert_by_seq-IsSorted r [] s = (tt, tt)
insert_by_seq-IsSorted r (x ∷ l) s = elim (Bool-cases (leb r.seq x.seq)) [
  | inl e ↦
      let below : r.seq ≤ x.seq = ground arith in
      rw e ((below, All-mono _ _ l (λ y (p : x.seq ≤ y.seq). omega arith) s.0), s)
  | inr e ↦
      let above : x.seq ≤ r.seq = ground arith in
      rw e (insert_by_seq-All _ r l above s.0, insert_by_seq-IsSorted r l s.1)
]

order_by_seq-IsSorted : (rows : List AuditLog) → IsSorted (order_by_seq rows)
unfolding order_by_seq
order_by_seq-IsSorted [] = tt
order_by_seq-IsSorted (r ∷ rows) =
    insert_by_seq-IsSorted r (order_by_seq rows) (order_by_seq-IsSorted rows)

bounded_by_last : (l : List AuditLog) → IsSorted l → All (λ y. y.seq ≤ tip_seq (last l)) l
bounded_by_last [] s = tt
bounded_by_last (x ∷ []) s = (omega arith, tt)
bounded_by_last (x ∷ y ∷ l) s =
    let rest = bounded_by_last (y ∷ l) s.1 in
    let first : x.seq ≤ tip_seq (last (y ∷ l)) = omega arith in (first, rest)

from_insert :
    (P : AuditLog → Type 0) (r : AuditLog) (l : List AuditLog)
    → All P (insert_by_seq r l)
    → P r × All P l
unfolding insert_by_seq
from_insert P r [] h = (h.0, tt)
from_insert P r (x ∷ l) h = elim (Bool-cases (leb r.seq x.seq)) [
  | inl e ↦ let k : All P (r ∷ x ∷ l) = rw e at h in (k.0, k.1)
  | inr e ↦
      let k : All P (x ∷ insert_by_seq r l) = rw e at h in
      let (p, q) = from_insert P r l k.1 in (p, (k.0, q))
]

pub from_order_by_seq :
    (P : AuditLog → Type 0) (rows : List AuditLog) → All P (order_by_seq rows) → All P rows
unfolding order_by_seq
from_order_by_seq P [] h = tt
from_order_by_seq P (r ∷ rows) h =
    let (p, q) = from_insert P r (order_by_seq rows) h in (p, from_order_by_seq P rows q)

-- No row stands above the last in order.
pub tip_seq_bounds : (rows : List AuditLog) → Below (tip_seq (last (order_by_seq rows)) + 1) rows
tip_seq_bounds rows =
    All-mono _ _ rows (λ y (p : y.seq ≤ tip_seq (last (order_by_seq rows))). omega arith)
      (from_order_by_seq _ rows (bounded_by_last (order_by_seq rows) (order_by_seq-IsSorted rows)))
