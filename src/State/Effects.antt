-- ===== src/State/Effects.antt =====
-- The laws of the handlers of src/routes/ as a whole: what a handler that answers went through, and
-- what is left by one that is built of parts.
use registry_api_contract.Prelude.{
  ◌≡◌, refl, ap, ◌∙◌, ◌⊎◌, inl, inr, Bool, true, false, List, [], ◌∷◌, ◌++◌, any, if◌then◌else◌,
  Bool-cases,
}
use registry_api_contract.Error.{ApiErr, ApiResult, ok, err}
use registry_api_contract.Db.{DbResult, done, failed, fault, insert_row}
use registry_api_contract.State.{
  World, Database, Handler, ◌>>=◌, after, settled, transaction, lift, meanwhile, require, query,
}

-- A handler that answers went on from an answer of its first part: what holds of every such answer of
-- the second holds of the whole.
pub through :
    {A B : Type 0} (P : ApiResult B × World → Type 0) (m : Handler A) (f : A → Handler B)
    {w : World} {b : B}
    → ((m >>= f) w).0 ≡ ok b
    → ((a : A) → (m w).0 ≡ ok a → (f a (m w).1).0 ≡ ok b → P (f a (m w).1))
    → P ((m >>= f) w)
unfolding ◌>>=◌
through {A = A} {B = B} P m f {w = w} {b = b} h k = go (m w).0 refl h
  where
    go : (r : ApiResult A) → (m w).0 ≡ r → (after f r (m w).1).0 ≡ ok b → P (after f r (m w).1)
    go (ok a) e j = k a e j
    go (err x) e j = cc

pub through_query :
    {A B : Type 0} (P : ApiResult B × World → Type 0) (fails : Bool) (q : Database → A)
    (f : A → Handler B) {w : World} {b : B}
    → ((query fails q >>= f) w).0 ≡ ok b
    → ((f (q w.database) w).0 ≡ ok b → P (f (q w.database) w))
    → P ((query fails q >>= f) w)
unfolding ◌>>=◌ query
through_query P false q f h k = k h
through_query P true q f h k = cc

pub through_require :
    {B : Type 0} (P : ApiResult B × World → Type 0) (c : Bool) (e : ApiErr)
    (f : Unit {0} → Handler B) {w : World} {b : B}
    → ((require c e >>= f) w).0 ≡ ok b
    → (c ≡ true → (f tt w).0 ≡ ok b → P (f tt w))
    → P ((require c e >>= f) w)
unfolding ◌>>=◌ require
through_require P true e f h k = k refl h
through_require P false e f h k = cc

pub through_lift :
    {A B : Type 0} (P : ApiResult B × World → Type 0) (r : ApiResult A) (f : A → Handler B)
    {w : World} {b : B}
    → ((lift r >>= f) w).0 ≡ ok b
    → ((a : A) → r ≡ ok a → (f a w).0 ≡ ok b → P (f a w))
    → P ((lift r >>= f) w)
unfolding ◌>>=◌
through_lift P (ok a) f h k = k a refl h
through_lift P (err e) f h k = cc

-- `m` relates the world before and after it by `R`.
pub record Keeps {A : Type 0} (R : World → World → Type 0) (m : Handler A) : Type 0 where
  pub kept : (w : World) → R w (m w).1

-- `m` does so when it ends in an error.
pub record OnError {A : Type 0} (R : World → World → Type 0) (m : Handler A) : Type 0 where
  pub left : (w : World) (e : ApiErr) → (m w).0 ≡ err e → R w (m w).1

pub Keeps->>= :
    {A B : Type 0} {R : World → World → Type 0} (trans : (u v w : World) → R u v → R v w → R u w)
    {m : Handler A} {f : A → Handler B}
    → Keeps R m
    → ((a : A) → Keeps R (f a))
    → Keeps R (m >>= f)
unfolding ◌>>=◌
Keeps->>= {A = A} {B = B} {R = R} trans {m = m} {f = f} km kf = record { kept = λ w. go w (m w).0 }
  where
    go : (w : World) (r : ApiResult A) → R w (after f r (m w).1).1
    go w (ok a) = trans w (m w).1 (f a (m w).1).1 (km.kept w) ((kf a).kept (m w).1)
    go w (err e) = km.kept w

-- Errors of the second part are its own, errors of the first part leave what it leaves.
pub OnError->>= :
    {A B : Type 0} {S R : World → World → Type 0} (trans : (u v w : World) → S u v → R v w → R u w)
    (weaken : (u v : World) → S u v → R u v) {m : Handler A} {f : A → Handler B}
    → Keeps S m
    → ((a : A) → OnError R (f a))
    → OnError R (m >>= f)
unfolding ◌>>=◌
OnError->>= {A = A} {R = R} trans weaken {m = m} {f = f} km kf = record {
  left = λ w e h. go w e (m w).0 h;
}
  where
    go :
        (w : World) (e : ApiErr) (r : ApiResult A)
        → (after f r (m w).1).0 ≡ err e
        → R w (after f r (m w).1).1
    go w e (ok a) k = trans w (m w).1 (f a (m w).1).1 (km.kept w) ((kf a).left (m w).1 e k)
    go w e (err x) k = weaken w (m w).1 (km.kept w)

-- A last part that never fails leaves the errors to the first.
pub OnError-last :
    {A B : Type 0} {R : World → World → Type 0} {m : Handler A} (f : A → Handler B)
    → OnError R m
    → ((a : A) (w : World) → (b : B) × ((f a w).0 ≡ ok b))
    → OnError R (m >>= f)
unfolding ◌>>=◌
OnError-last {A = A} {R = R} {m = m} f om total = record { left = λ w e h. go w e (m w).0 refl h }
  where
    go :
        (w : World) (e : ApiErr) (r : ApiResult A)
        → (m w).0 ≡ r
        → (after f r (m w).1).0 ≡ err e
        → R w (after f r (m w).1).1
    go w e (ok a) q k = let (b, t) = total a (m w).1 in cc
    go w e (err x) q k = om.left w x q

abbrev pub SameDatabase : World → World → Type 0
SameDatabase v w = w.database ≡ v.database

pub SameDatabase-trans : (u v w : World) → SameDatabase u v → SameDatabase v w → SameDatabase u w
SameDatabase-trans u v w a b = b ∙ a

abbrev pub Unchanged : World → World → Type 0
Unchanged v w = w ≡ v

pub Unchanged-trans : (u v w : World) → Unchanged u v → Unchanged v w → Unchanged u w
Unchanged-trans u v w a b = b ∙ a

pub Keeps-database : {A : Type 0} {m : Handler A} → Keeps Unchanged m → Keeps SameDatabase m
Keeps-database k = record { kept = λ w. ap (λ x. x.database) (k.kept w) }

pub lift-Keeps : {A : Type 0} (r : ApiResult A) → Keeps Unchanged (lift r)
lift-Keeps r = record { kept = λ w. refl }

pub query-Keeps : {A : Type 0} (fails : Bool) (f : Database → A) → Keeps Unchanged (query fails f)
unfolding query
query-Keeps fails f = record { kept = λ w. refl }

pub require-Keeps : (c : Bool) (e : ApiErr) → Keeps Unchanged (require c e)
unfolding require
require-Keeps c e = record { kept = λ w. refl }

-- The database holds what it held, or what the other requests made of that, and nothing else.
abbrev pub Settled : (Database → Database) → World → World → Type 0
Settled race v w = SameDatabase v w ⊎ (w.database ≡ race v.database)

pub Settled-trans :
    (race : Database → Database) (u v w : World)
    → SameDatabase u v
    → Settled race v w
    → Settled race u w
Settled-trans race u v w a (inl b) = inl (b ∙ a)
Settled-trans race u v w a (inr b) = inr (b ∙ ap race a)

pub Settled-weaken :
    (race : Database → Database) (u v : World) → SameDatabase u v → Settled race u v
Settled-weaken race u v a = inl a

-- A part that leaves the world alone hands on the world that it was given.
pub through_kept :
    {A B : Type 0} (P : ApiResult B × World → Type 0) {m : Handler A} (f : A → Handler B)
    {w : World} {b : B}
    → Keeps Unchanged m
    → ((m >>= f) w).0 ≡ ok b
    → ((a : A) → (m w).0 ≡ ok a → (f a w).0 ≡ ok b → P (f a w))
    → P ((m >>= f) w)
through_kept P {m = m} f {w = w} kept h k =
    through P m f h λ a e j. rw (kept.kept w) (k a e (rw (kept.kept w) at j))

pub through_meanwhile :
    {B : Type 0} (P : ApiResult B × World → Type 0) (race : Database → Database)
    (f : Unit {0} → Handler B) {w : World} {b : B}
    → ((meanwhile race >>= f) w).0 ≡ ok b
    → ((f tt (record w { database = race w.database })).0 ≡ ok b
        → P (f tt (record w { database = race w.database })))
    → P ((meanwhile race >>= f) w)
unfolding ◌>>=◌
through_meanwhile P race f h k = k h

-- A transaction that ends in an error leaves the database as it found it.
pub transaction_rolls_back : {A : Type 0} (m : Handler A) → OnError SameDatabase (transaction m)
unfolding transaction
transaction_rolls_back {A = A} m = record { left = λ w e h. go w e (m w).0 (m w).1 h }
  where
    go :
        (w : World) (e : ApiErr) (r : ApiResult A) (v : World)
        → (settled w.database (r, v)).0 ≡ err e
        → (settled w.database (r, v)).1.database ≡ w.database
    go w e (ok a) v k = cc
    go w e (err x) v k = refl

-- A statement that answers was not failed by the database.
pub unfailed :
    {A : Type 0} (c : Bool) (x : DbResult A) {a : A}
    → (if c then failed fault else x) ≡ done a
    → x ≡ done a
unfailed true x h = cc
unfailed false x h = h

pub insert_row_done :
    {R : Type 0} (clashes : R → R → Bool) (r : R) (rows after : List R)
    → insert_row clashes r rows ≡ done after
    → (any (clashes r) rows ≡ false) × (after ≡ rows ++ r ∷ [])
insert_row_done clashes r rows after h = elim (Bool-cases (any (clashes r) rows)) [
  | inl e ↦ let k = rw e at h in cc
  | inr e ↦ let k = rw e at h in (e, cc)
]

pub transaction_ok :
    {A : Type 0} (m : Handler A) (w : World) {a : A}
    → (transaction m w).0 ≡ ok a
    → ((m w).0 ≡ ok a) × (transaction m w ≡ m w)
unfolding transaction
transaction_ok {A = A} m w {a = a} h = go (m w).0 (m w).1 h
  where
    go :
        (r : ApiResult A) (v : World)
        → (settled w.database (r, v)).0 ≡ ok a
        → (r ≡ ok a) × (settled w.database (r, v) ≡ (r, v))
    go (ok b) v k = (k, refl)
    go (err e) v k = cc
