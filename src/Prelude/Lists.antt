-- ===== src/Prelude/Lists.antt =====
-- Lists measured by native numbers, quantifiers over them, and filters by Boolean tests.
use Prim.Native.Nat.{ℕ, zero, suc, ◌+◌, ◌≤◌, min}
use mathlib.Core.Path.{◌≡◌, refl, sym, ap, subst}
use mathlib.Core.Logic.{◌⊎◌, inl, inr}
use mathlib.Core.Bool.{Bool, true, false, ◌&&◌, ◌||◌, false≢true}
use mathlib.Core.Option.{Option, none, some}
use mathlib.Core.List.{List, [], ◌∷◌, ◌++◌, map}
use native.Mathlib.Omega.{arith}
use registry_api_contract.Prelude.Tests.{if◌then◌else◌, Bool-cases}

module _ {ℓ} {A : Type ℓ} where
  abbrev pub length : List A → ℕ
  length [] = 0
  length (x ∷ xs) = suc (length xs)

  abbrev pub take : ℕ → List A → List A
  take zero xs = []
  take (suc n) [] = []
  take (suc n) (x ∷ xs) = x ∷ take n xs

  abbrev pub drop : ℕ → List A → List A
  drop zero xs = xs
  drop (suc n) [] = []
  drop (suc n) (x ∷ xs) = drop n xs

  abbrev pub replicate : ℕ → A → List A
  replicate zero a = []
  replicate (suc n) a = a ∷ replicate n a

  -- `iter().any(p)` and `iter().all(p)`
  abbrev pub any : (A → Bool) → List A → Bool
  any p [] = false
  any p (x ∷ xs) = p x || any p xs

  abbrev pub all : (A → Bool) → List A → Bool
  all p [] = true
  all p (x ∷ xs) = p x && all p xs

  -- `iter().find(p)`
  abbrev pub find : (A → Bool) → List A → Option A
  find p [] = none
  find p (x ∷ xs) = if p x then some x else find p xs

  -- `iter().filter(p).collect()`
  abbrev pub keep : (A → Bool) → List A → List A
  keep p [] = []
  keep p (x ∷ xs) = if p x then x ∷ keep p xs else keep p xs

-- Membership by recursion.
abbrev pub In : {A : Type 0} → A → List A → Type 0
In a [] = ⊥
In a (x ∷ xs) = (a ≡ x) ⊎ In a xs

-- Every element satisfies a predicate.
abbrev pub All : {A : Type 0} → (A → Type 0) → List A → Type 0
All P [] = Unit {0}
All P (x ∷ xs) = P x × All P xs

module _ {A : Type 0} where
  pub All-In : (P : A → Type 0) (xs : List A) (a : A) → All P xs → In a xs → P a
  All-In P [] a h m = elim m [ ]
  All-In P (x ∷ xs) a h (inl e) = subst P (sym e) h.0
  All-In P (x ∷ xs) a h (inr m) = All-In P xs a h.1 m

  pub All-mono : (P Q : A → Type 0) (xs : List A) → ((a : A) → P a → Q a) → All P xs → All Q xs
  All-mono P Q [] f h = tt
  All-mono P Q (x ∷ xs) f h = (f x h.0, All-mono P Q xs f h.1)

  pub All-of_all : (p : A → Bool) (xs : List A) → all p xs ≡ true → All (λ a. p a ≡ true) xs
  All-of_all p [] h = tt
  All-of_all p (x ∷ xs) h = elim (Bool-cases (p x)) [
    | inl e ↦ (e, All-of_all p xs (rw e at h))
    | inr e ↦ absurd (false≢true (rw e at h))
  ]

  pub all_of_All : (p : A → Bool) (xs : List A) → All (λ a. p a ≡ true) xs → all p xs ≡ true
  all_of_All p [] h = refl
  all_of_All p (x ∷ xs) h = rw h.0 (all_of_All p xs h.1)

  pub In-append_right : (a : A) (xs ys : List A) → In a ys → In a (xs ++ ys)
  In-append_right a [] ys m = m
  In-append_right a (x ∷ xs) ys m = inr (In-append_right a xs ys m)

  pub In-append_left : (a : A) (xs ys : List A) → In a xs → In a (xs ++ ys)
  In-append_left a (x ∷ xs) ys (inl e) = inl e
  In-append_left a (x ∷ xs) ys (inr m) = inr (In-append_left a xs ys m)
  In-append_left a [] ys m = elim m [ ]

  pub any_of-In : (p : A → Bool) (xs : List A) (a : A) → In a xs → p a ≡ true → any p xs ≡ true
  any_of-In p [] a m h = elim m [ ]
  any_of-In p (x ∷ xs) a (inl e) h = let hit : p x ≡ true = subst (λ y. p y ≡ true) e h in rw hit
  any_of-In p (x ∷ xs) a (inr m) h = ground (arith, any_of-In p xs a m h)

  pub all_of-In : (p : A → Bool) (xs : List A) (a : A) → all p xs ≡ true → In a xs → p a ≡ true
  all_of-In p [] a h m = elim m [ ]
  all_of-In p (x ∷ xs) a h (inl e) = subst (λ y. p y ≡ true) (sym e) (ground arith)
  all_of-In p (x ∷ xs) a h (inr m) = all_of-In p xs a (ground arith) m

  pub In-keep : (p : A → Bool) (xs : List A) (a : A) → In a xs → p a ≡ true → In a (keep p xs)
  In-keep p [] a m h = elim m [ ]
  In-keep p (x ∷ xs) a (inl e) h =
      let hit : p x ≡ true = subst (λ y. p y ≡ true) e h in rw hit (inl e)
  In-keep p (x ∷ xs) a (inr m) h = elim (Bool-cases (p x)) [
    | inl e ↦ rw e (inr (In-keep p xs a m h))
    | inr e ↦ rw e (In-keep p xs a m h)
  ]

  pub keep-In : (p : A → Bool) (xs : List A) (a : A) → In a (keep p xs) → In a xs × (p a ≡ true)
  keep-In p [] a m = elim m [ ]
  keep-In p (x ∷ xs) a m = elim (Bool-cases (p x)) [
    | inl e ↦ split e (keep-In p xs a) (rw e at m)
    | inr e ↦ let (there, h) = keep-In p xs a (rw e at m) in (inr there, h)
  ]
    where
      split :
          p x ≡ true
          → (In a (keep p xs) → In a xs × (p a ≡ true))
          → In a (x ∷ keep p xs)
          → In a (x ∷ xs) × (p a ≡ true)
      split e rest (inl here) = (inl here, subst (λ y. p y ≡ true) (sym here) e)
      split e rest (inr there) = let (t, h) = rest there in (inr t, h)

module _ {ℓ} {A : Type ℓ} where
  pub length-append : (xs ys : List A) → length (xs ++ ys) ≡ length xs + length ys
  length-append [] ys = omega arith
  length-append (x ∷ xs) ys = omega (arith, length-append xs ys)

  pub take_of_length-le : (n : ℕ) (xs : List A) → length xs ≤ n → take n xs ≡ xs
  take_of_length-le (suc n) (x ∷ xs) h = ap (◌∷◌ x) (take_of_length-le n xs (omega arith))
  take_of_length-le (suc n) [] h = refl
  take_of_length-le zero [] h = refl
  take_of_length-le zero (x ∷ xs) h = absurd (omega arith)

  pub length-take : (n : ℕ) (xs : List A) → length (take n xs) ≡ min n (length xs)
  length-take zero xs = omega arith
  length-take (suc n) [] = omega arith
  length-take (suc n) (x ∷ xs) = omega (arith, length-take n xs)

  pub length-replicate : (n : ℕ) (a : A) → length (replicate n a) ≡ n
  length-replicate zero a = refl
  length-replicate (suc n) a = ap suc (length-replicate n a)

  pub length-keep : (p : A → Bool) (xs : List A) → length (keep p xs) ≤ length xs
  length-keep p [] = omega arith
  length-keep p (x ∷ xs) = ground (arith, length-keep p xs)

pub find-some :
    {A : Type 0} (p : A → Bool) (xs : List A) (x : A) → find p xs ≡ some x → In x xs × (p x ≡ true)
find-some p [] x h = cc
find-some p (y ∷ ys) x h = elim (Bool-cases (p y)) [
  | inl e ↦ let k = rw e at h in let same : y ≡ x = cc in (inl (sym same), rw (sym same) e)
  | inr e ↦ let k = rw e at h in let (i, t) = find-some p ys x k in (inr i, t)
]

pub find-of_In :
    {A : Type 0} (p : A → Bool) (xs : List A) (x : A)
    → In x xs
    → p x ≡ true
    → (y : A) × (find p xs ≡ some y) × (p y ≡ true) × In y xs
find-of_In p [] x i t = elim i [ ]
find-of_In p (y ∷ ys) x i t = elim (Bool-cases (p y)) [
  | inl e ↦ (y, rw e refl, e, inl refl)
  | inr e ↦ elim i [
    | inl same ↦ let hit = subst (λ z. p z ≡ true) same t in cc
    | inr later ↦ let (z, f, q, j) = find-of_In p ys x later t in (z, rw e f, q, inr j)
  ]
]

pub find-none : {A : Type 0} (p : A → Bool) (xs : List A) → find p xs ≡ none → any p xs ≡ false
find-none p [] h = refl
find-none p (y ∷ ys) h = elim (Bool-cases (p y)) [
  | inl e ↦ let k = rw e at h in cc
  | inr e ↦ let k = rw e at h in rw e (find-none p ys k)
]

pub In-map : {A B : Type 0} (f : A → B) (xs : List A) (x : A) → In x xs → In (f x) (map f xs)
In-map f [] x i = elim i [ ]
In-map f (y ∷ ys) x (inl e) = inl (ap f e)
In-map f (y ∷ ys) x (inr i) = inr (In-map f ys x i)

pub In-map_inv :
    {A B : Type 0} (f : A → B) (xs : List A) (y : B)
    → In y (map f xs)
    → (x : A) × In x xs × (y ≡ f x)
In-map_inv f [] y i = elim i [ ]
In-map_inv f (x ∷ xs) y (inl e) = (x, inl refl, e)
In-map_inv f (x ∷ xs) y (inr i) = let (z, j, e) = In-map_inv f xs y i in (z, inr j, e)

pub none_of-In :
    {A : Type 0} (p : A → Bool) (xs : List A) (x : A) → any p xs ≡ false → In x xs → p x ≡ false
none_of-In p xs x n i = elim (Bool-cases (p x)) [
  | inl t ↦ let there = any_of-In p xs x i t in cc
  | inr f ↦ f
]

pub In-append_inv : {A : Type 0} (x : A) (xs ys : List A) → In x (xs ++ ys) → In x xs ⊎ In x ys
In-append_inv x [] ys i = inr i
In-append_inv x (y ∷ xs) ys (inl e) = inl (inl e)
In-append_inv x (y ∷ xs) ys (inr i) = elim (In-append_inv x xs ys i) [
  | inl j ↦ inl (inr j)
  | inr j ↦ inr j
]
