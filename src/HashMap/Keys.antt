-- ===== src/HashMap/Keys.antt =====
-- Maps that hold each key once, as every map does that the program builds.
use registry_api_contract.Prelude.{
  String, ◌≡◌, refl, ◌∙◌, inl, inr, Bool, true, false, Bool-cases, Option, none, some, [], ◌∷◌,
  ◌==◌, eq_iff, if◌then◌else◌,
}
use registry_api_contract.HashMap.{HashMap, get, without, insert, retain, get-without}

module _ {V : Type 0} where
  abbrev pub HoldsOnce : HashMap V → Type 0
  HoldsOnce [] = Unit {0}
  HoldsOnce ((k, v) ∷ m) = (get k m ≡ none) × HoldsOnce m

  -- What a filter leaves of a value.
  abbrev pub passing : (V → Bool) → Option V → Option V
  passing p none = none
  passing p (some v) = if p v then some v else none

  without-HoldsOnce : (k : String) (m : HashMap V) → HoldsOnce m → HoldsOnce (without k m)
  unfolding without
  without-HoldsOnce k [] h = tt
  without-HoldsOnce k ((j, v) ∷ m) h = elim (Bool-cases (j == k)) [
    | inl e ↦ rw e (without-HoldsOnce k m h.1)
    | inr e ↦ rw e (absent (k == j) (get-without k j m) h.0, without-HoldsOnce k m h.1)
  ]
    where
      absent : (b : Bool) {x y : Option V} → y ≡ (if b then none else x) → x ≡ none → y ≡ none
      absent true e h = e
      absent false e h = e ∙ h

  pub insert-HoldsOnce :
      (k : String) (v : V) (m : HashMap V) → HoldsOnce m → HoldsOnce (insert k v m)
  unfolding insert
  insert-HoldsOnce k v m h =
      let same : (k == k) ≡ true = (eq_iff k k).1 refl in
      (get-without k k m ∙ rw same refl, without-HoldsOnce k m h)

  passing-none : (p : V → Bool) (o : Option V) → o ≡ none → passing p o ≡ none
  passing-none p o e = rw e refl

  pub get-retain :
      (p : V → Bool) (k : String) (m : HashMap V)
      → HoldsOnce m
      → get k (retain p m) ≡ passing p (get k m)
  unfolding get retain
  get-retain p k [] h = refl
  get-retain p k ((j, v) ∷ m) h = elim (Bool-cases (j == k)) [
    | inl e ↦
        let same : j ≡ k = (eq_iff j k).0 e in
        let rest : get k (retain p m) ≡ none =
          get-retain p k m h.1 ∙ passing-none p (get k m) (rw (← same) h.0) in
        elim (Bool-cases (p v)) [ inl y ↦ rw (y, e) (rw y refl) | inr n ↦ rw (n, e) (rw n rest) ]
    | inr e ↦ elim (Bool-cases (p v)) [
      | inl y ↦ rw (y, e) (get-retain p k m h.1)
      | inr n ↦ rw (n, e) (get-retain p k m h.1)
    ]
  ]

  pub retain-HoldsOnce : (p : V → Bool) (m : HashMap V) → HoldsOnce m → HoldsOnce (retain p m)
  unfolding retain
  retain-HoldsOnce p [] h = tt
  retain-HoldsOnce p ((j, v) ∷ m) h = elim (Bool-cases (p v)) [
    | inl y ↦ rw y (get-retain p j m h.1 ∙ passing-none p (get j m) h.0, retain-HoldsOnce p m h.1)
    | inr n ↦ rw n (retain-HoldsOnce p m h.1)
  ]
