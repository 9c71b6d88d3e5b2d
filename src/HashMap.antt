-- ===== src/HashMap.antt =====
-- `std::collections::HashMap` with text keys, as an association list: `get`, `insert`, `remove`,
-- `retain`. The program never depends on the order of a map's entries.
pub mod Keys
use registry_api_contract.Prelude.{
  String, ◌≡◌, Bool, Option, none, some, List, [], ◌∷◌, ◌==◌, eq_iff, arith, if◌then◌else◌,
}

abbrev pub HashMap {ℓ} : Type ℓ → Type ℓ
HashMap V = List (String × V)

module _ {ℓ} {V : Type ℓ} where
  unfoldable pub get : String → HashMap V → Option V
  get k [] = none
  get k ((j, v) ∷ m) = if j == k then some v else get k m

  unfoldable pub without : String → HashMap V → HashMap V
  without k [] = []
  without k ((j, v) ∷ m) = let rest = without k m in if j == k then rest else (j, v) ∷ rest

  unfoldable pub insert : String → V → HashMap V → HashMap V
  unfolding without
  insert k v m = (k, v) ∷ without k m

  unfoldable pub retain : (V → Bool) → HashMap V → HashMap V
  retain p [] = []
  retain p ((k, v) ∷ m) = let rest = retain p m in if p v then (k, v) ∷ rest else rest

  pub get-without :
      (k j : String) (m : HashMap V) → get j (without k m) ≡ (if k == j then none else get j m)
  unfolding get without
  get-without k j [] = ground arith
  get-without k j ((i, v) ∷ m) =
      ground (arith, get-without k j m, eq_iff i k, eq_iff i j, eq_iff k j)

  pub get-insert :
      (k j : String) (v : V) (m : HashMap V)
      → get j (insert k v m) ≡ (if k == j then some v else get j m)
  unfolding get insert
  get-insert k j v m = ground (arith, get-without k j m)
