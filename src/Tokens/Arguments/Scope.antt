-- ===== src/Tokens/Arguments/Scope.antt =====
-- What the arguments of `create_token` of src/tokens.rs ask for.
use registry_api_contract.Prelude.{
  String, ◌≡◌, refl, ap, ◌∙◌, inl, inr, true, false, not, Bool-cases, none, some, Option-cases,
  List, [], ◌∷◌, ◌++◌, ◌==◌, ◌&&◌, is_some,
}
use registry_api_contract.Anyhow.{Result, ok, bail, ◌>>=◌}
use registry_api_contract.Rbac.{is_valid}
use registry_api_contract.Tokens.Arguments.{
  CreateArgs, Request, create_flag, apply_flag, parse_create, checked_request,
}

-- Flags and values, in turn.
abbrev pub IsPaired : List String → Type 0
IsPaired [] = Unit {0}
IsPaired (x ∷ []) = ⊥
IsPaired (x ∷ y ∷ rest) = IsPaired rest

abbrev pub unscoped : CreateArgs → Result CreateArgs
unscoped a = ok (record a { org_slug = none })

then_assoc :
    (m : Result CreateArgs) (f g : CreateArgs → Result CreateArgs)
    → (m >>= λ a. f a >>= g) ≡ ((m >>= f) >>= g)
then_assoc (ok a) f g = refl
then_assoc (bail c) f g = refl

-- A last `--org` with no value takes back every earlier one.
pub parse_create-trailing_org :
    (args : List String) (a : CreateArgs)
    → IsPaired args
    → parse_create (args ++ "--org" ∷ []) a ≡ (parse_create args a >>= unscoped)
unfolding parse_create create_flag
parse_create-trailing_org [] a p = refl
parse_create-trailing_org (x ∷ []) a p = absurd p
parse_create-trailing_org (x ∷ y ∷ rest) a p =
    ap (λ (f : CreateArgs → Result CreateArgs). apply_flag (create_flag x) (some y) a >>= f)
      (λ i b. parse_create-trailing_org rest b p i)
    ∙ then_assoc (apply_flag (create_flag x) (some y) a) (parse_create rest) unscoped

-- A request that passed the checks has a valid role, and with no organisation its role is `owner`.
pub record Sound (a : CreateArgs) (r : Request) : Type 0 where
  pub named : a.name ≡ some r.name
  pub ranked : r.role ≡ a.role
  pub scoped : r.org_slug ≡ a.org_slug
  pub dated : r.expires_in_days ≡ a.expires_in_days
  pub valid : is_valid r.role ≡ true
  pub admin : (not (is_some r.org_slug) && not (r.role == "owner")) ≡ false

checked : (a : CreateArgs) (name : String) → Request
checked a name = record {
  name = name;
  org_slug = a.org_slug;
  role = a.role;
  expires_in_days = a.expires_in_days;
}

pub checked_request-Sound : (a : CreateArgs) (r : Request) → checked_request a ≡ ok r → Sound a r
unfolding checked_request checked
checked_request-Sound a r h = elim (Option-cases a.name) [
  | inl e ↦ let k = rw e at h in cc
  | inr (name, e) ↦ elim (Bool-cases (is_valid a.role)) [
    | inr v ↦ let k = rw (e, v) at h in cc
    | inl v ↦ elim (Bool-cases (not (is_some a.org_slug) && not (a.role == "owner"))) [
      | inl b ↦ let k = rw (e, v, b) at h in cc
      | inr b ↦
          let k : ok (checked a name) ≡ ok r = rw (e, v, b) at h in
          let same : checked a name ≡ r = cc in
          rw (← same)
            (record { named = e; ranked = refl; scoped = refl; dated = refl; valid = v; admin = b })
    ]
  ]
]
