-- ===== src/Auth/Liveness.antt =====
-- Which requests `require_token` of src/auth.rs lets through.
use registry_api_contract.Prelude.{
  ◌≡◌, refl, sym, ap, ◌⊎◌, inl, inr, true, false, Bool-cases, Option, none, some, Option-cases,
  List, arith, eq_iff, In, find, find-some,
}
use registry_api_contract.Error.{ok, err, unauthorized, internal}
use registry_api_contract.Db.{Time, Token}
use registry_api_contract.Text.{Text}
use registry_api_contract.State.{World, AppState, Dependencies, Outside, find_token, ◌>>=◌, query}
use registry_api_contract.State.Effects.{
  Keeps, Keeps->>=, Unchanged, Unchanged-trans, lift-Keeps, query-Keeps,
}
use registry_api_contract.Auth.{
  Authorization, bearer_token, auth_disabled, has_hash, has_expired, live_token, hash_token,
  require_token,
}

-- Not revoked, and not at or past its expiry.
abbrev pub IsLive : Time → Token → Type 0
IsLive now t = (t.revoked_at ≡ none) × (has_expired now t.expires_at ≡ false)

-- The token table carries a hash once, as its unique key demands.
abbrev pub HashesUnique : List Token → Type 0
HashesUnique ts = (a b : Token) → In a ts → In b ts → a.token_hash ≡ b.token_hash → a ≡ b

live_token-IsLive :
    (now : Time) (row : Option Token) (t : Token)
    → live_token now row ≡ ok t
    → (row ≡ some t) × IsLive now t
unfolding live_token
live_token-IsLive now none t h = cc
live_token-IsLive now (some r) t h = elim (Option-cases r.revoked_at) [
  | inl e ↦ elim (Bool-cases (has_expired now r.expires_at)) [
    | inl x ↦ let k = rw (e, x) at h in cc
    | inr x ↦
        let k = rw (e, x) at h in let same : r ≡ t = cc in (rw same refl, rw (sym same) (e, x))
  ]
  | inr (y, e) ↦ let k = rw e at h in cc
]

live_token_cases :
    (now : Time) (row : Option Token)
    → ((t : Token) × (live_token now row ≡ ok t)) ⊎ (live_token now row ≡ err unauthorized)
unfolding live_token
live_token_cases now none = inr refl
live_token_cases now (some r) = elim (Option-cases r.revoked_at) [
  | inl e ↦ elim (Bool-cases (has_expired now r.expires_at)) [
    | inl x ↦ inr (rw (e, x) refl)
    | inr x ↦ inl (r, rw (e, x) refl)
  ]
  | inr (y, e) ↦ inr (rw e refl)
]

module _ (d : Dependencies) (s : AppState) (o : Outside) where
  -- The answer, with bearer tokens required and the query answered.
  pub require_token_enabled :
      (header : Authorization) (w : World) (p : Text)
      → auth_disabled s ≡ false
      → o.fails find_token ≡ false
      → bearer_token header ≡ some p
      → require_token d s o header w
        ≡ (live_token o.now (find (has_hash (hash_token d s o p)) w.database.tokens), w)
  unfolding require_token ◌>>=◌ query
  require_token_enabled header w p e f b = rw (e, b, f) refl

  require_token_anonymous :
      (header : Authorization) (w : World)
      → auth_disabled s ≡ false
      → bearer_token header ≡ none
      → require_token d s o header w ≡ (err unauthorized, w)
  unfolding require_token ◌>>=◌ query
  require_token_anonymous header w e b = rw (e, b) refl

  require_token_failing :
      (header : Authorization) (w : World) (p : Text)
      → auth_disabled s ≡ false
      → o.fails find_token ≡ true
      → bearer_token header ≡ some p
      → require_token d s o header w ≡ (err internal, w)
  unfolding require_token ◌>>=◌ query
  require_token_failing header w p e f b = rw (e, b, f) refl

  -- The request's bearer text hashes to the stored token `t`, which is live.
  abbrev pub Bears : Authorization → World → Token → Type 0
  Bears header w t =
      (p : Text) × (bearer_token header ≡ some p)
      × In t w.database.tokens
      × (t.token_hash ≡ hash_token d s o p)
      × IsLive o.now t

  pub require_token_ok :
      (header : Authorization) (w : World) (t : Token)
      → auth_disabled s ≡ false
      → (require_token d s o header w).0 ≡ ok t
      → Bears header w t
  require_token_ok header w t e h = elim (Option-cases (bearer_token header)) [
    | inl b ↦ let k = rw (require_token_anonymous header w e b) at h in cc
    | inr (p, b) ↦ elim (Bool-cases (o.fails find_token)) [
      | inl f ↦ let k = rw (require_token_failing header w p e f b) at h in cc
      | inr f ↦
          let k = rw (require_token_enabled header w p e f b) at h in
          let (found, live) =
            live_token-IsLive o.now (find (has_hash (hash_token d s o p)) w.database.tokens) t k in
          let (member, hit) = find-some (has_hash (hash_token d s o p)) w.database.tokens t found in
          (p, b, member, ground (arith, eq_iff t.token_hash (hash_token d s o p), hit), live)
    ]
  ]

  pub require_token_to :
      (header : Authorization) (w : World) (t : Token)
      → auth_disabled s ≡ false
      → o.fails find_token ≡ false
      → require_token d s o header w ≡ (ok t, w)
      → Bears header w t
  require_token_to header w t e f h = require_token_ok header w t e (ap (λ r. r.0) h)

  -- With bearer tokens required and the lookup answered, whatever keeps a request out, an unknown, a
  -- revoked, an expired or a missing token, the caller sees the same `unauthorized`, and nothing
  -- changes in either case.
  pub require_token_uniform :
      (header : Authorization) (w : World)
      → auth_disabled s ≡ false
      → o.fails find_token ≡ false
      → ((t : Token) × (require_token d s o header w ≡ (ok t, w)))
        ⊎ (require_token d s o header w ≡ (err unauthorized, w))
  require_token_uniform header w e f = elim (Option-cases (bearer_token header)) [
    | inl b ↦ inr (require_token_anonymous header w e b)
    | inr (p, b) ↦
        elim (live_token_cases o.now (find (has_hash (hash_token d s o p)) w.database.tokens)) [
          | inl (t, k) ↦ inl (t, rw (require_token_enabled header w p e f b, k) refl)
          | inr k ↦ inr (rw (require_token_enabled header w p e f b, k) refl)
        ]
  ]

  -- With bearer tokens required, whoever asks, the world stays as it is.
  pub require_token-Keeps :
      (header : Authorization)
      → auth_disabled s ≡ false
      → Keeps Unchanged (require_token d s o header)
  unfolding require_token
  require_token-Keeps header e = rw e (
      Keeps->>= Unchanged-trans (lift-Keeps _)
        λ p. Keeps->>= Unchanged-trans (query-Keeps _ _) λ r. lift-Keeps _)
