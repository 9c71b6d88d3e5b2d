-- ===== src/Tests/Like.antt =====
-- A database's LIKE with the backslash as its escape, as src/routes/search.rs relies on it.
use registry_api_contract.Prelude.{
  ℕ, ◌≡◌, ◌≢◌, ◌↔◌, refl, ap, subst, Bool, true, false, [], ◌∷◌, ◌++◌, ◌||◌, ◌&&◌, nat_eq, arith,
  if◌then◌else◌, Bool-cases, inl, inr,
}
use registry_api_contract.Text.{Text}
use registry_api_contract.Search.Like.{Matches, stop, many, one, escaped, plain}

abbrev anywhere : (Text → Bool) → Text → Bool
anywhere f [] = f []
anywhere f (d ∷ s) = f (d ∷ s) || anywhere f s

abbrev after_any : (Text → Bool) → Text → Bool
after_any f [] = false
after_any f (d ∷ s) = f s

abbrev after_char : ℕ → (Text → Bool) → Text → Bool
after_char c f [] = false
after_char c f (d ∷ s) = nat_eq c d && f s

abbrev like_step : ℕ → (Text → Bool) → (Text → Bool) → Text → Bool
like_step w later escape s =
    if nat_eq w b'%'
    then anywhere later s
    else if nat_eq w b'_'
    then after_any later s
    else if nat_eq w b'\\'
    then escape s
    else after_char w later s

unfoldable pub like : Text → Text → Bool
like [] [] = true
like [] (d ∷ s) = false
like (w ∷ []) s = like_step w (like []) (λ t. false) s
like (w ∷ d ∷ p) s = like_step w (like (d ∷ p)) (after_char d (like p)) s

abbrev escape_run : Text → Text → Bool
escape_run [] s = false
escape_run (d ∷ p) s = after_char d (like p) s

like-like_step : (w : ℕ) (p s : Text) → like (w ∷ p) s ≡ like_step w (like p) (escape_run p) s
unfolding like
like-like_step w [] s = refl
like-like_step w (d ∷ p) s = refl

anywhere_found :
    (f : Text → Bool) (s : Text)
    → anywhere f s ≡ true
    → (skipped rest : Text) × (s ≡ skipped ++ rest) × (f rest ≡ true)
anywhere_found f [] h = ([], [], refl, h)
anywhere_found f (d ∷ s) h = elim (Bool-cases (f (d ∷ s))) [
  | inl e ↦ ([], d ∷ s, refl, e)
  | inr e ↦
      let (skipped, rest, q, t) = anywhere_found f s (rw e at h) in
      (d ∷ skipped, rest, ap (◌∷◌ d) q, t)
]

anywhere-append :
    (f : Text → Bool) (skipped rest : Text) → f rest ≡ true → anywhere f (skipped ++ rest) ≡ true
anywhere-append f [] [] h = h
anywhere-append f [] (d ∷ s) h = rw h refl
anywhere-append f (c ∷ skipped) rest h = ground (arith, anywhere-append f skipped rest h)

like_complete : {p s : Text} → Matches p s → like p s ≡ true
unfolding like
like_complete stop = refl
like_complete (many {w = w} {p = p} {s = s} skipped rest e q m) =
    rw (like-like_step w p s, q, e) (anywhere-append (like p) skipped rest (like_complete m))
like_complete (one {w = w} {d = d} {p = p} {rest = rest} e m) =
    rw (like-like_step w p (d ∷ rest), e) (like_complete m)
like_complete (escaped {w = w} {d = d} {p = p} {rest = rest} e m) =
    rw (like-like_step w (d ∷ p) (d ∷ rest), e) (let k = like_complete m in ground (arith, k))
like_complete (plain {w = w} {p = p} {rest = rest} a b c m) =
    rw (like-like_step w p (w ∷ rest)) (let k = like_complete m in ground (arith, k, a, b, c))

escape_sound :
    (w : ℕ) (p s : Text)
    → w ≡ b'\\'
    → ((d : ℕ) (q t : Text) → p ≡ d ∷ q → like q t ≡ true → Matches q t)
    → escape_run p s ≡ true
    → Matches (w ∷ p) s
escape_sound w [] s e ih h = cc
escape_sound w (d ∷ p) [] e ih h = cc
escape_sound w (d ∷ p) (c ∷ s) e ih h =
    let same : d ≡ c = ground arith in
    let later : like p s ≡ true = ground arith in
    subst (λ x. Matches (w ∷ d ∷ p) (x ∷ s)) same (escaped e (ih d p s refl later))

any_sound :
    (w : ℕ) (p s : Text)
    → w ≡ b'_'
    → ((t : Text) → like p t ≡ true → Matches p t)
    → after_any (like p) s ≡ true
    → Matches (w ∷ p) s
any_sound w p [] e ih h = cc
any_sound w p (d ∷ s) e ih h = one e (ih s h)

char_sound :
    (w : ℕ) (p s : Text)
    → w ≢ b'%'
    → w ≢ b'_'
    → w ≢ b'\\'
    → ((t : Text) → like p t ≡ true → Matches p t)
    → after_char w (like p) s ≡ true
    → Matches (w ∷ p) s
char_sound w p [] a b c ih h = cc
char_sound w p (d ∷ s) a b c ih h =
    let same : w ≡ d = ground arith in
    let later : like p s ≡ true = ground arith in
    subst (λ x. Matches (w ∷ p) (x ∷ s)) same (plain a b c (ih s later))

step_sound :
    (w : ℕ) (p s : Text)
    → ((t : Text) → like p t ≡ true → Matches p t)
    → ((d : ℕ) (q t : Text) → p ≡ d ∷ q → like q t ≡ true → Matches q t)
    → like_step w (like p) (escape_run p) s ≡ true
    → Matches (w ∷ p) s
step_sound w p s ih ih' h = elim (Bool-cases (nat_eq w b'%')) [
  | inl e ↦
      let (skipped, rest, q, t) = anywhere_found (like p) s (rw e at h) in
      many skipped rest (ground arith) q (ih rest t)
  | inr e ↦ elim (Bool-cases (nat_eq w b'_')) [
    | inl f ↦ any_sound w p s (ground arith) ih (rw (e, f) at h)
    | inr f ↦ elim (Bool-cases (nat_eq w b'\\')) [
      | inl g ↦ escape_sound w p s (ground arith) ih' (rw (e, f, g) at h)
      | inr g ↦ char_sound w p s (ground arith) (ground arith) (ground arith) ih (rw (e, f, g) at h)
    ]
  ]
]

like_sound : (p s : Text) → like p s ≡ true → Matches p s
unfolding like
like_sound [] [] h = stop
like_sound [] (d ∷ s) h = cc
like_sound (w ∷ []) s h = step_sound w [] s (like_sound []) (λ d q t e. cc) h
like_sound (w ∷ d ∷ p) s h =
    step_sound w (d ∷ p) s (like_sound (d ∷ p))
      (λ c q t e.
        let same : p ≡ q = cc in subst (λ x. like x t ≡ true → Matches x t) same (like_sound p t))
      h

pub like-Matches : (p s : Text) → (like p s ≡ true) ↔ Matches p s
like-Matches p s = (like_sound p s, like_complete)
