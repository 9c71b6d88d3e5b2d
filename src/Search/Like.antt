-- ===== src/Search/Like.antt =====
-- The pattern that src/routes/search.rs hands to LIKE, against what LIKE with an escape character
-- means.
use registry_api_contract.Prelude.{
  ℕ, ◌≡◌, ◌≢◌, ◌↔◌, refl, sym, ap, subst, ◌∙◌, Bool, true, false, [], ◌∷◌, ◌++◌, ◌||◌, nat_eq,
  arith, append-nil, if◌then◌else◌, Bool-cases, inl, inr,
}
use registry_api_contract.Text.{Text}
use registry_api_contract.Search.{escape_like, contains_escaped}

-- `text LIKE pattern ESCAPE '\'` in SQL.
pub data Matches : Text → Text → Type 0 where
  stop : Matches [] []
  many :
      {w : ℕ} {p s : Text} (skipped rest : Text)
      → w ≡ b'%'
      → s ≡ skipped ++ rest
      → Matches p rest
      → Matches (w ∷ p) s
  one : {w d : ℕ} {p rest : Text} → w ≡ b'_' → Matches p rest → Matches (w ∷ p) (d ∷ rest)
  escaped : {w d : ℕ} {p rest : Text} → w ≡ b'\\' → Matches p rest → Matches (w ∷ d ∷ p) (d ∷ rest)
  plain :
      {w : ℕ} {p rest : Text}
      → w ≢ b'%'
      → w ≢ b'_'
      → w ≢ b'\\'
      → Matches p rest
      → Matches (w ∷ p) (w ∷ rest)

abbrev is_special : ℕ → Bool
is_special c = nat_eq c b'%' || nat_eq c b'_' || nat_eq c b'\\'

escape_each : Text → Text
escape_each [] = []
escape_each (c ∷ q) = if is_special c then b'\\' ∷ c ∷ escape_each q else c ∷ escape_each q

-- The three replacements, one after the other, escape each special character once.
escape_like-each : (q : Text) → escape_like q ≡ escape_each q
unfolding escape_like escape_each
escape_like-each [] = refl
escape_like-each (c ∷ q) = ground (arith, escape_like-each q)

escape_special :
    (c : ℕ) (q : Text) → is_special c ≡ true → escape_each (c ∷ q) ≡ b'\\' ∷ c ∷ escape_each q
unfolding escape_each
escape_special c q e = rw e

escape_ordinary :
    (c : ℕ) (q : Text) → is_special c ≡ false → escape_each (c ∷ q) ≡ c ∷ escape_each q
unfolding escape_each
escape_ordinary c q e = rw e

not_special : (c : ℕ) → is_special c ≡ false → (c ≢ b'%') × (c ≢ b'_') × (c ≢ b'\\')
not_special c e = ground arith

many_rest :
    (p s : Text)
    → Matches (b'%' ∷ p) s
    → (skipped rest : Text) × (s ≡ skipped ++ rest) × Matches p rest
many_rest p s (many skipped rest _ e m) = (skipped, rest, e, m)
many_rest p s (one e m) = absurd (omega arith)
many_rest p s (escaped e m) = absurd (omega arith)
many_rest p s (plain n _ _ m) = absurd (n refl)

escaped_rest :
    (w d : ℕ) (p s : Text)
    → w ≡ b'\\'
    → Matches (w ∷ d ∷ p) s
    → (rest : Text) × (s ≡ d ∷ rest) × Matches p rest
escaped_rest w d p s h (many _ _ e _ m) = absurd (omega arith)
escaped_rest w d p s h (one e m) = absurd (omega arith)
escaped_rest w d p s h (escaped {rest = rest} e m) = (rest, refl, m)
escaped_rest w d p s h (plain _ _ n m) = absurd (n h)

plain_rest :
    (w : ℕ) (p s : Text)
    → is_special w ≡ false
    → Matches (w ∷ p) s
    → (rest : Text) × (s ≡ w ∷ rest) × Matches p rest
plain_rest w p s h (many _ _ e _ m) = absurd (ground arith)
plain_rest w p s h (one e m) = absurd (ground arith)
plain_rest w p s h (escaped e m) = absurd (ground arith)
plain_rest w p s h (plain {rest = rest} _ _ _ m) = (rest, refl, m)

-- An escaped text matches itself and nothing else.
literal_rest :
    (q p s : Text)
    → Matches (escape_each q ++ p) s
    → (rest : Text) × (s ≡ q ++ rest) × Matches p rest
unfolding escape_each
literal_rest [] p s m = (s, refl, m)
literal_rest (c ∷ q) p s m = elim (Bool-cases (is_special c)) [
  | inl e ↦
      let (r, split, m') =
        escaped_rest b'\\' c (escape_each q ++ p) s refl
          (subst (λ x. Matches (x ++ p) s) (escape_special c q e) m) in
      let (rest, split', m'') = literal_rest q p r m' in (rest, split ∙ ap (◌∷◌ c) split', m'')
  | inr e ↦
      let (r, split, m') =
        plain_rest c (escape_each q ++ p) s e
          (subst (λ x. Matches (x ++ p) s) (escape_ordinary c q e) m) in
      let (rest, split', m'') = literal_rest q p r m' in (rest, split ∙ ap (◌∷◌ c) split', m'')
]

literal-Matches : (q p rest : Text) → Matches p rest → Matches (escape_each q ++ p) (q ++ rest)
literal-Matches [] p rest m = unfold escape_each in m
literal-Matches (c ∷ q) p rest m = elim (Bool-cases (is_special c)) [
  | inl e ↦
      subst (λ x. Matches (x ++ p) (c ∷ q ++ rest)) (sym (escape_special c q e))
        (escaped refl (literal-Matches q p rest m))
  | inr e ↦
      subst (λ x. Matches (x ++ p) (c ∷ q ++ rest)) (sym (escape_ordinary c q e))
        (plain (not_special c e).0 (not_special c e).1 (not_special c e).2
          (literal-Matches q p rest m))
]

any-Matches : (s : Text) → Matches (b'%' ∷ []) s
any-Matches s = many s [] refl (sym (append-nil s)) stop

-- The search for a query finds exactly the texts that contain it: the pattern matches a text just when
-- the text is something, then the query itself with `%`, `_` and backslashes taken literally, then
-- something.
pub contains_escaped-contains :
    (q s : Text)
    → Matches (contains_escaped q) s
      ↔ ((before : Text) × (after : Text) × (s ≡ before ++ (q ++ after)))
unfolding contains_escaped
contains_escaped-contains q s = (
  λ m.
      let (before, r, e, m') = many_rest (escape_like q ++ b'%' ∷ []) s m in
      let (after, e', _) =
        literal_rest q (b'%' ∷ []) r
          (subst (λ x. Matches (x ++ b'%' ∷ []) r) (escape_like-each q) m') in
      (before, after, e ∙ ap (λ t. before ++ t) e'),
  λ (before, after, e). many before (q ++ after) refl e (
      subst (λ x. Matches (x ++ b'%' ∷ []) (q ++ after)) (sym (escape_like-each q))
        (literal-Matches q (b'%' ∷ []) after (any-Matches after))),
)
