-- ===== src/Text/Pieces.antt =====
-- Laws of the operations on texts.
use registry_api_contract.Prelude.{ℕ, ◌≡◌, ◌↔◌, refl, true, false, some, [], ◌∷◌, ◌++◌, arith}
use registry_api_contract.Text.{
  Text, same_text, contains_char, before_first, after_first, strip_prefix,
}

eq_of_same_text : (s t : Text) → same_text s t ≡ true → s ≡ t
eq_of_same_text [] [] h = refl
eq_of_same_text [] (d ∷ t) h = cc
eq_of_same_text (c ∷ s) [] h = cc
eq_of_same_text (c ∷ s) (d ∷ t) h = ground (arith, eq_of_same_text s t)

pub same_text_refl : (s : Text) → same_text s s ≡ true
same_text_refl [] = refl
same_text_refl (c ∷ s) = ground (arith, same_text_refl s)

pub same_text_iff : (s t : Text) → (same_text s t ≡ true) ↔ (s ≡ t)
same_text_iff s t = (eq_of_same_text s t, λ e. rw e (same_text_refl t))

pub before_first_absent :
    (c : ℕ) (s t : Text) → contains_char c s ≡ false → before_first c (s ++ c ∷ t) ≡ s
before_first_absent c [] t h = ground arith
before_first_absent c (d ∷ s) t h = ground (arith, before_first_absent c s t)

pub after_first_absent :
    (c : ℕ) (s t : Text) → contains_char c s ≡ false → after_first c (s ++ c ∷ t) ≡ some t
after_first_absent c [] t h = ground arith
after_first_absent c (d ∷ s) t h = ground (arith, after_first_absent c s t)

pub strip_prefix-append : (p s : Text) → strip_prefix p (p ++ s) ≡ some s
strip_prefix-append [] s = refl
strip_prefix-append (c ∷ p) s = ground (arith, strip_prefix-append p s)
