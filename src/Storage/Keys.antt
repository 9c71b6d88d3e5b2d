-- ===== src/Storage/Keys.antt =====
-- `artifact_key` of src/storage.rs: a key tells the digest that it was made of.
use registry_api_contract.Prelude.{String, ◌<>◌, ◌≡◌, refl, sym, ◌∙◌, arith, length}
use text.Mathlib.TextLemmas.{
  cons-append, append_cancel_left, head-eq_of_cons-eq, tail-eq_of_cons-eq,
}
use registry_api_contract.Text.{codes}
use registry_api_contract.Storage.{artifact_key}

-- Two texts with heads of one length are the same only if the heads are.
same_head : (a b t u : String) → length (codes a) ≡ length (codes b) → a <> t ≡ b <> u → a ≡ b
same_head String.[] String.[] t u n h = refl
same_head String.[] (String.◌∷◌ d b) t u n h = absurd (omega (arith, n))
same_head (String.◌∷◌ c a) String.[] t u n h = absurd (omega (arith, n))
same_head (String.◌∷◌ c a) (String.◌∷◌ d b) t u n h =
    let opened = sym (cons-append c a t) ∙ h ∙ cons-append d b u in
    let first = head-eq_of_cons-eq opened in
    let rest = same_head a b t u (omega (arith, n)) (tail-eq_of_cons-eq opened) in cc

pub artifact_key_injective :
    (a b e f : String)
    → length (codes a) ≡ length (codes b)
    → artifact_key a e ≡ artifact_key b f
    → a ≡ b
unfolding artifact_key
artifact_key_injective a b e f n h =
    same_head a b ("." <> e) ("." <> f) n (append_cancel_left "artifacts/" _ _ h)
