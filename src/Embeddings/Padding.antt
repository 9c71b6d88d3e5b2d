-- ===== src/Embeddings/Padding.antt =====
-- What `pad_to_dim` of src/embeddings.rs makes of a vector.
use registry_api_contract.Prelude.{
  ◌-◌, ◌≤◌, ◌≡◌, refl, ap, inl, inr, false, not, Bool-cases, List, [], ◌∷◌, ◌++◌, ltb, any, length,
  take, replicate, length-append, length-replicate, arith,
}
use registry_api_contract.Error.{ok, ok_injective}
use registry_api_contract.Embeddings.{Floats, vector_dim, is_empty_vector, pad_to_dim}

take_prefix : {A : Type 0} (xs ys : List A) → take (length xs) (xs ++ ys) ≡ xs
take_prefix [] ys = refl
take_prefix (x ∷ xs) ys = ap (◌∷◌ x) (take_prefix xs ys)

module _ {F : Type 0} (fl : Floats F) where
  -- A vector that fits the column: not empty, not too long, all of it finite.
  pub record Fits (v : List F) : Type 0 where
    pub nonempty : is_empty_vector fl v ≡ false
    pub short : length v ≤ vector_dim
    pub finite : any (λ x. not (fl.is_finite x)) v ≡ false

  -- It keeps the vector in front, and fills the column's width.
  pub record Padded (v p : List F) : Type 0 where
    pub wide : length p ≡ vector_dim
    pub front : take (length v) p ≡ v
    pub rest : p ≡ v ++ replicate (vector_dim - length v) fl.nil

  padded :
      (v : List F)
      → length v ≤ vector_dim
      → Padded v (v ++ replicate (vector_dim - length v) fl.nil)
  padded v h = record {
    wide = omega (
      arith,
      length-append v (replicate (vector_dim - length v) fl.nil),
      length-replicate (vector_dim - length v) fl.nil,
      h,
    );
    front = take_prefix v (replicate (vector_dim - length v) fl.nil);
    rest = refl;
  }

  pub pad_to_dim_of :
      (v : List F) → Fits v → pad_to_dim fl v ≡ ok (v ++ replicate (vector_dim - length v) fl.nil)
  unfolding pad_to_dim
  pad_to_dim_of v f =
      let short : ltb vector_dim (length v) ≡ false = let k = f.short in ground (arith, k) in
      rw (f.nonempty, short, f.finite) refl

  pub pad_to_dim_ok : (v p : List F) → pad_to_dim fl v ≡ ok p → Fits v × Padded v p
  unfolding pad_to_dim
  pad_to_dim_ok v p h = elim (Bool-cases (is_empty_vector fl v)) [
    | inl a ↦ let k = rw a at h in cc
    | inr a ↦ elim (Bool-cases (ltb vector_dim (length v))) [
      | inl b ↦ let k = rw (a, b) at h in cc
      | inr b ↦ elim (Bool-cases (any (λ x. not (fl.is_finite x)) v)) [
        | inl c ↦ let k = rw (a, b, c) at h in cc
        | inr c ↦
            let short : length v ≤ vector_dim = ground (arith, b) in
            let k = ok_injective (rw (a, b, c) at h) in
            (record { nonempty = a; short = short; finite = c }, rw (← k) (padded v short))
      ]
    ]
  ]
