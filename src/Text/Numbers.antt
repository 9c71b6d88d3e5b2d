-- ===== src/Text/Numbers.antt =====
-- `str::parse` of the integer types, as src/config.rs, src/tokens.rs and src/server.rs use it: an optional
-- sign, then one or more decimal digits, within the type's range.
use registry_api_contract.Prelude.{
  ℕ, suc, zero, ◌+◌, ◌-◌, ◌*◌, ◌^◌, Bool, Option, none, some, [], ◌∷◌, ◌&&◌, nat_eq, leb, ltb,
  if◌then◌else◌,
}
use registry_api_contract.Text.{Text}

-- `negsuc n` is -(n + 1).
pub data ℤ : Type 0 where
  pos : ℕ → ℤ
  negsuc : ℕ → ℤ

abbrev pub is_digit : ℕ → Bool
is_digit c = leb b'0' c && leb c b'9'

abbrev pub digits_from : ℕ → Text → Option ℕ
digits_from n [] = some n
digits_from n (c ∷ s) =
    let rest = digits_from (n * 10 + (c - b'0')) s in if is_digit c then rest else none

abbrev pub digits : Text → Option ℕ
digits [] = none
digits (c ∷ s) = digits_from 0 (c ∷ s)

abbrev pub below : ℕ → Option ℕ → Option ℕ
below limit none = none
below limit (some n) = if ltb n limit then some n else none

-- `parse` of the unsigned type with values below `limit`
unfoldable pub parse_unsigned : ℕ → Text → Option ℕ
parse_unsigned limit [] = none
parse_unsigned limit (c ∷ s) = below limit (if nat_eq c b'+' then digits s else digits (c ∷ s))

abbrev pub parse_u64 : Text → Option ℕ
parse_u64 = parse_unsigned (2 ^ 64)

abbrev pub parse_u32 : Text → Option ℕ
parse_u32 = parse_unsigned (2 ^ 32)

abbrev pub negated : Option ℕ → Option ℤ
negated none = none
negated (some zero) = some (pos 0)
negated (some (suc n)) = some (negsuc n)

abbrev pub nonnegative : Option ℕ → Option ℤ
nonnegative none = none
nonnegative (some n) = some (pos n)

unfoldable pub parse_i64 : Text → Option ℤ
parse_i64 [] = none
parse_i64 (c ∷ s) =
    if nat_eq c b'-'
    then negated (below (2 ^ 63 + 1) (digits s))
    else nonnegative (below (2 ^ 63) (if nat_eq c b'+' then digits s else digits (c ∷ s)))
