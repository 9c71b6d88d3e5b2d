-- ===== src/Text.antt =====
-- What the program asks of a `str`, on its code points: equality, `split`, `trim`, prefixes.
pub mod Pieces
pub mod Numbers
use Prim.Native.Char.{code}
use registry_api_contract.Prelude.{
  ℕ, String, Bool, true, false, not, Option, none, some, List, [], ◌∷◌, ◌&&◌, ◌||◌, nat_eq, leb,
  if◌then◌else◌,
}

abbrev pub Text : Type 0
Text = List ℕ

-- The code points of a text.
abbrev pub codes : String → Text
codes String.[] = []
codes (String.◌∷◌ c s) = code c ∷ codes s

abbrev pub same_text : Text → Text → Bool
same_text [] [] = true
same_text (c ∷ s) (d ∷ t) = nat_eq c d && same_text s t
same_text _ _ = false

abbrev pub is_empty : Text → Bool
is_empty [] = true
is_empty (c ∷ s) = false

abbrev pub contains_char : ℕ → Text → Bool
contains_char c [] = false
contains_char c (d ∷ s) = nat_eq c d || contains_char c s

-- `strip_prefix`
abbrev pub strip_prefix : Text → Text → Option Text
strip_prefix [] s = some s
strip_prefix (c ∷ p) [] = none
strip_prefix (c ∷ p) (d ∷ s) = if nat_eq c d then strip_prefix p s else none

-- `contains`
abbrev pub contains_text : Text → Text → Bool
contains_text p [] = is_empty p
contains_text p (c ∷ s) = elim (strip_prefix p (c ∷ s)) [ some _ ↦ true | none ↦ contains_text p s ]

-- The part before the first `c`.
abbrev pub before_first : ℕ → Text → Text
before_first c [] = []
before_first c (d ∷ s) = if nat_eq d c then [] else d ∷ before_first c s

-- The part after the first `c`, if there is one.
abbrev pub after_first : ℕ → Text → Option Text
after_first c [] = none
after_first c (d ∷ s) = if nat_eq d c then some s else after_first c s

-- `rsplit(c).next()`: the part after the last `c`, or all of it.
abbrev pub after_last : ℕ → Text → Text
after_last c [] = []
after_last c (d ∷ s) =
    if contains_char c (d ∷ s) then (if contains_char c s then after_last c s else s) else d ∷ s

-- `split(c)`: never empty.
abbrev pub cons_first : ℕ → List Text → List Text
cons_first c [] = (c ∷ []) ∷ []
cons_first c (p ∷ ps) = (c ∷ p) ∷ ps

abbrev pub split : ℕ → Text → List Text
split c [] = [] ∷ []
split c (d ∷ s) = let rest = split c s in if nat_eq d c then [] ∷ rest else cons_first d rest

-- `char::is_whitespace`, the characters of Unicode's White_Space property
unfoldable pub is_whitespace : ℕ → Bool
is_whitespace c =
    (leb 9 c && leb c 13)
    || nat_eq c 32
    || nat_eq c 0x85
    || nat_eq c 0xa0
    || nat_eq c 0x1680
    || (leb 0x2000 c && leb c 0x200a)
    || nat_eq c 0x2028
    || nat_eq c 0x2029
    || nat_eq c 0x202f
    || nat_eq c 0x205f
    || nat_eq c 0x3000

-- `trim_start_matches` and `trim_end_matches` by a test on characters
abbrev pub trim_start_by : (ℕ → Bool) → Text → Text
trim_start_by p [] = []
trim_start_by p (c ∷ s) = let rest = trim_start_by p s in if p c then rest else c ∷ s

abbrev pub trim_end_by : (ℕ → Bool) → Text → Text
trim_end_by p [] = []
trim_end_by p (c ∷ s) = let rest = trim_end_by p s in if p c && is_empty rest then [] else c ∷ rest

unfoldable pub trim : Text → Text
unfolding is_whitespace
trim s = trim_end_by is_whitespace (trim_start_by is_whitespace s)

-- `char::is_ascii_alphanumeric`
unfoldable pub is_ascii_alphanumeric : ℕ → Bool
is_ascii_alphanumeric c =
    (leb b'0' c && leb c b'9') || (leb b'A' c && leb c b'Z') || (leb b'a' c && leb c b'z')
