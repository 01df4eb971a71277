-- ===== src/Text/Atoi.antt =====
-- `strconv.Atoi`, where `int` has 64 bits.
use match_camp.Base.{
  ℕ, ◌+◌, ◌-◌, ◌*◌, ◌^◌, Bool, ◌&&◌, Option, none, some, [], ◌∷◌, ℤ, pos, neg, ltb, leb, ◌==◌,
  if◌then◌else◌,
}
use match_camp.Text.{Text}

abbrev pub is_digit : ℕ → Bool
is_digit c = leb b'0' c && leb c b'9'

-- the value of a text of digits, most significant first
unfoldable pub digits_value : ℕ → Text → Option ℕ
digits_value acc [] = some acc
digits_value acc (c ∷ s) =
    let rest = digits_value (acc * 10 + (c - b'0')) s in if is_digit c then rest else none

unfoldable pub magnitude : Text → Option ℕ
unfolding digits_value
magnitude [] = none
magnitude (c ∷ s) = digits_value 0 (c ∷ s)

abbrev pub in_range : ℕ → (ℕ → ℤ) → Option ℕ → Option ℤ
in_range limit sign none = none
in_range limit sign (some n) = if ltb n limit then some (sign n) else none

-- -2^63 to 2^63 - 1; anything else is an error
unfoldable pub atoi : Text → Option ℤ
unfolding magnitude
atoi [] = none
atoi (c ∷ s) =
    if c == b'-'
    then in_range (2 ^ 63 + 1) neg (magnitude s)
    else if c == b'+'
    then in_range (2 ^ 63) pos (magnitude s)
    else in_range (2 ^ 63) pos (magnitude (c ∷ s))
