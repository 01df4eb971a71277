-- ===== src/Text/Dates.antt =====
-- `time.Parse("2006-01-02", s)`: four digits, two and two, and a day that the month has.
pub mod Laws
use match_camp.Base.{
  ℕ, ◌+◌, ◌-◌, ◌*◌, ◌%◌, Bool, true, not, ◌&&◌, ◌||◌, Option, none, some, [], ◌∷◌, leb, ◌==◌,
  if◌then◌else◌,
}
use match_camp.Database.Models.{Date}
use match_camp.Text.{Text}
use match_camp.Text.Atoi.{is_digit}

abbrev pub is_leap : ℕ → Bool
is_leap year = year % 4 == 0 && (not (year % 100 == 0) || year % 400 == 0)

unfoldable pub days_in : ℕ → ℕ → ℕ
days_in month year =
    if month == 2
    then (if is_leap year then 29 else 28)
    else if month == 4 || month == 6 || month == 9 || month == 11
    then 30
    else 31

abbrev pub all_digits : Text → Bool
all_digits [] = true
all_digits (c ∷ s) = is_digit c && all_digits s

abbrev pub two_digits : ℕ → ℕ → ℕ
two_digits a b = (a - b'0') * 10 + (b - b'0')

abbrev pub is_date : ℕ → ℕ → ℕ → Bool
is_date year month day = leb 1 month && leb month 12 && leb 1 day && leb day (days_in month year)

unfoldable pub parse_date : Text → Option Date
unfolding days_in
parse_date (y₁ ∷ y₂ ∷ y₃ ∷ y₄ ∷ s₁ ∷ m₁ ∷ m₂ ∷ s₂ ∷ d₁ ∷ d₂ ∷ []) =
    let year : ℕ = two_digits y₁ y₂ * 100 + two_digits y₃ y₄ in
    let month : ℕ = two_digits m₁ m₂ in
    let day : ℕ = two_digits d₁ d₂ in
    if all_digits (y₁ ∷ y₂ ∷ y₃ ∷ y₄ ∷ m₁ ∷ m₂ ∷ d₁ ∷ d₂ ∷ [])
      && s₁ == b'-'
      && s₂ == b'-'
      && is_date year month day
    then some (record { year = year; month = month; day = day })
    else none
parse_date _ = none
