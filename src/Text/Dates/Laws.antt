-- ===== src/Text/Dates/Laws.antt =====
-- Dates printed and parsed.
use match_camp.Base.{ℕ, ◌+◌, ◌*◌, ◌/◌, ◌%◌, ◌≤◌, ◌<◌, ◌≡◌, refl, true, some, [], ◌∷◌, arith}
use match_camp.Database.Models.{Date}
use match_camp.Text.{Text}
use match_camp.Text.Atoi.{is_digit}
use match_camp.Text.Dates.{days_in, two_digits, is_date, parse_date}

abbrev pub digit_of : ℕ → ℕ
digit_of n = b'0' + n % 10

-- `t.Format("2006-01-02")` of a year with at most four digits
abbrev pub print_date : Date → Text
print_date d =
    digit_of (d.year / 1000)
    ∷ digit_of (d.year / 100)
    ∷ digit_of (d.year / 10)
    ∷ digit_of d.year
    ∷ b'-'
    ∷ digit_of (d.month / 10)
    ∷ digit_of d.month
    ∷ b'-'
    ∷ digit_of (d.day / 10)
    ∷ digit_of d.day
    ∷ []

digit_of-is_digit : (n : ℕ) → is_digit (digit_of n) ≡ true
digit_of-is_digit n = ground arith

two_digits-digit_of : (n : ℕ) → n < 100 → two_digits (digit_of (n / 10)) (digit_of n) ≡ n
two_digits-digit_of n h = omega arith

four_digits-digit_of :
    (n : ℕ)
    → n < 10000
    → two_digits (digit_of (n / 1000)) (digit_of (n / 100)) * 100
        + two_digits (digit_of (n / 10)) (digit_of n)
      ≡ n
four_digits-digit_of n h = omega arith

days_in-le : (month year : ℕ) → days_in month year ≤ 31
unfolding days_in
days_in-le month year = ground arith

-- A date of a year below 10000 that is on the calendar is parsed back from its print.
pub parse_date-print :
    (d : Date)
    → d.year < 10000
    → is_date d.year d.month d.day ≡ true
    → parse_date (print_date d) ≡ some d
unfolding parse_date
parse_date-print d small valid =
    let month_small : d.month < 100 = ground arith in
    let day_small : d.day < 100 = ground (arith, days_in-le d.month d.year) in
    rw (digit_of-is_digit (d.year / 1000)) rw (digit_of-is_digit (d.year / 100)) rw
      (digit_of-is_digit (d.year / 10)) rw (digit_of-is_digit d.year) rw
      (digit_of-is_digit (d.month / 10)) rw (digit_of-is_digit d.month) rw
      (digit_of-is_digit (d.day / 10)) rw (digit_of-is_digit d.day) rw
      (four_digits-digit_of d.year small) rw (two_digits-digit_of d.month month_small) rw
      (two_digits-digit_of d.day day_small) rw valid refl
