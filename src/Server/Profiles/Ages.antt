-- ===== src/Server/Profiles/Ages.antt =====
-- The age that the server shows, and the age by which PostgreSQL selects.
use match_camp.Base.{
  ℕ, ◌+◌, ◌≤◌, ◌<◌, ◌≡◌, ap, ◌∙◌, ◌⊎◌, inl, inr, true, false, some, arith, pos, ltb, leb,
  if◌then◌else◌, Bool-cases,
}
use match_camp.Database.Discovery.{age_years}
use match_camp.Database.Models.{Date}
use match_camp.Server.Profiles.{normal_date, starts_before, calc_age}
use match_camp.Text.Dates.{is_leap, days_in, is_date}

abbrev pub OnCalendar : Date → Type 0
OnCalendar d = is_date d.year d.month d.day ≡ true

-- the birth is not after the day
abbrev pub IsBorn : Date → Date → Type 0
IsBorn today birth =
    (birth.year < today.year)
    ⊎ ((birth.year ≡ today.year)
        × ((birth.month < today.month) ⊎ ((birth.month ≡ today.month) × (birth.day ≤ today.day))))

days_in_february : (month year : ℕ) → (days_in month year ≡ 28) ⊎ (29 ≤ days_in month year)
unfolding days_in
days_in_february month year = elim (Bool-cases (is_leap year)) [
  | inl leap ↦ rw leap (ground arith)
  | inr short ↦ rw short (ground arith)
]

february : (month y₁ y₂ : ℕ) → days_in month y₁ ≡ 28 → days_in month y₂ < 30
unfolding days_in
february month y₁ y₂ h = ground arith

same_month : (month y₁ y₂ : ℕ) → 30 ≤ days_in month y₁ → days_in month y₂ ≡ days_in month y₁
unfolding days_in
same_month month y₁ y₂ h = ground arith

of_28_days : (month year : ℕ) → days_in month year ≡ 28 → month ≡ 2
unfolding days_in
of_28_days month year h = ground arith

-- The only day on the calendar that another year lacks is February 29.
abbrev pub Lacks : ℕ → Date → Type 0
Lacks year birth = (birth.month ≡ 2) × (birth.day ≡ 29) × (days_in birth.month year ≡ 28)

has_or_Lacks :
    (year : ℕ) (birth : Date)
    → OnCalendar birth
    → (birth.day ≤ days_in birth.month year) ⊎ Lacks year birth
has_or_Lacks year birth there = elim (Bool-cases (leb birth.day (days_in birth.month year))) [
  | inl has ↦ inl (ground (arith, has))
  | inr lacks ↦ elim (days_in_february birth.month year) [
    | inl short ↦
        let most : days_in birth.month birth.year < 30 =
          february birth.month year birth.year short in
        inr (of_28_days birth.month year short, ground (arith, lacks, short, most, there), short)
    | inr more ↦ elim (Bool-cases (leb 30 (days_in birth.month birth.year))) [
      | inl long ↦
          let same = same_month birth.month birth.year year (ground (arith, long)) in
          absurd (ground (arith, same, lacks, there))
      | inr not_long ↦ absurd (ground (arith, not_long, lacks, there, more))
    ]
  ]
]

-- Before the birthday of this year, by the date that time.Date makes of it, exactly where the month
-- and the day come before those of the birth.
starts_before-normal_date :
    (today birth : Date)
    → OnCalendar today
    → OnCalendar birth
    → starts_before today (normal_date today.year birth.month birth.day)
      ≡ ltb today.month (birth.month + (if ltb today.day birth.day then 1 else 0))
unfolding normal_date
starts_before-normal_date today birth here there = elim (has_or_Lacks today.year birth there) [
  | inl has ↦ ground (arith, has)
  | inr (second, last, short) ↦
      let in_month : today.month ≡ birth.month → today.day ≤ 28 =
        λ same. ground (arith, ap (λ m. days_in m today.year) same ∙ short, here) in
      let over : leb birth.day (days_in birth.month today.year) ≡ false =
        ground (arith, last, short) in
      rw over rw short ground (arith, second, last, in_month)
]

-- For a day and a birth on the calendar, the birth not after the day, calcAge, to which a birthday on
-- February 29 is March 1 of a year without one, shows the years of AGE, by which
-- ListDiscoveryProfiles selects, where both take this day for today.
pub calc_age-eq-age_years :
    (today birth : Date)
    → OnCalendar today
    → OnCalendar birth
    → IsBorn today birth
    → calc_age today (some birth) ≡ some (pos (age_years today birth))
unfolding calc_age age_years
calc_age-eq-age_years today birth here there born =
    rw (starts_before-normal_date today birth here there) (ground (arith, born))
