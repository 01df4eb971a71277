-- ===== src/Database/Discovery.antt =====
-- internal/database/db/profile.sql.go: ListDiscoveryProfiles.
pub mod Offers
use mathlib.Core.Option
use match_camp.Base.{
  ℕ, ◌+◌, ◌-◌, Bool, true, not, ◌&&◌, ◌||◌, Option, none, some, List, [], ◌∷◌, map, take, drop, any,
  filter, find?, sort_by, ltb, leb, ◌==◌, if◌then◌else◌,
}
use match_camp.Database.Match.{swiped}
use match_camp.Database.Models.{Uuid, Date, User, Profile, ProfilePreference, Db}
use match_camp.Database.Profile.{preference_of, blocks_user}
use match_camp.Database.Result.{ok, Query}
use match_camp.Text.{Text}

pub record DiscoveryRow : Type 0 where
  pub id : Uuid
  pub display_name : Text
  pub bio : Text
  pub course : Text
  pub campus : Text
  pub birth_date : Option Date

-- EXTRACT(YEAR FROM AGE(birth)): AGE subtracts field by field; days that are short take a month,
-- and months that are short take a year. 0 for a birth in the future, whose age is not positive.
unfoldable pub age_years : Date → Date → ℕ
age_years today birth =
    let short_days : ℕ = if ltb today.day birth.day then 1 else 0 in
    let short_months : ℕ = if ltb today.month (birth.month + short_days) then 1 else 0 in
    today.year - (birth.year + short_months)

-- the last condition: no preference, no birth date, or an age within the preference
unfoldable pub age_wanted : Date → Option ProfilePreference → Option Date → Bool
unfolding age_years
age_wanted today none birth = true
age_wanted today (some pref) none = true
age_wanted today (some pref) (some birth) =
    leb pref.min_age (age_years today birth) && leb (age_years today birth) pref.max_age

-- the WHERE, for the reader `me`
unfoldable pub is_discoverable : Date → Uuid → Db → User → Profile → Bool
unfolding age_wanted
is_discoverable today me db u p =
    p.visible
    && not (u.id == me)
    && not (any (swiped me u.id) db.swipes)
    && not (any (λ b. blocks_user me u.id b || blocks_user u.id me b) db.blocks)
    && age_wanted today (find? (preference_of me) db.profile_preferences) p.birth_date

-- a profile and its user
abbrev pub joined : Db → Profile → Option (User × Profile)
joined db p = Option.map (λ u. (u, p)) (find? (λ (u : User). u.id == p.user_id) db.users)

abbrev pub cons_joined : Option (User × Profile) → List (User × Profile) → List (User × Profile)
cons_joined none rows = rows
cons_joined (some row) rows = row ∷ rows

unfoldable pub join_users : Db → List Profile → List (User × Profile)
join_users db [] = []
join_users db (p ∷ ps) = cons_joined (joined db p) (join_users db ps)

abbrev pub latest_first : User × Profile → User × Profile → Bool
latest_first (_, p) (_, q) = leb q.updated_at p.updated_at

abbrev pub discovery_row : User × Profile → DiscoveryRow
discovery_row (u, p) = record {
  id = u.id;
  display_name = u.display_name;
  bio = p.bio;
  course = p.course;
  campus = p.campus;
  birth_date = p.birth_date;
}

-- ListDiscoveryProfiles: `today` is the database's date.
unfoldable pub list_discovery_profiles : Date → Uuid → ℕ → ℕ → Query (List DiscoveryRow)
unfolding join_users is_discoverable
list_discovery_profiles today me limit offset db = ok (
  map discovery_row (
      take limit (
        drop offset (
          sort_by latest_first
            (filter (λ r. is_discoverable today me db r.0 r.1) (join_users db db.profiles))))),
  db,
)
