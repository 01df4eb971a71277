-- ===== src/Server/Profiles.antt =====
-- internal/server/server.go: the handlers of a user's profile and preferences.
pub mod Ages
pub mod Visibility
pub mod Preferences
pub mod Saving
pub mod Editing
use match_camp.Base.{
  ℕ, ◌+◌, ◌-◌, String, Bool, true, false, not, ◌&&◌, ◌||◌, Option, none, some, List, map, str_eq, ℤ,
  pos, negsuc, ltb, leb, ◌==◌, if◌then◌else◌,
}
use match_camp.Database.Models.{Date, ProfilePhoto}
use match_camp.Database.Profile.{
  upsert_profile, update_profile_visibility, MyProfileRow, PublicProfileRow, get_my_profile,
  list_profile_photos, get_public_profile, upsert_preferences,
}
use match_camp.Database.Result.{DbError, no_rows, Result, ok, err}
use match_camp.Server.Bodies.{
  profile_photo_response, MyProfileBody, public_photo, PublicProfileBody,
}
use match_camp.Server.Payload.{is_empty}
use match_camp.Server.Response.{
  saved_status, my_profile, public_profile_body, visibility, preferences, Response, write_json,
  CurrentUser, decode_json, lift, parse_route_uuid,
}
use match_camp.Text.{Text, byte_len, trim_space}
use match_camp.Text.Dates.{days_in, parse_date}
use match_camp.World.Env.{Env}
use match_camp.World.Monad.{M, ◌>>=◌, ◌>>◌, pure, raise_if, on_error, run_query}

-- `a - b`
abbrev pub sub_ℕ : ℕ → ℕ → ℤ
sub_ℕ a b = if leb b a then pos (a - b) else negsuc (b - a - 1)

-- time.Date of a day from 1 to 31, which may lie after the end of its month: then it counts on into
-- the next one, as February 29 into March.
unfoldable pub normal_date : ℕ → ℕ → ℕ → Date
normal_date year month day =
    if leb day (days_in month year)
    then record { year = year; month = month; day = day }
    else if month == 12
    then record { year = year + 1; month = 1; day = day - days_in month year }
    else record { year = year; month = month + 1; day = day - days_in month year }

-- now.Before of the midnight at which a date begins, where `today` is the date of now
abbrev pub starts_before : Date → Date → Bool
starts_before today date =
    ltb today.year date.year
    || (today.year == date.year
        && (ltb today.month date.month || (today.month == date.month && ltb today.day date.day)))

-- calcAge, where `today` is the date of now in time.Local
unfoldable pub calc_age : Date → Option Date → Option ℤ
unfolding normal_date
calc_age today none = none
calc_age today (some birth) =
    let birthday : Date = normal_date today.year birth.month birth.day in
    some (sub_ℕ today.year (birth.year + (if starts_before today birthday then 1 else 0)))

pub record ProfileRequest : Type 0 where
  pub bio : Text
  pub course : Text
  pub campus : Text
  pub birth_date : Text

-- the date of a request: blank, a date, or neither
unfoldable pub request_date : Text → Result String (Option Date)
request_date s =
    if is_empty (trim_space s)
    then ok none
    else elim (parse_date s) [ none ↦ err "invalid_birth_date" | some d ↦ ok (some d) ]

unfoldable pub profile_too_large : ProfileRequest → Bool
profile_too_large req =
    ltb 500 (byte_len (trim_space req.bio))
    || ltb 120 (byte_len (trim_space req.course))
    || ltb 120 (byte_len (trim_space req.campus))

pub record PreferencesRequest : Type 0 where
  pub interested_in : String
  pub min_age : ℤ
  pub max_age : ℤ

abbrev pub below : ℤ → ℕ → Bool
below (pos n) k = ltb n k
below (negsuc n) k = true

abbrev pub above : ℤ → ℤ → Bool
above (pos n) (pos k) = ltb k n
above (pos n) (negsuc k) = true
above (negsuc n) (pos k) = false
above (negsuc n) (negsuc k) = ltb n k

abbrev pub magnitude_of : ℤ → ℕ
magnitude_of (pos n) = n
magnitude_of (negsuc n) = 0

abbrev pub is_interest : String → Bool
is_interest s = str_eq s "everyone" || str_eq s "men" || str_eq s "women"

unfoldable pub invalid_preferences : PreferencesRequest → Bool
invalid_preferences req =
    not (is_interest req.interested_in)
    || below req.min_age 18
    || above req.max_age (pos 99)
    || above req.min_age req.max_age

abbrev pub my_profile_body : Date → MyProfileRow → List ProfilePhoto → MyProfileBody
my_profile_body today row photos = record {
  id = row.id;
  email = row.email;
  display_name = row.display_name;
  bio = row.bio;
  course = row.course;
  campus = row.campus;
  age = calc_age today row.birth_date;
  visible = row.visible;
  photos = map profile_photo_response photos;
}

abbrev pub public_body : Date → PublicProfileRow → List ProfilePhoto → PublicProfileBody
public_body today row photos = record {
  id = row.id;
  display_name = row.display_name;
  age = calc_age today row.birth_date;
  bio = row.bio;
  course = row.course;
  campus = row.campus;
  photos = map public_photo photos;
}

abbrev pub user_error : DbError → String
user_error no_rows = "user_not_found"
user_error _ = "profile_fetch_failed"

module _ (env : Env) where
  -- the date of time.Now()
  unfoldable pub local_today : M String Date
  local_today w = (ok (env.local_date w.clock), w)

  -- GET /v1/me
  unfoldable pub me : CurrentUser → M String Response
  me user = do
    row ← on_error (run_query (get_my_profile user.id)) (λ _. "profile_fetch_failed")
    photos ← on_error (run_query (list_profile_photos user.id)) (λ _. "profile_photos_list_failed")
    today ← local_today
    pure (write_json 200 (my_profile (my_profile_body today row photos)))

  -- PUT /v1/profile
  unfoldable pub upsert_profile_handler : CurrentUser → Option ProfileRequest → M String Response
  upsert_profile_handler user payload = do
    req ← decode_json payload
    raise_if (profile_too_large req) "profile_too_large"
    birth_date ← lift (request_date req.birth_date)
    on_error
        (run_query (
          upsert_profile user.id (trim_space req.bio) (trim_space req.course)
            (trim_space req.campus) birth_date))
        (λ _. "profile_save_failed")
    pure (write_json 200 saved_status)

  -- PATCH /v1/profile/visibility, with the one field of its request
  unfoldable pub update_visibility : CurrentUser → Option Bool → M String Response
  update_visibility user payload = do
    visible ← decode_json payload
    rows ←
        on_error (run_query (update_profile_visibility user.id visible))
          (λ _. "visibility_update_failed")
    raise_if (rows == 0) "profile_incomplete"
    pure (write_json 200 (visibility visible))

  -- PUT /v1/profile/preferences
  unfoldable pub upsert_preferences_handler :
      CurrentUser → Option PreferencesRequest → M String Response
  upsert_preferences_handler user payload = do
    req ← decode_json payload
    raise_if (invalid_preferences req) "invalid_preferences_payload"
    on_error
        (run_query (
          upsert_preferences user.id req.interested_in (magnitude_of req.min_age)
            (magnitude_of req.max_age)))
        (λ _. "preferences_save_failed")
    pure (write_json 200 (preferences req.interested_in req.min_age req.max_age))

  -- GET /v1/users/{id}
  unfoldable pub public_profile : Text → M String Response
  public_profile id_param = do
    target ← parse_route_uuid env.uuid_parse id_param
    row ← on_error (run_query (get_public_profile target)) user_error
    photos ← on_error (run_query (list_profile_photos target)) (λ _. "profile_photos_list_failed")
    today ← local_today
    pure (write_json 200 (public_profile_body (public_body today row photos)))
