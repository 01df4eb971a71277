-- ===== src/Database/Profile.antt =====
-- internal/database/db/profile.sql.go: profiles, preferences and blocks.
use mathlib.Core.Option
use match_camp.Base.{
  ℕ, String, Bool, false, not, ◌&&◌, Option, none, some, List, [], ◌∷◌, length, any, filter, find?,
  sort_by, ltb, leb, ◌==◌, if◌then◌else◌,
}
use match_camp.Database.Auth.{one_row}
use match_camp.Database.Models.{
  Uuid, Date, User, Profile, ProfilePhoto, ProfilePreference, Block, has_user,
}
use match_camp.Database.Result.{failed, ok, err, Query}
use match_camp.Text.{Text}

abbrev pub profile_of : Uuid → Profile → Bool
profile_of user_id p = p.user_id == user_id

-- the CHECKs of `profiles`
abbrev pub profile_check : Text → Text → Text → Bool
profile_check bio course campus =
    leb (length bio) 500 && leb (length course) 120 && leb (length campus) 120

abbrev pub update_where : {A : Type 0} → (A → Bool) → (A → A) → List A → List A
update_where p f [] = []
update_where p f (x ∷ xs) = (if p x then f x else x) ∷ update_where p f xs

-- UpsertProfile: a new profile is hidden, and one that is there keeps its visibility.
unfoldable pub upsert_profile : Uuid → Text → Text → Text → Option Date → Query (Unit {0})
upsert_profile user_id bio course campus birth_date db =
    if not (profile_check bio course campus)
    then err failed
    else if any (profile_of user_id) db.profiles
    then ok (
      tt,
      record db {
        profiles =
            update_where (profile_of user_id)
              (λ p. record p {
                bio = bio;
                course = course;
                campus = campus;
                birth_date = birth_date;
                updated_at = db.now;
              })
              db.profiles;
      },
    )
    else if not (has_user user_id db)
    then err failed
    else ok (
      tt,
      record db {
        profiles =
            record {
              user_id = user_id;
              bio = bio;
              course = course;
              campus = campus;
              birth_date = birth_date;
              visible = false;
              created_at = db.now;
              updated_at = db.now;
            }
            ∷ db.profiles;
      },
    )

-- the WHERE of UpdateProfileVisibility
unfoldable pub is_complete : Uuid → Profile → Bool
is_complete user_id p = p.user_id == user_id && ltb 0 (length p.course) && ltb 0 (length p.campus)

-- UpdateProfileVisibility: the number of rows that it changed
unfoldable pub update_profile_visibility : Uuid → Bool → Query ℕ
unfolding is_complete
update_profile_visibility user_id visible db = ok (
  length (filter (is_complete user_id) db.profiles),
  record db {
    profiles =
        update_where (is_complete user_id)
          (λ p. record p { visible = visible; updated_at = db.now }) db.profiles;
  },
)

pub record MyProfileRow : Type 0 where
  pub id : Uuid
  pub email : Text
  pub display_name : Text
  pub bio : Text
  pub course : Text
  pub campus : Text
  pub birth_date : Option Date
  pub visible : Bool

pub record PublicProfileRow : Type 0 where
  pub id : Uuid
  pub display_name : Text
  pub bio : Text
  pub course : Text
  pub campus : Text
  pub birth_date : Option Date
  pub visible : Bool
  pub photo_url : Text

-- COALESCE over a LEFT JOIN that found no profile
abbrev pub or_blank : Uuid → Option Profile → Profile
or_blank user_id (some p) = p
or_blank user_id none = record {
  user_id = user_id;
  bio = [];
  course = [];
  campus = [];
  birth_date = none;
  visible = false;
  created_at = 0;
  updated_at = 0;
}

abbrev pub my_profile_row : User → Profile → MyProfileRow
my_profile_row u p = record {
  id = u.id;
  email = u.email;
  display_name = u.display_name;
  bio = p.bio;
  course = p.course;
  campus = p.campus;
  birth_date = p.birth_date;
  visible = p.visible;
}

-- GetMyProfile
unfoldable pub get_my_profile : Uuid → Query MyProfileRow
get_my_profile id db =
    one_row
      (Option.map (λ u. my_profile_row u (or_blank id (find? (profile_of id) db.profiles)))
        (find? (λ (u : User). u.id == id) db.users))
      db

abbrev pub by_position : ProfilePhoto → ProfilePhoto → Bool
by_position a b = leb a.position b.position

-- ListProfilePhotos
unfoldable pub list_profile_photos : Uuid → Query (List ProfilePhoto)
list_profile_photos user_id db =
    ok (sort_by by_position (filter (λ p. p.user_id == user_id) db.profile_photos), db)

abbrev pub first_url : List ProfilePhoto → Text
first_url [] = []
first_url (p ∷ ps) = p.url

abbrev pub public_profile_row : User → Profile → Text → PublicProfileRow
public_profile_row u p url = record {
  id = u.id;
  display_name = u.display_name;
  bio = p.bio;
  course = p.course;
  campus = p.campus;
  birth_date = p.birth_date;
  visible = p.visible;
  photo_url = url;
}

-- GetPublicProfile
unfoldable pub get_public_profile : Uuid → Query PublicProfileRow
get_public_profile id db =
    one_row
      (Option.map
        (λ u.
          public_profile_row u (or_blank id (find? (profile_of id) db.profiles))
            (first_url (sort_by by_position (filter (λ p. p.user_id == id) db.profile_photos))))
        (find? (λ (u : User). u.id == id) db.users))
      db

abbrev pub preference_of : Uuid → ProfilePreference → Bool
preference_of user_id p = p.user_id == user_id

-- UpsertPreferences, with CHECK (min_age >= 18) and CHECK (max_age >= min_age)
unfoldable pub upsert_preferences : Uuid → String → ℕ → ℕ → Query (Unit {0})
upsert_preferences user_id interested_in min_age max_age db =
    let row : ProfilePreference = record {
      user_id = user_id;
      interested_in = interested_in;
      min_age = min_age;
      max_age = max_age;
      updated_at = db.now;
    } in
    if not (leb 18 min_age && leb min_age max_age)
    then err failed
    else if any (preference_of user_id) db.profile_preferences
    then ok (
      tt,
      record db {
        profile_preferences =
            update_where (preference_of user_id) (λ _. row) db.profile_preferences;
      },
    )
    else if not (has_user user_id db)
    then err failed
    else ok (tt, record db { profile_preferences = row ∷ db.profile_preferences })

abbrev pub blocks_user : Uuid → Uuid → Block → Bool
blocks_user blocker blocked b = b.blocker_id == blocker && b.blocked_id == blocked

-- BlockUser: ON CONFLICT DO NOTHING
unfoldable pub block_user : Uuid → Uuid → Query (Unit {0})
block_user blocker blocked db =
    if blocker == blocked
    then err failed
    else if any (blocks_user blocker blocked) db.blocks
    then ok (tt, db)
    else if not (has_user blocker db && has_user blocked db)
    then err failed
    else ok (
      tt,
      record db {
        blocks =
            record { blocker_id = blocker; blocked_id = blocked; created_at = db.now } ∷ db.blocks;
      },
    )

-- UnblockUser
unfoldable pub unblock_user : Uuid → Uuid → Query (Unit {0})
unblock_user blocker blocked db =
    ok (tt, record db { blocks = filter (λ b. not (blocks_user blocker blocked b)) db.blocks })

pub record PreferencesRow : Type 0 where
  pub interest : String
  pub youngest : ℕ
  pub oldest : ℕ

-- GetPreferences
unfoldable pub get_preferences : Uuid → Query PreferencesRow
get_preferences user_id db =
    one_row
      (Option.map
        (λ (p : ProfilePreference). record {
          interest = p.interested_in;
          youngest = p.min_age;
          oldest = p.max_age;
        })
        (find? (preference_of user_id) db.profile_preferences))
      db

-- IsBlocked
unfoldable pub is_blocked : Uuid → Uuid → Query Bool
is_blocked blocker blocked db = ok (any (blocks_user blocker blocked) db.blocks, db)
