-- ===== src/Database/Photos.antt =====
-- internal/database/db/profile.sql.go: the photos of a profile, with the CHECKs of
-- migrations/00002_profile_photo_limits.sql and 00005_max_3_photos.sql.
pub mod Album
use match_camp.Base.{
  ℕ, Bool, not, ◌&&◌, Option, none, some, ◌∷◌, length, any, filter, find?, leb, ◌==◌, if◌then◌else◌,
}
use match_camp.Database.Auth.{one_row}
use match_camp.Database.Models.{Uuid, Time, ProfilePhoto, has_user}
use match_camp.Database.Profile.{update_where}
use match_camp.Database.Result.{no_rows, unique_violation, failed, ok, err, Query}
use match_camp.Text.{Text}

abbrev pub at_position : Uuid → ℕ → ProfilePhoto → Bool
at_position user_id position p = p.user_id == user_id && p.position == position

-- GetProfilePhotoByPosition
unfoldable pub get_profile_photo_by_position : Uuid → ℕ → Query ProfilePhoto
get_profile_photo_by_position user_id position db =
    one_row (find? (at_position user_id position) db.profile_photos) db

abbrev pub photo_check : Text → ℕ → Bool
photo_check url position = leb position 2 && leb 1 (length url) && leb (length url) 2048

-- the photo at a position with its new url
unfoldable pub replace_photo : Text → Time → ProfilePhoto → ProfilePhoto
replace_photo url now p = record p { url = url; created_at = now }

abbrev pub insert_photo : Uuid → Uuid → Text → ℕ → Query ProfilePhoto
insert_photo id user_id url position db =
    let row : ProfilePhoto = record {
      id = id;
      user_id = user_id;
      url = url;
      position = position;
      created_at = db.now;
    } in
    if any (λ (p : ProfilePhoto). p.id == id) db.profile_photos
    then err unique_violation
    else if not (has_user user_id db)
    then err failed
    else ok (row, record db { profile_photos = row ∷ db.profile_photos })

abbrev pub insert_or_replace : Uuid → Uuid → Text → ℕ → Option ProfilePhoto → Query ProfilePhoto
insert_or_replace id user_id url position none db = insert_photo id user_id url position db
insert_or_replace id user_id url position (some p) db = ok (
  replace_photo url db.now p,
  record db {
    profile_photos =
        update_where (at_position user_id position) (replace_photo url db.now) db.profile_photos;
  },
)

-- UpsertProfilePhoto: a photo that is there keeps its id.
unfoldable pub upsert_profile_photo : Uuid → Uuid → Text → ℕ → Query ProfilePhoto
unfolding replace_photo
upsert_profile_photo id user_id url position db =
    if not (photo_check url position)
    then err failed
    else insert_or_replace id user_id url position
        (find? (at_position user_id position) db.profile_photos) db

abbrev pub remove_photo : Uuid → ℕ → Option ProfilePhoto → Query ProfilePhoto
remove_photo user_id position none db = err no_rows
remove_photo user_id position (some p) db = ok (
  p,
  record db {
    profile_photos = filter (λ q. not (at_position user_id position q)) db.profile_photos;
  },
)

-- DeleteProfilePhotoByPosition: the row that it removed
unfoldable pub delete_profile_photo_by_position : Uuid → ℕ → Query ProfilePhoto
delete_profile_photo_by_position user_id position db =
    remove_photo user_id position (find? (at_position user_id position) db.profile_photos) db
