-- ===== src/Server/Photos.antt =====
-- internal/server/server.go: the handlers of profile photos.
pub mod Upload
pub mod Keeping
pub mod Removal
use match_camp.Base.{
  ℕ, suc, ◌+◌, String, Option, none, some, List, map, ℤ, pos, negsuc, length, take, ltb,
  if◌then◌else◌,
}
use match_camp.Database.Models.{Uuid, ProfilePhoto}
use match_camp.Database.Photos.{
  get_profile_photo_by_position, upsert_profile_photo, delete_profile_photo_by_position,
}
use match_camp.Database.Profile.{list_profile_photos}
use match_camp.Database.Result.{DbError, no_rows, Result, ok, err}
use match_camp.Server.Blocks.{no_content}
use match_camp.Server.Bodies.{profile_photo_response}
use match_camp.Server.Response.{
  one_photo, photo_list, Response, write_json, CurrentUser, or_error, lift,
}
use match_camp.Storage.Photos.{profile_photo_key, detect_image_extension}
use match_camp.Text.{Text, codes}
use match_camp.Text.Atoi.{atoi}
use match_camp.World.Env.{Env, Server}
use match_camp.World.Monad.{
  M, ◌>>=◌, ◌>>◌, pure, raise, raise_if, on_error, ignore, run_query, run_insert, observe,
}
use match_camp.World.Objects.{put_object, delete_object}

-- a form file: what reading it gives, or `none` where it fails, and the size that its header says
pub record FormFile : Type 0 where
  pub content : Option (List ℕ)
  pub size : ℕ

-- parsePhotoPosition
unfoldable pub position_of : Option ℤ → Option ℕ
position_of none = none
position_of (some (negsuc n)) = none
position_of (some (pos n)) = if ltb 2 n then none else some n

unfoldable pub parse_photo_position : Text → M String ℕ
parse_photo_position param =
    lift (or_error (position_of (atoi param)) "invalid_profile_photo_position")

abbrev pub delete_photo_error : DbError → String
delete_photo_error no_rows = "profile_photo_not_found"
delete_photo_error _ = "profile_photo_delete_failed"

-- the content up to one byte past the limit
unfoldable pub read_limited : ℕ → Option (List ℕ) → Option (List ℕ)
read_limited most none = none
read_limited most (some content) = some (take (suc most) content)

module _ (env : Env) (srv : Server) where
  -- GET /v1/profile/photos
  unfoldable pub list_my_profile_photos : CurrentUser → M String Response
  list_my_profile_photos user = do
    photos ← on_error (run_query (list_profile_photos user.id)) (λ _. "profile_photos_list_failed")
    pure (write_json 200 (photo_list (map profile_photo_response photos)))

  abbrev pub remove_key : Option Text → M String (Unit {0})
  remove_key none = pure tt
  remove_key (some key) = ignore {E = Unit {0}} (delete_object srv.storage key)

  -- removeProfilePhotoObject
  unfoldable pub remove_profile_photo_object : Text → M String (Unit {0})
  remove_profile_photo_object url = remove_key (srv.storage.key_from_url url)

  -- the tests of an upload, from ParseMultipartForm to DetectImageExtension: `none` is a form that
  -- could not be parsed, `some none` one without the file
  unfoldable pub read_upload : Option (Option FormFile) → M String (List ℕ × Text)
  read_upload form = do
    parsed ← lift (or_error form "invalid_multipart_photo")
    file ← lift (or_error parsed "missing_photo_file")
    content ←
        lift (or_error (read_limited srv.max_profile_photo_bytes file.content) "photo_read_failed")
    raise_if (ltb srv.max_profile_photo_bytes (length content)) "profile_photo_too_large"
    ext ← lift (or_error (detect_image_extension content) "unsupported_profile_photo_type")
    raise_if (ltb srv.max_profile_photo_bytes file.size) "profile_photo_too_large"
    pure (content, ext)

  -- ProfilePhotoKey, with the random bytes that it draws
  unfoldable pub new_photo_key : Uuid → ℕ → Text → M String Text
  new_photo_key user position ext w = (
    or_error
        (profile_photo_key (codes (env.uuid_string user)) position ext (env.random_hex w.drawn))
        "profile_photo_name_failed",
    record w { drawn = w.drawn + 1 },
  )

  -- the statement, and the object of the key removed where it fails
  abbrev pub saved_or_removed : Text → Result DbError ProfilePhoto → M String ProfilePhoto
  saved_or_removed key (ok photo) = pure photo
  saved_or_removed key (err e) = do
    ignore {E = Unit {0}} (delete_object srv.storage key)
    raise "profile_photo_save_failed"

  abbrev pub remove_old : Result DbError ProfilePhoto → M String (Unit {0})
  remove_old (ok photo) = remove_profile_photo_object photo.url
  remove_old (err e) = pure tt

  -- from GetProfilePhotoByPosition on
  unfoldable pub store_photo : Uuid → ℕ → List ℕ × Text → M String Response
  store_photo user position (content, ext) = do
    old ← observe (run_query (get_profile_photo_by_position user position))
    key ← new_photo_key user position ext
    url ← on_error (put_object srv.storage key content) (λ _. "profile_photo_upload_failed")
    saved ←
        observe (run_insert env.gen_random_uuid (λ id. upsert_profile_photo id user url position))
    photo ← saved_or_removed key saved
    remove_old old
    pure (write_json 200 (one_photo (profile_photo_response photo)))

  -- PUT /v1/profile/photos/{position}
  unfoldable pub upload_profile_photo :
      CurrentUser → Text → Option (Option FormFile) → M String Response
  upload_profile_photo user param form = do
    position ← parse_photo_position param
    upload ← read_upload form
    store_photo user.id position upload

  -- DELETE /v1/profile/photos/{position}
  unfoldable pub delete_profile_photo : CurrentUser → Text → M String Response
  delete_profile_photo user param = do
    position ← parse_photo_position param
    photo ←
        on_error (run_query (delete_profile_photo_by_position user.id position)) delete_photo_error
    remove_profile_photo_object photo.url
    pure no_content
