-- ===== src/Server/Photos/Keeping.antt =====
-- PUT /v1/profile/photos/{position}: what it leaves of the table of photos.
use match_camp.Base.{
  ℕ, ◌+◌, ◌≤◌, String, ◌≡◌, refl, sym, subst, ◌∙◌, inl, inr, Option, none, some, List,
}
use match_camp.Database.Models.{Uuid, ProfilePhoto, Db}
use match_camp.Database.Photos.{get_profile_photo_by_position, upsert_profile_photo}
use match_camp.Database.Photos.Album.{IsAlbum, IsSaved, upsert_profile_photo-Yields}
use match_camp.Database.Result.{DbError, Result, ok, err}
use match_camp.Server.Bodies.{profile_photo_response}
use match_camp.Server.Photos.{
  FormFile, position_of, parse_photo_position, remove_key, remove_profile_photo_object, read_upload,
  new_photo_key, saved_or_removed, remove_old, store_photo, upload_profile_photo,
}
use match_camp.Server.Photos.Upload.{UploadRefused, IsImageForm, position_of-le, read_upload-Ends}
use match_camp.Server.Response.{one_photo, Response, write_json, CurrentUser, or_error, lift}
use match_camp.Server.Response.Laws.{lift-Ends, or_error-ok, or_error-err}
use match_camp.Storage.Photos.{profile_photo_key}
use match_camp.Text.{Text, codes}
use match_camp.Text.Atoi.{atoi}
use match_camp.World.Ends.{
  Ends, and_then-Ends, run_query-Ends, run_insert-Ends, on_error-Ends, Ends-weaken, Found,
  Found-same, observe-Ends, ignore-Ends,
}
use match_camp.World.Ensures.{one_row-Yields}
use match_camp.World.Env.{Env, Server, World}
use match_camp.World.Monad.{on_error, ignore, run_query, run_insert, observe}
use match_camp.World.Objects.{put_object, delete_object}
use match_camp.World.Objects.Laws.{put_object-Ends, delete_object-Ends}

pub remove_profile_photo_object-Ends :
    (P : String → Db → Type 0) (Q : Db → Type 0) (env : Env) (srv : Server) (url : Text) (w : World)
    → Q w.db
    → Ends (λ _. Q) P (remove_profile_photo_object env srv url w)
unfolding remove_profile_photo_object
remove_profile_photo_object-Ends P Q env srv url w h = go (srv.storage.key_from_url url)
  where
    go : (key : Option Text) → Ends (λ _. Q) P (remove_key env srv key w)
    go none = h
    go (some key) = ignore-Ends Q P (delete_object srv.storage key) w (
        Ends-weaken _ _ _ _ (delete_object srv.storage key w) (λ _ db' k. subst Q (sym k) h)
          (λ _ db' k. subst Q (sym k) h) (delete_object-Ends srv.storage key w))

remove_old-Ends :
    (P : String → Db → Type 0) (Q : Db → Type 0) (env : Env) (srv : Server)
    (old : Result DbError ProfilePhoto) (w : World)
    → Q w.db
    → Ends (λ _. Q) P (remove_old env srv old w)
remove_old-Ends P Q env srv (ok photo) w h =
    remove_profile_photo_object-Ends P Q env srv photo.url w h
remove_old-Ends P Q env srv (err e) w h = h

pub parse_photo_position-Ends :
    (P : String → Db → Type 0) (param : Text) (w : World)
    → P "invalid_profile_photo_position" w.db
    → Ends
        (λ n db'. (db' ≡ w.db) × (position_of (atoi param) ≡ some n))
        P
        (parse_photo_position param w)
unfolding parse_photo_position
parse_photo_position-Ends P param w stop =
    Ends-weaken _ _ _ _
      (lift (or_error (position_of (atoi param)) "invalid_profile_photo_position") w)
      (λ n db' k. (k.0, or_error-ok (position_of (atoi param)) _ n k.1)) (λ _ _ k. k)
      (lift-Ends P (or_error (position_of (atoi param)) "invalid_profile_photo_position") w
        (λ code e. subst (λ c. P c w.db) (or_error-err (position_of (atoi param)) _ code e) stop))

-- What a 200 leaves: the photo at its place, under a URL that the store gave.
abbrev pub Kept : Server → Uuid → ℕ → Db → Response → Db → Type 0
Kept srv user position before resp after =
    (key : Text) × (photo : ProfilePhoto) × (resp
      ≡ write_json 200 (one_photo (profile_photo_response photo)))
    × IsSaved user position (srv.storage.url key) before photo after

new_photo_key-Ends :
    (env : Env) (srv : Server) (user : Uuid) (position : ℕ) (ext : Text) (w : World)
    → Ends (λ _ db'. db' ≡ w.db) (UploadRefused w.db) (new_photo_key env srv user position ext w)
unfolding new_photo_key
new_photo_key-Ends env srv user position ext w =
    go (profile_photo_key (codes (env.uuid_string user)) position ext (env.random_hex w.drawn))
  where
    go :
        (key : Option Text)
        → Ends {E = String}
            (λ _ db'. db' ≡ w.db)
            (UploadRefused w.db)
            (or_error key "profile_photo_name_failed", record w { drawn = w.drawn + 1 })
    go none = (inr (inr (inr (inr (inr (inr (inl refl)))))), refl)
    go (some key) = refl

saved_or_removed-Ends :
    (Q : ProfilePhoto → Db → Type 0) (before : Db) (env : Env) (srv : Server) (key : Text)
    (saved : Result DbError ProfilePhoto) (w : World)
    → Found Q (λ _ db'. db' ≡ before) saved w.db
    → Ends Q (UploadRefused before) (saved_or_removed env srv key saved w)
saved_or_removed-Ends Q before env srv key (ok photo) w h = h
saved_or_removed-Ends Q before env srv key (err e) w h =
    and_then-Ends (λ _ db'. db' ≡ before) _ (UploadRefused before)
      (ignore {E = Unit {0}} (delete_object srv.storage key) w) _
      (ignore-Ends _ (UploadRefused before) (delete_object srv.storage key) w (
        Ends-weaken _ _ _ _ (delete_object srv.storage key w) (λ _ db' k. k ∙ h) (λ _ db' k. k ∙ h)
          (delete_object-Ends srv.storage key w)))
      λ _ w₁ h₁. (inr (inr (inr (inr (inr (inr (inr (inr (inl refl)))))))), h₁)

store_photo-Ends :
    (env : Env) (srv : Server) (user : Uuid) (position : ℕ) (upload : List ℕ × Text) (before : Db)
    (w : World)
    → IsAlbum before.profile_photos
    → w.db ≡ before
    → Ends
        (Kept srv user position before)
        (UploadRefused before)
        (store_photo env srv user position upload w)
unfolding store_photo
store_photo-Ends env srv user position (content, ext) before w album same =
    and_then-Ends (λ _ db'. db' ≡ before) _ Refusal
      (observe (run_query (get_profile_photo_by_position user position)) w) _ looked_up
      λ old w₁ h₁.
        and_then-Ends (λ _ db'. db' ≡ before) _ Refusal (new_photo_key env srv user position ext w₁)
          _
          (Ends-weaken _ _ _ _ (new_photo_key env srv user position ext w₁) (λ _ db' k. k ∙ h₁)
            (λ c db' k. (k.0, k.1 ∙ h₁)) (new_photo_key-Ends env srv user position ext w₁))
          λ key w₂ h₂.
            and_then-Ends (λ url db'. (db' ≡ before) × (url ≡ srv.storage.url key)) _ Refusal
              (on_error (put_object srv.storage key content) (λ _. "profile_photo_upload_failed")
                w₂)
              _
              (on_error-Ends _ Refusal (put_object srv.storage key content)
                (λ _. "profile_photo_upload_failed") w₂
                (Ends-weaken _ _ _ _ (put_object srv.storage key content w₂)
                  (λ _ db' k. (k.0 ∙ h₂, k.1))
                  (λ e db' k. (inr (inr (inr (inr (inr (inr (inr (inl refl))))))), k ∙ h₂))
                  (put_object-Ends srv.storage key content w₂)))
              λ url w₃ h₃.
                and_then-Ends (Found (IsSaved user position url before) (λ _ db'. db' ≡ before)) _
                  Refusal
                  (observe
                    (run_insert env.gen_random_uuid
                      (λ id. upsert_profile_photo id user url position))
                    w₃)
                  _
                  (observe-Ends _ _ _
                    (run_insert env.gen_random_uuid
                      (λ id. upsert_profile_photo id user url position))
                    w₃
                    (Ends-weaken _ _ _ _
                      (run_insert env.gen_random_uuid
                        (λ id. upsert_profile_photo id user url position) w₃)
                      (λ _ db' k. rw h₃.0 at k) (λ e db' k. k ∙ h₃.0)
                      (run_insert-Ends _ env.gen_random_uuid
                        (λ id. upsert_profile_photo id user url position) w₃
                        (λ id.
                          upsert_profile_photo-Yields id user url position w₃.db (rw h₃.0 album)))))
                  λ saved w₄ h₄.
                    and_then-Ends (IsSaved user position url before) _ Refusal
                      (saved_or_removed env srv key saved w₄) _
                      (saved_or_removed-Ends (IsSaved user position url before) before env srv key
                        saved w₄ h₄)
                      λ photo w₅ h₅.
                        and_then-Ends (λ _. IsSaved user position url before photo) _ Refusal
                          (remove_old env srv old w₅) _
                          (remove_old-Ends Refusal _ env srv old w₅ h₅)
                          λ _ w₆ h₆. (
                            key,
                            photo,
                            refl,
                            subst (λ u. IsSaved user position u before photo w₆.db) h₃.1 h₆,
                          )
  where
    Refusal : String → Db → Type 0
    Refusal = UploadRefused before

    looked_up :
        Ends {E = String}
          (λ _ db'. db' ≡ before)
          Refusal
          (observe (run_query (get_profile_photo_by_position user position)) w)
    looked_up =
        Ends-weaken (Found (λ _ db'. db' ≡ before) (λ _ db'. db' ≡ before)) _ Refusal Refusal
          (observe (run_query (get_profile_photo_by_position user position)) w)
          (λ r db' k. Found-same (λ db'. db' ≡ before) r db' k) (λ _ _ k. k)
          (observe-Ends _ _ Refusal (run_query (get_profile_photo_by_position user position)) w (
            Ends-weaken _ _ _ _ (run_query (get_profile_photo_by_position user position) w)
              (λ _ db' k. k ∙ same) (λ _ db' k. k ∙ same)
              (run_query-Ends (λ _ db'. db' ≡ w.db) (get_profile_photo_by_position user position) w
                (unfold get_profile_photo_by_position in
                  one_row-Yields (λ db'. db' ≡ w.db) _ w.db refl))))

-- On photos that keep their constraints, PUT /v1/profile/photos/{position} answers 200 only for a
-- position from 0 to 2 and a form with a readable image of at most the configured size; then the
-- user has a photo at this position under a URL of the store, every other photo is as it was, the
-- constraints hold, and no other table changes. Any error is one of nine codes and leaves the
-- tables as they were.
pub upload_profile_photo-Ends :
    (env : Env) (srv : Server) (user : CurrentUser) (param : Text) (form : Option (Option FormFile))
    (w : World)
    → IsAlbum w.db.profile_photos
    → Ends
        (λ resp db'.
          (position : ℕ) × (content : List ℕ) × (ext : Text) × (position_of (atoi param)
            ≡ some position)
          × (position ≤ 2)
          × IsImageForm srv form content ext
          × Kept srv user.id position w.db resp db')
        (UploadRefused w.db)
        (upload_profile_photo env srv user param form w)
unfolding upload_profile_photo
upload_profile_photo-Ends env srv user param form w album =
    and_then-Ends (λ position db'. (db' ≡ w.db) × (position_of (atoi param) ≡ some position)) _
      Refusal (parse_photo_position param w) _
      (parse_photo_position-Ends Refusal param w (inl refl, refl))
      λ position w₁ h₁.
        and_then-Ends (λ upload db'. (db' ≡ w.db) × IsImageForm srv form upload.0 upload.1) _
          Refusal (read_upload env srv form w₁) _
          (Ends-weaken _ _ _ _ (read_upload env srv form w₁) (λ upload db' k. (k.0 ∙ h₁.0, k.1))
            (λ c db' k. (k.0, k.1 ∙ h₁.0)) (read_upload-Ends env srv form w₁))
          λ upload w₂ h₂.
            Ends-weaken _ _ _ _ (store_photo env srv user.id position upload w₂)
              (λ resp db' k. (
                position,
                upload.0,
                upload.1,
                h₁.1,
                position_of-le (atoi param) position h₁.1,
                h₂.1,
                k,
              ))
              (λ _ _ k. k) (store_photo-Ends env srv user.id position upload w.db w₂ album h₂.0)
  where
    Refusal : String → Db → Type 0
    Refusal = UploadRefused w.db
