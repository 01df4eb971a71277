-- ===== src/Server/Photos/Upload.antt =====
-- PUT /v1/profile/photos/{position}: what is accepted, as an image.
use match_camp.Base.{
  ℕ, zero, suc, ◌≤◌, String, ◌≡◌, refl, sym, ap, subst, ◌∙◌, inl, inr, Option, none, some, List, [],
  ◌∷◌, arith, ℤ, pos, negsuc, length, take, In, ltb,
}
use match_camp.Database.Models.{Db}
use match_camp.Server.Photos.{FormFile, position_of, read_limited, read_upload}
use match_camp.Server.Response.{or_error, lift}
use match_camp.Server.Response.Laws.{lift-Ends, or_error-ok, or_error-err}
use match_camp.Storage.Photos.{detect_image_extension}
use match_camp.Text.{Text}
use match_camp.World.Ends.{Ends, and_then-Ends, Ends-weaken, raise_if-Ends}
use match_camp.World.Env.{Env, Server, World}
use match_camp.World.Monad.{raise_if}

-- The errors of the endpoint.
abbrev pub upload_codes : List String
upload_codes =
    "invalid_profile_photo_position" ∷ "invalid_multipart_photo" ∷ "missing_photo_file"
    ∷ "photo_read_failed" ∷ "profile_photo_too_large" ∷ "unsupported_profile_photo_type"
    ∷ "profile_photo_name_failed" ∷ "profile_photo_upload_failed" ∷ "profile_photo_save_failed" ∷ []

abbrev pub UploadRefused : Db → String → Db → Type 0
UploadRefused before code after = In code upload_codes × (after ≡ before)

-- The form has a file that can be read, is not too large, and is an image.
abbrev pub IsImageForm : Server → Option (Option FormFile) → List ℕ → Text → Type 0
IsImageForm srv form content ext =
    (file : FormFile) × (form ≡ some (some file))
    × (file.content ≡ some content)
    × (length content ≤ srv.max_profile_photo_bytes)
    × (detect_image_extension content ≡ some ext)

-- A content cut one byte past the limit is the whole content where it keeps the limit.
take-whole :
    (most : ℕ) (content : List ℕ)
    → length (take (suc most) content) ≤ most
    → take (suc most) content ≡ content
take-whole most [] h = refl
take-whole zero (x ∷ xs) h = absurd (omega arith)
take-whole (suc most) (x ∷ xs) h = ap (λ l. x ∷ l) (take-whole most xs (omega arith))

read_limited-whole :
    (most : ℕ) (o : Option (List ℕ)) (content : List ℕ)
    → read_limited most o ≡ some content
    → length content ≤ most
    → o ≡ some content
unfolding read_limited
read_limited-whole most none content h short = cc
read_limited-whole most (some raw) content h short =
    let cut : take (suc most) raw ≡ content = ground (arith, h) in
    ap some (sym (take-whole most raw (rw cut short)) ∙ cut)

pub position_of-le : (o : Option ℤ) (n : ℕ) → position_of o ≡ some n → n ≤ 2
unfolding position_of
position_of-le none n h = cc
position_of-le (some (negsuc k)) n h = cc
position_of-le (some (pos k)) n h = ground arith

-- What reading the form gives.
pub read_upload-Ends :
    (env : Env) (srv : Server) (form : Option (Option FormFile)) (w : World)
    → Ends
        (λ upload db'. (db' ≡ w.db) × IsImageForm srv form upload.0 upload.1)
        (UploadRefused w.db)
        (read_upload env srv form w)
unfolding read_upload
read_upload-Ends env srv form w =
    and_then-Ends (λ parsed db'. (db' ≡ w.db) × (form ≡ some parsed)) _ Refusal
      (lift (or_error form "invalid_multipart_photo") w) _
      (read_ends form "invalid_multipart_photo" (inr (inl refl)) w refl)
      λ parsed w₁ h₁.
        and_then-Ends (λ file db'. (db' ≡ w.db) × (parsed ≡ some file)) _ Refusal
          (lift (or_error parsed "missing_photo_file") w₁) _
          (read_ends parsed "missing_photo_file" (inr (inr (inl refl))) w₁ h₁.0)
          λ file w₂ h₂.
            and_then-Ends
              (λ content db'.
                (db' ≡ w.db)
                × (read_limited srv.max_profile_photo_bytes file.content ≡ some content))
              _ Refusal
              (lift
                (or_error (read_limited srv.max_profile_photo_bytes file.content)
                  "photo_read_failed")
                w₂)
              _
              (read_ends (read_limited srv.max_profile_photo_bytes file.content) "photo_read_failed"
                (inr (inr (inr (inl refl)))) w₂ h₂.0)
              λ content w₃ h₃.
                and_then-Ends
                  (λ _ db'. (db' ≡ w.db) × (length content ≤ srv.max_profile_photo_bytes)) _ Refusal
                  (raise_if (ltb srv.max_profile_photo_bytes (length content))
                    "profile_photo_too_large" w₃)
                  _
                  (raise_if-Ends _ Refusal (ltb srv.max_profile_photo_bytes (length content)) _ w₃
                    (λ short. (h₃.0, ground (arith, short)))
                    (inr (inr (inr (inr (inl refl)))), h₃.0))
                  λ _ w₄ h₄.
                    and_then-Ends
                      (λ ext db'. (db' ≡ w.db) × (detect_image_extension content ≡ some ext)) _
                      Refusal
                      (lift
                        (or_error (detect_image_extension content) "unsupported_profile_photo_type")
                        w₄)
                      _
                      (read_ends (detect_image_extension content) "unsupported_profile_photo_type"
                        (inr (inr (inr (inr (inr (inl refl)))))) w₄ h₄.0)
                      λ ext w₅ h₅.
                        and_then-Ends (λ _ db'. db' ≡ w.db) _ Refusal
                          (raise_if (ltb srv.max_profile_photo_bytes file.size)
                            "profile_photo_too_large" w₅)
                          _
                          (raise_if-Ends _ Refusal (ltb srv.max_profile_photo_bytes file.size) _ w₅
                            (λ _. h₅.0) (inr (inr (inr (inr (inl refl)))), h₅.0))
                          λ _ w₆ h₆. (
                            h₆,
                            (
                              file,
                              h₁.1 ∙ ap some h₂.1,
                              read_limited-whole srv.max_profile_photo_bytes file.content content
                                  h₃.1 h₄.1,
                              h₄.1,
                              h₅.1,
                            ),
                          )
  where
    Refusal : String → Db → Type 0
    Refusal = UploadRefused w.db

    read_ends :
        {A : Type 0} (o : Option A) (code : String)
        → In code upload_codes
        → (w' : World) → w'.db ≡ w.db
        → Ends (λ a db'. (db' ≡ w.db) × (o ≡ some a)) Refusal (lift (or_error o code) w')
    read_ends o code known w' same =
        Ends-weaken _ _ _ _ (lift (or_error o code) w')
          (λ a db' k. (k.0 ∙ same, or_error-ok o code a k.1)) (λ _ _ k. k)
          (lift-Ends Refusal (or_error o code) w'
            (λ c e. (subst (λ x. In x upload_codes) (or_error-err o code c e) known, same)))
