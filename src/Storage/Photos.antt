-- ===== src/Storage/Photos.antt =====
-- internal/storage/storage.go: the keys and the types of photos.
use match_camp.Base.{
  ℕ, ◌+◌, Bool, true, false, ◌&&◌, ◌||◌, Option, none, some, List, [], ◌∷◌, ◌++◌, ltb,
  if◌then◌else◌,
}
use match_camp.Text.{Text, codes, text_eq, has_prefix, contains}

-- `%d` of a position, which has one digit
abbrev pub digit : ℕ → Text
digit position = (b'0' + position) ∷ []

-- the tests of an extension
unfoldable pub invalid_extension : Text → Bool
invalid_extension [] = true
invalid_extension (c ∷ ext) =
    contains (c ∷ ext) (codes "/")
    || contains (c ∷ ext) (codes "\\")
    || contains (c ∷ ext) (codes "..")

abbrev pub photo_key : Text → ℕ → Text → Option Text → Option Text
photo_key user position ext none = none
photo_key user position ext (some hex) = some (
    codes "profile-photos/"
    ++ (user ++ (codes "/" ++ (digit position ++ (codes "-" ++ (hex ++ ext))))))

-- ProfilePhotoKey; `hex` is what rand.Read gave, in hexadecimal.
unfoldable pub profile_photo_key : Text → ℕ → Text → Option Text → Option Text
profile_photo_key user position ext hex =
    if ltb 2 position || invalid_extension ext then none else photo_key user position ext hex

-- the signature of a WebP image: four bytes of any length stand after "RIFF"
unfoldable pub is_webp : List ℕ → Bool
is_webp (r ∷ i ∷ f ∷ f' ∷ _ ∷ _ ∷ _ ∷ _ ∷ rest) =
    text_eq (r ∷ i ∷ f ∷ f' ∷ []) (codes "RIFF") && has_prefix rest (codes "WEBPVP")
is_webp _ = false

abbrev pub jpeg_signature : List ℕ
jpeg_signature = 0xff ∷ 0xd8 ∷ 0xff ∷ []

abbrev pub png_signature : List ℕ
png_signature = 0x89 ∷ b'P' ∷ b'N' ∷ b'G' ∷ 0x0d ∷ 0x0a ∷ 0x1a ∷ 0x0a ∷ []

-- DetectImageExtension: the extension, by the signatures of http.DetectContentType
unfoldable pub detect_image_extension : List ℕ → Option Text
unfolding is_webp
detect_image_extension data_bytes =
    if has_prefix data_bytes jpeg_signature
    then some (codes ".jpg")
    else if has_prefix data_bytes png_signature
    then some (codes ".png")
    else if is_webp data_bytes
    then some (codes ".webp")
    else none
