-- ===== src/Tests/Photos.antt =====
-- Witnesses about photos.
use match_camp.Base.{ℕ, ◌≤◌, ◌≡◌, Option, some, List, [], ◌∷◌, arith}
use match_camp.Database.Models.{ProfilePhoto}
use match_camp.Database.Photos.Album.{IsAlbum}
use match_camp.Samples.{sample_env, sample_tables, sample_world, sample_ana, sample_server}
use match_camp.Server.Blocks.{no_content}
use match_camp.Server.Photos.{FormFile, position_of, upload_profile_photo, delete_profile_photo}
use match_camp.Server.Photos.Keeping.{Kept, upload_profile_photo-Ends}
use match_camp.Server.Photos.Removal.{IsRemoved, RemovalRefused, delete_profile_photo-Ends}
use match_camp.Server.Photos.Upload.{UploadRefused, IsImageForm}
use match_camp.Text.{Text, codes}
use match_camp.Text.Atoi.{atoi}
use match_camp.World.Ends.{Ends}
use match_camp.World.Env.{World}

abbrev one_album : List ProfilePhoto
one_album = record { id = 90; user_id = 1; url = codes "a"; position = 0; created_at = 1 } ∷ []

one_album-IsAlbum : IsAlbum one_album
one_album-IsAlbum = record {
  in_range = (omega arith, tt);
  one_each = (tt, tt);
  photo_ids = (tt, tt);
}

abbrev album_world : World
album_world = record sample_world { db = record sample_tables { profile_photos = one_album } }

-- A JPEG of four bytes.
abbrev jpeg_form : Option (Option FormFile)
jpeg_form = some (some (record { content = some (0xff ∷ 0xd8 ∷ 0xff ∷ 0xe0 ∷ []); size = 4 }))

upload_profile_photo-Ends_example :
    Ends
      (λ resp db'.
        (position : ℕ) × (content : List ℕ) × (ext : Text) × (position_of (atoi (codes "0"))
          ≡ some position)
        × (position ≤ 2)
        × IsImageForm sample_server jpeg_form content ext
        × Kept sample_server 1 position album_world.db resp db')
      (UploadRefused album_world.db)
      (upload_profile_photo sample_env sample_server sample_ana (codes "0") jpeg_form album_world)
upload_profile_photo-Ends_example =
    upload_profile_photo-Ends sample_env sample_server sample_ana (codes "0") jpeg_form album_world
      one_album-IsAlbum

delete_profile_photo-Ends_example :
    Ends
      (λ resp db'.
        (resp ≡ no_content)
        × ((position : ℕ) × (position_of (atoi (codes "0")) ≡ some position)
            × (position ≤ 2)
            × IsRemoved 1 position album_world.db db'))
      (RemovalRefused 1 (codes "0") album_world.db)
      (delete_profile_photo sample_env sample_server sample_ana (codes "0") album_world)
delete_profile_photo-Ends_example =
    delete_profile_photo-Ends sample_env sample_server sample_ana (codes "0") album_world
      one_album-IsAlbum
