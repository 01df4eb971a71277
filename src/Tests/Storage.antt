-- ===== src/Tests/Storage.antt =====
-- Witnesses about the object stores.
use match_camp.Base.{◌≡◌, refl, ◌≢◌, Option, none, some, ◌∷◌, All, if◌then◌else◌}
use match_camp.Storage.{Url, LeadsBack}
use match_camp.Storage.Local.{LocalStore, safe_local_path, local_object_store}
use match_camp.Storage.Local.Containment.{IsUnder, safe_local_path_contained}
use match_camp.Storage.Local.Urls.{local_object_store-LeadsBack}
use match_camp.Storage.R2.{R2Store, invalid_key, r2_object_store}
use match_camp.Storage.R2.Urls.{r2_object_store-LeadsBack}
use match_camp.Text.{
  Text, codes, text_eq, has_prefix, contains, split, trim_left_char, trim_right_char, trim_prefix,
}
use match_camp.Text.Paths.{up, push_part, clean_parts, clean, join_path, absolute}

abbrev some_key : Text
some_key = codes "profile-photos/1/0-ab.jpg"

-- A key that tries to climb stays below the root.
climbing :
    safe_local_path (codes "/srv") (codes "data/up") (codes "../../etc/./x")
    ≡ some (codes "/srv/data/up/etc/x")
unfolding safe_local_path clean absolute join_path clean_parts push_part split trim_prefix
    has_prefix contains text_eq
climbing = refl

safe_local_path_contained_example :
    IsUnder (absolute (codes "/srv") (codes "data/up")) (codes "/srv/data/up/etc/x")
    × ((rest : Text) × (codes "/srv/data/up/etc/x" ≡ b'/' ∷ rest)
        × All (λ part. part ≢ up) (split b'/' rest))
safe_local_path_contained_example =
    safe_local_path_contained (codes "/srv") (codes "data/up") (codes "../../etc/./x")
      (codes "/srv/data/up/etc/x") refl climbing

-- A parser of URLs that knows the base "https://h" and what stands after it.
abbrev parse_h : Text → Option Url
parse_h raw =
    if has_prefix raw (codes "https://h")
    then some (record { host = codes "h"; path = trim_prefix raw (codes "https://h") })
    else none

abbrev local_h : LocalStore
local_h = record { cwd = codes "/srv"; root = codes "up"; public_base_url = codes "https://h" }

local_object_store-LeadsBack_example : LeadsBack (local_object_store parse_h local_h) some_key
local_object_store-LeadsBack_example =
    local_object_store-LeadsBack parse_h local_h (codes "h") some_key
      (unfold has_prefix in unfold trim_prefix in refl)
      (unfold has_prefix in unfold trim_prefix in refl)
      (unfold clean in
        unfold clean_parts in unfold push_part in unfold split in unfold text_eq in refl)

abbrev bucket_h : R2Store
bucket_h = record { store_bucket = codes "fotos"; base_url = codes "https://h/cdn" }

r2_object_store-LeadsBack_example : LeadsBack (r2_object_store parse_h bucket_h) some_key
r2_object_store-LeadsBack_example =
    r2_object_store-LeadsBack parse_h bucket_h (codes "h") (codes "/cdn") some_key
      (unfold has_prefix in unfold trim_prefix in refl)
      (unfold has_prefix in unfold trim_prefix in refl)
      (unfold trim_right_char in unfold trim_left_char in refl)
      (unfold invalid_key in unfold contains in unfold has_prefix in refl)
