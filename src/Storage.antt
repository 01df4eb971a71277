-- ===== src/Storage.antt =====
-- internal/storage: what the server uses of `ObjectStore`.
pub mod Photos
pub mod Local
pub mod R2
pub mod Choice
use match_camp.Base.{◌≡◌, Option, some}
use match_camp.Text.{Text}

-- A store: the place of the object that a key names, where the store takes the key; the URL that
-- Put returns for it; and KeyFromURL.
pub record ObjectStore : Type 0 where
  pub place : Text → Option Text
  pub url : Text → Text
  pub key_from_url : Text → Option Text

-- what the stores read of url.Parse
pub record Url : Type 0 where
  pub host : Text
  pub path : Text

-- The URL that Put returns leads KeyFromURL back to the place of the object.
abbrev pub LeadsBack : ObjectStore → Text → Type 0
LeadsBack store key =
    (found : Text) × (store.key_from_url (store.url key) ≡ some found)
    × (store.place found ≡ store.place key)
