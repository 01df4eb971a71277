-- ===== src/Storage/R2.antt =====
-- internal/storage/r2.go.
pub mod Urls
use match_camp.Base.{Bool, true, not, ◌||◌, Option, none, some, [], ◌∷◌, ◌++◌, ◌==◌, if◌then◌else◌}
use match_camp.Storage.{ObjectStore, Url}
use match_camp.Text.{Text, text_eq, contains, trim_right_char, trim_prefix}
use match_camp.Text.Paths.{up}

-- `type R2Config`
pub record R2Config : Type 0 where
  pub endpoint : Text
  pub bucket : Text
  pub access_key_id : Text
  pub secret_key : Text
  pub public_base_url : Text

-- `type R2Store`, without its client
pub record R2Store : Type 0 where
  pub store_bucket : Text
  pub base_url : Text

abbrev pub incomplete : R2Config → Bool
incomplete cfg =
    text_eq cfg.endpoint []
    || text_eq cfg.bucket []
    || text_eq cfg.access_key_id []
    || text_eq cfg.secret_key []
    || text_eq cfg.public_base_url []

-- NewR2Store, where the SDK loads its configuration
unfoldable pub new_r2_store : R2Config → Option R2Store
new_r2_store cfg =
    if incomplete cfg
    then none
    else some
        (record { store_bucket = cfg.bucket; base_url = trim_right_char b'/' cfg.public_base_url })

-- the URL that Put returns
unfoldable pub r2_url : R2Store → Text → Text
r2_url store key = store.base_url ++ (b'/' ∷ key)

unfoldable pub invalid_key : Text → Bool
invalid_key [] = true
invalid_key (c ∷ key) = c == b'/' || contains (c ∷ key) up

abbrev pub checked_key : Text → Option Text
checked_key key = if invalid_key key then none else some key

unfoldable pub key_under : Url → Url → Option Text
key_under parsed base =
    if not (text_eq parsed.host base.host)
    then none
    else checked_key (trim_prefix parsed.path (trim_right_char b'/' base.path ++ (b'/' ∷ [])))

abbrev pub key_of_urls : Option Url → Option Url → Option Text
key_of_urls none base = none
key_of_urls (some parsed) none = none
key_of_urls (some parsed) (some base) = key_under parsed base

-- KeyFromURL
unfoldable pub r2_key_from_url : (Text → Option Url) → R2Store → Text → Option Text
r2_key_from_url url_parse store raw = key_of_urls (url_parse raw) (url_parse store.base_url)

-- The store of a bucket, as the server sees it: an object stands under its key.
unfoldable pub r2_object_store : (Text → Option Url) → R2Store → ObjectStore
r2_object_store url_parse store = record {
  place = some;
  url = r2_url store;
  key_from_url = r2_key_from_url url_parse store;
}
