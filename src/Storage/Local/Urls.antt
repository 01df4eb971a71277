-- ===== src/Storage/Local/Urls.antt =====
-- The URLs of the local store, with what url.Parse makes of them.
use match_camp.Base.{◌≡◌, refl, Option, some, [], ◌∷◌, ◌++◌, arith, length, drop}
use match_camp.Storage.{Url, LeadsBack}
use match_camp.Storage.Local.{
  LocalStore, uploads, local_url, is_foreign, key_of_path, key_of_url, local_key_from_url,
  local_object_store,
}
use match_camp.Text.{Text, trim_prefix}
use match_camp.Text.Contains.{has_prefix-append}
use match_camp.Text.Laws.{text_eq_refl}
use match_camp.Text.Paths.{clean}

drop-length : (p rest : Text) → drop (length p) (p ++ rest) ≡ rest
drop-length [] rest = refl
drop-length (c ∷ p) rest = drop-length p rest

pub trim_prefix-append : (p rest : Text) → trim_prefix (p ++ rest) p ≡ rest
unfolding trim_prefix
trim_prefix-append p rest = rw (has_prefix-append p rest) (drop-length p rest)

key_of_path-uploads : (key : Text) → key_of_path (uploads ++ key) ≡ some key
unfolding key_of_path
key_of_path-uploads key =
    rw (has_prefix-append uploads key) rw (trim_prefix-append uploads key) refl

-- Where url.Parse reads a host without a path from the base, as from "https://api.example" or from
-- nothing, and the same host and the path as it stands from the base with the path of the asset
-- after it, the URL that Put returns for a key that is clean leads
-- KeyFromURL back to the key, and so to its file.
pub local_object_store-LeadsBack :
    (url_parse : Text → Option Url) (store : LocalStore) (host key : Text)
    → url_parse store.public_base_url ≡ some (record { host = host; path = [] })
    → url_parse (store.public_base_url ++ (uploads ++ key))
      ≡ some (record { host = host; path = uploads ++ key })
    → clean key ≡ key
    → LeadsBack (local_object_store url_parse store) key
unfolding local_object_store local_url local_key_from_url key_of_url is_foreign
local_object_store-LeadsBack url_parse store host key at_base at_url cleaned = (key, found, refl)
  where
    found : local_key_from_url url_parse store (local_url store key) ≡ some key
    found =
        rw cleaned rw at_url rw at_base rw (text_eq_refl host) rw (key_of_path-uploads key)
          (ground arith)
