-- ===== src/Storage/R2/Urls.antt =====
-- The URLs of the bucket, with what url.Parse makes of them.
use match_camp.Base.{◌≡◌, refl, sym, false, Option, some, [], ◌∷◌, ◌++◌}
use match_camp.Storage.{Url, LeadsBack}
use match_camp.Storage.Local.Containment.{append_cons}
use match_camp.Storage.Local.Urls.{trim_prefix-append}
use match_camp.Storage.R2.{
  R2Store, r2_url, invalid_key, key_under, r2_key_from_url, r2_object_store,
}
use match_camp.Text.{Text, trim_right_char}
use match_camp.Text.Laws.{text_eq_refl}

-- Where url.Parse reads a host and a path without a "/" at its end from the base, and the same
-- host and the key below that path from the URL that Put returns for the key, KeyFromURL finds the
-- key of that URL again, for a key that is not empty, does not start with "/" and has no "..".
pub r2_object_store-LeadsBack :
    (url_parse : Text → Option Url) (store : R2Store) (host base_path key : Text)
    → url_parse store.base_url ≡ some (record { host = host; path = base_path })
    → url_parse (store.base_url ++ (b'/' ∷ key))
      ≡ some (record { host = host; path = base_path ++ (b'/' ∷ key) })
    → trim_right_char b'/' base_path ≡ base_path
    → invalid_key key ≡ false
    → LeadsBack (r2_object_store url_parse store) key
unfolding r2_object_store r2_url r2_key_from_url key_under
r2_object_store-LeadsBack url_parse store host base_path key at_base at_url trimmed proper =
    (key, found, refl)
  where
    found : r2_key_from_url url_parse store (r2_url store key) ≡ some key
    found =
        rw at_url rw at_base rw (text_eq_refl host) rw trimmed rw
          (sym (append_cons base_path b'/' key)) rw
          (trim_prefix-append (base_path ++ (b'/' ∷ [])) key) rw proper refl
