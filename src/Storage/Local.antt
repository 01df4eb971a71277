-- ===== src/Storage/Local.antt =====
-- internal/storage/local.go, with safeLocalPath of internal/storage/storage.go.
pub mod Containment
pub mod Urls
use match_camp.Base.{
  Bool, true, false, not, ◌&&◌, ◌||◌, Option, none, some, [], ◌∷◌, ◌++◌, if◌then◌else◌,
}
use match_camp.Storage.{ObjectStore, Url}
use match_camp.Text.{Text, codes, text_eq, has_prefix, contains, trim_right_char, trim_prefix}
use match_camp.Text.Paths.{up, clean, join_path, absolute}

-- `type LocalStore`, with the working directory of the process
pub record LocalStore : Type 0 where
  pub cwd : Text
  pub root : Text
  pub public_base_url : Text

-- NewLocalStore
unfoldable pub new_local_store : Text → Text → Text → LocalStore
new_local_store cwd root base = record {
  cwd = cwd;
  root = root;
  public_base_url = trim_right_char b'/' base;
}

abbrev pub escapes : Text → Text → Bool
escapes root_abs full_abs =
    not (text_eq full_abs root_abs) && not (has_prefix full_abs (root_abs ++ (b'/' ∷ [])))

-- safeLocalPath
unfoldable pub safe_local_path : Text → Text → Text → Option Text
safe_local_path cwd root key =
    let cleaned = clean (b'/' ∷ key) in
    let full_abs = absolute cwd (join_path root (trim_prefix cleaned (b'/' ∷ []))) in
    if text_eq cleaned (b'/' ∷ []) || contains cleaned up
    then none
    else if escapes (absolute cwd root) full_abs
    then none
    else some full_abs

abbrev pub uploads : Text
uploads = codes "/uploads/"

-- the URL that Put returns
unfoldable pub local_url : LocalStore → Text → Text
local_url store key = store.public_base_url ++ (uploads ++ clean key)

abbrev pub is_blank : Text → Bool
is_blank [] = true
is_blank (c ∷ s) = false

abbrev pub other_host : Url → Option Url → Bool
other_host parsed none = false
other_host parsed (some base) = not (is_blank parsed.host) && not (text_eq parsed.host base.host)

-- the host is another one than that of the base
unfoldable pub is_foreign : (Text → Option Url) → LocalStore → Url → Bool
is_foreign url_parse store parsed =
    not (is_blank store.public_base_url) && other_host parsed (url_parse store.public_base_url)

unfoldable pub key_of_path : Text → Option Text
key_of_path path = if has_prefix path uploads then some (trim_prefix path uploads) else none

unfoldable pub key_of_url : (Text → Option Url) → LocalStore → Option Url → Option Text
key_of_url url_parse store none = none
key_of_url url_parse store (some parsed) =
    if is_foreign url_parse store parsed then none else key_of_path parsed.path

-- KeyFromURL
unfoldable pub local_key_from_url : (Text → Option Url) → LocalStore → Text → Option Text
local_key_from_url url_parse store raw = key_of_url url_parse store (url_parse raw)

-- The local store, as the server sees it.
unfoldable pub local_object_store : (Text → Option Url) → LocalStore → ObjectStore
local_object_store url_parse store = record {
  place = safe_local_path store.cwd store.root;
  url = local_url store;
  key_from_url = local_key_from_url url_parse store;
}
