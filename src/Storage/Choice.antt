-- ===== src/Storage/Choice.antt =====
-- internal/storage/storage.go: which store the configuration names.
use match_camp.Base.{ℕ, ◌||◌, Option, none, some, [], if◌then◌else◌}
use match_camp.Storage.{ObjectStore, Url}
use match_camp.Storage.Local.{new_local_store, local_object_store}
use match_camp.Storage.R2.{R2Config, R2Store, new_r2_store, r2_object_store}
use match_camp.Text.{Text, codes, text_eq, trim_space, to_lower}

-- `type Config`
pub record Config : Type 0 where
  pub driver : Text
  pub local_dir : Text
  pub local_public_base : Text
  pub r2 : R2Config

abbrev pub as_object_store : (Text → Option Url) → Option R2Store → Option ObjectStore
as_object_store url_parse none = none
as_object_store url_parse (some store) = some (r2_object_store url_parse store)

-- New
unfoldable pub new_object_store : (ℕ → ℕ) → (Text → Option Url) → Text → Config → Option ObjectStore
new_object_store unicode_lower url_parse cwd cfg =
    let driver = to_lower unicode_lower (trim_space cfg.driver) in
    if text_eq driver [] || text_eq driver (codes "local")
    then some
        (local_object_store url_parse (new_local_store cwd cfg.local_dir cfg.local_public_base))
    else if text_eq driver (codes "r2")
    then as_object_store url_parse (new_r2_store cfg.r2)
    else none
