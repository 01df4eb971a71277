-- ===== src/Tests/Profiles.antt =====
-- Witnesses about profiles and blocks.
use match_camp.Base.{
  ℕ, ◌≡◌, refl, ◌≢◌, inl, Bool, true, false, Option, none, some, [], ◌∷◌, arith, pos, Any,
}
use match_camp.Database.Discovery.{age_years}
use match_camp.Database.Models.{Uuid, Date}
use match_camp.Database.Result.{ok}
use match_camp.Samples.{sample_env, sample_tables, sample_world, sample_ana}
use match_camp.Server.Blocks.{no_content, block_user_handler, unblock_user_handler}
use match_camp.Server.Blocks.Hiding.{IsHiddenFrom, HasBlock, BlockRefused, block_user_handler-Ends}
use match_camp.Server.Blocks.Undo.{unblock_after_block}
use match_camp.Server.Profiles.{
  calc_age, ProfileRequest, PreferencesRequest, upsert_profile_handler, update_visibility,
  upsert_preferences_handler,
}
use match_camp.Server.Profiles.Ages.{calc_age-eq-age_years}
use match_camp.Server.Profiles.Editing.{
  IsEdited, IsSized, EditRefused, IsBirth, upsert_profile_handler-Ends,
}
use match_camp.Server.Profiles.Preferences.{IsPreference}
use match_camp.Server.Profiles.Saving.{
  HasPreferences, PreferencesRefused, upsert_preferences_handler-Ends,
}
use match_camp.Server.Profiles.Visibility.{
  IsShown, OthersKept, VisibilityRefused, update_visibility-Ends,
}
use match_camp.Server.Response.{saved_status, visibility, preferences, write_json}
use match_camp.Text.{codes, trim_space}
use match_camp.Text.Dates.{days_in}
use match_camp.World.Ends.{Ends}
use match_camp.World.Env.{Env, World}
use match_camp.World.Monad.{calm}

-- User 1 has a hidden profile with a course and a campus.
abbrev hidden_world : World
hidden_world = record sample_world {
  db = record sample_tables {
    profiles =
        record {
          user_id = 1;
          bio = [];
          course = codes "Direito";
          campus = codes "Centro";
          birth_date = none;
          visible = false;
          created_at = 1;
          updated_at = 1;
        }
        ∷ [];
  };
}

update_visibility-Ends_example :
    Ends
      (λ resp db'.
        (visible : Bool) × (some true ≡ some visible)
        × (resp ≡ write_json 200 (visibility visible))
        × Any (IsShown 1 visible) db'.profiles
        × OthersKept 1 hidden_world.db db'
        × (db' ≡ record hidden_world.db { profiles = db'.profiles }))
      (VisibilityRefused hidden_world.db)
      (update_visibility sample_env sample_ana (some true) hidden_world)
update_visibility-Ends_example =
    update_visibility-Ends sample_env sample_ana (some true) hidden_world

abbrev men_18_30 : PreferencesRequest
men_18_30 = record { interested_in = "men"; min_age = pos 18; max_age = pos 30 }

abbrev blank_request : ProfileRequest
blank_request = record {
  bio = codes " oi ";
  course = [];
  campus = [];
  birth_date = codes "2004-02-29";
}

upsert_profile_handler-Ends_example :
    Ends
      (λ resp db'.
        (req : ProfileRequest) × (birth : Option Date) × (some blank_request ≡ some req)
        × IsSized req
        × IsBirth req.birth_date birth
        × (resp ≡ write_json 200 saved_status)
        × IsEdited 1
            (trim_space req.bio)
            (trim_space req.course)
            (trim_space req.campus)
            birth
            hidden_world.db
            db')
      (EditRefused hidden_world.db)
      (upsert_profile_handler sample_env sample_ana (some blank_request) hidden_world)
upsert_profile_handler-Ends_example =
    upsert_profile_handler-Ends sample_env sample_ana (some blank_request) hidden_world

upsert_preferences_handler-Ends_example :
    Ends
      (λ resp db'.
        (req : PreferencesRequest) × (lo : ℕ) × (hi : ℕ) × (some men_18_30 ≡ some req)
        × IsPreference req lo hi
        × (resp ≡ write_json 200 (preferences req.interested_in (pos lo) (pos hi)))
        × HasPreferences 1 req.interested_in lo hi db'
        × (db' ≡ record sample_tables { profile_preferences = db'.profile_preferences }))
      (PreferencesRefused sample_tables)
      (upsert_preferences_handler sample_env sample_ana (some men_18_30) sample_world)
upsert_preferences_handler-Ends_example =
    upsert_preferences_handler-Ends sample_env sample_ana (some men_18_30) sample_world

-- A birth on February 29, on the day before the birthday.
calc_age-eq-age_years_example :
    calc_age
      (record { year = 2026; month = 2; day = 28 })
      (some (record { year = 2004; month = 2; day = 29 }))
    ≡ some (
        pos (
          age_years
            (record { year = 2026; month = 2; day = 28 })
            (record { year = 2004; month = 2; day = 29 })))
calc_age-eq-age_years_example =
    calc_age-eq-age_years (record { year = 2026; month = 2; day = 28 })
      (record { year = 2004; month = 2; day = 29 }) (unfold days_in in refl)
      (unfold days_in in refl) (inl (omega arith))

-- The route names user 2.
abbrev route_env : Env
route_env = record sample_env { uuid_parse = λ t. some 2 }

block_user_handler-Ends_example :
    Ends
      (λ resp db'.
        (target : Uuid) × (some 2 ≡ some target)
        × (target ≢ 1)
        × (resp ≡ no_content)
        × IsHiddenFrom 1 target db'
        × IsHiddenFrom target 1 db'
        × ((x y : Uuid) → HasBlock x y sample_tables → HasBlock x y db')
        × (db' ≡ record sample_tables { blocks = db'.blocks }))
      (BlockRefused sample_tables)
      (block_user_handler route_env sample_ana (codes "02") sample_world)
block_user_handler-Ends_example =
    block_user_handler-Ends route_env sample_ana (codes "02") sample_world

unblock_after_block_example :
    let (blocked, w₁) = block_user_handler route_env sample_ana (codes "02") (calm sample_world) in
    let (unblocked, w₂) = unblock_user_handler route_env sample_ana (codes "02") w₁ in
    (blocked ≡ ok no_content) × (unblocked ≡ ok no_content) × (w₂.db ≡ sample_tables)
unblock_after_block_example =
    unblock_after_block route_env sample_ana (codes "02") 2 sample_world refl
      (λ e. omega (arith, e)) refl refl refl
