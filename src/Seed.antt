-- ===== src/Seed.antt =====
-- cmd/seed/main.go: the users for a demonstration.
use match_camp.Base.{ℕ, suc, Bool, true, false, some, List, [], ◌∷◌, if◌then◌else◌}
use match_camp.Database.Auth.{UserRow, create_password_user}
use match_camp.Database.Models.{Uuid}
use match_camp.Database.Photos.{upsert_profile_photo}
use match_camp.Database.Profile.{upsert_profile, update_profile_visibility}
use match_camp.Database.Result.{DbError, Result, ok, err}
use match_camp.Text.{Text}
use match_camp.Text.Dates.{parse_date}
use match_camp.World.Env.{Env}
use match_camp.World.Monad.{M, ◌>>=◌, ◌>>◌, pure, ignore, run_query, run_insert, observe}

pub record SeedProfile : Type 0 where
  pub email : Text
  pub display_name : Text
  pub bio : Text
  pub course : Text
  pub campus : Text
  pub birth_date : Text
  pub photo_url : Text

module _ (env : Env) where
  -- what follows a saved profile: whether it is counted
  unfoldable pub show_profile : SeedProfile → Uuid → Result DbError (Unit {0}) → M DbError Bool
  show_profile p user_id (err e) = pure false
  show_profile p user_id (ok u) = do
    ignore {E = DbError}
        (run_insert env.gen_random_uuid (λ id. upsert_profile_photo id user_id p.photo_url 0))
    ignore {E = DbError} (run_query (update_profile_visibility user_id true))
    pure true

  -- what follows the account of a profile
  unfoldable pub fill_profile : SeedProfile → Uuid → M DbError Bool
  fill_profile p user_id = do
    saved ←
        observe
          (run_query (upsert_profile user_id p.bio p.course p.campus (parse_date p.birth_date)))
    show_profile p user_id saved

  unfoldable pub fill_if_created : SeedProfile → Result DbError UserRow → M DbError Bool
  fill_if_created p (err e) = pure false
  fill_if_created p (ok row) = fill_profile p row.id

  -- one turn of the loop
  unfoldable pub seed_one : Text → SeedProfile → M DbError Bool
  seed_one hash p = do
    created ← observe (
        run_insert env.gen_random_uuid
          (λ id. create_password_user id p.email p.display_name (some hash)))
    fill_if_created p created

  -- the loop, which counts the profiles
  unfoldable pub seed : Text → List SeedProfile → M DbError ℕ
  seed hash [] = pure 0
  seed hash (p ∷ ps) = do
    counted ← seed_one hash p
    rest ← seed hash ps
    pure (if counted then suc rest else rest)
