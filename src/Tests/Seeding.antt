-- ===== src/Tests/Seeding.antt =====
-- A run of the seed.
use match_camp.Base.{◌≡◌, refl, true, List, [], ◌∷◌, map}
use match_camp.Database.Auth.{email_check, create_password_user}
use match_camp.Database.Models.{Profile}
use match_camp.Database.Photos.{upsert_profile_photo}
use match_camp.Database.Profile.{upsert_profile, is_complete, update_profile_visibility}
use match_camp.Database.Result.{ok}
use match_camp.Samples.{sample_env, sample_world}
use match_camp.Seed.{SeedProfile, show_profile, fill_profile, fill_if_created, seed_one, seed}
use match_camp.Text.{codes, text_eq}
use match_camp.Text.Dates.{days_in, parse_date}
use match_camp.World.Monad.{ignore, run_query, run_insert, observe}

abbrev two_profiles : List SeedProfile
two_profiles =
    record {
      email = codes "ana@uni.br";
      display_name = codes "Ana Silva";
      bio = codes "Adoro filmes e cafe";
      course = codes "Ciencia da Computacao";
      campus = codes "Campus Norte";
      birth_date = codes "2001-03-15";
      photo_url = codes "https://i.pravatar.cc/300?img=1";
    }
    ∷ record {
      email = codes "bruna@uni.br";
      display_name = codes "Bruna Costa";
      bio = codes "Apaixonada por musica e livros";
      course = codes "Engenharia Civil";
      campus = codes "Campus Sul";
      birth_date = codes "2000-07-22";
      photo_url = codes "https://i.pravatar.cc/300?img=2";
    }
    ∷ []

-- The address of the first is taken, so that one profile is made; it is visible.
one_seeded : (seed sample_env (codes "h") two_profiles sample_world).0 ≡ ok 1
unfolding seed seed_one fill_if_created fill_profile show_profile observe run_insert run_query
    ignore create_password_user upsert_profile upsert_profile_photo update_profile_visibility
    email_check text_eq parse_date days_in is_complete
one_seeded = refl

seeded_visible :
    map
      (λ (p : Profile). p.visible)
      (seed sample_env (codes "h") two_profiles sample_world).1.db.profiles
    ≡ true ∷ []
unfolding seed seed_one fill_if_created fill_profile show_profile observe run_insert run_query
    ignore create_password_user upsert_profile upsert_profile_photo update_profile_visibility
    email_check text_eq parse_date days_in is_complete
seeded_visible = refl
