-- ===== src/Server/Browsing.antt =====
-- internal/server/server.go: `discovery`.
pub mod Offered
use match_camp.Base.{ℕ, String, List, [], ◌∷◌, map, ℤ, pos, negsuc}
use match_camp.Database.Discovery.{DiscoveryRow, list_discovery_profiles}
use match_camp.Database.Models.{Date, ProfilePhoto}
use match_camp.Database.Profile.{list_profile_photos}
use match_camp.Database.Result.{failed, err, Query}
use match_camp.Server.Bodies.{profile_photo_response, ProfileBody}
use match_camp.Server.Paging.{parse_pagination, int32}
use match_camp.Server.Profiles.{calc_age, local_today}
use match_camp.Server.Response.{profile_list, Response, write_json, CurrentUser}
use match_camp.Text.{Text}
use match_camp.World.Env.{Env}
use match_camp.World.Monad.{M, ◌>>=◌, ◌>>◌, pure, on_error, run_query}

-- a negative OFFSET or LIMIT is an error of PostgreSQL
abbrev pub signed_page : (ℕ → ℕ → Query (List DiscoveryRow)) → ℤ → ℤ → Query (List DiscoveryRow)
signed_page q (pos limit) (pos offset) db = q limit offset db
signed_page q (pos limit) (negsuc offset) db = err failed
signed_page q (negsuc limit) offset db = err failed

abbrev pub profile_body : Date → DiscoveryRow → List ProfilePhoto → ProfileBody
profile_body today row photos = record {
  id = row.id;
  display_name = row.display_name;
  age = calc_age today row.birth_date;
  bio = row.bio;
  course = row.course;
  campus = row.campus;
  photos = map profile_photo_response photos;
}

module _ (env : Env) where
  -- the loop over the rows, with a query for the photos of each
  unfoldable pub with_photos : Date → List DiscoveryRow → M String (List ProfileBody)
  with_photos today [] = pure []
  with_photos today (row ∷ rows) = do
    photos ← on_error (run_query (list_profile_photos row.id)) (λ _. "discovery_photos_failed")
    items ← with_photos today rows
    pure (profile_body today row photos ∷ items)

  -- GET /v1/discovery
  unfoldable pub discovery : CurrentUser → Text → Text → M String Response
  discovery user limit_param offset_param = do
    let (limit, offset) = parse_pagination limit_param offset_param 25 100
    rows ←
        on_error
          (run_query (λ db.
            signed_page (list_discovery_profiles (env.db_date db.now) user.id) (int32 limit)
              (int32 offset) db))
          (λ _. "discovery_failed")
    today ← local_today env
    items ← with_photos today rows
    pure (write_json 200 (profile_list items))
