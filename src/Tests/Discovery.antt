-- ===== src/Tests/Discovery.antt =====
-- Witnesses about discovery.
use match_camp.Base.{◌≤◌, ◌≡◌, refl, true, some, List, [], ◌∷◌, length, All, sort_by}
use match_camp.Database.Discovery.{list_discovery_profiles}
use match_camp.Database.Models.{Uuid, Time, Date, Profile, Db}
use match_camp.Database.Result.{ok}
use match_camp.Samples.{sample_env, sample_user, sample_tables, sample_world, sample_ana}
use match_camp.Server.Bodies.{ProfileBody}
use match_camp.Server.Browsing.{discovery}
use match_camp.Server.Browsing.Offered.{IsShownOffer, DiscoveryRefused, discovery-Ends}
use match_camp.Server.Response.{profile_list, write_json}
use match_camp.Text.{codes}
use match_camp.World.Ends.{Ends}
use match_camp.World.Env.{World}

abbrev campus_profile : Uuid → Time → Profile
campus_profile id updated = record {
  user_id = id;
  bio = codes "oi";
  course = codes "Direito";
  campus = codes "Centro";
  birth_date = some (record { year = 2004; month = 2; day = 29 });
  visible = true;
  created_at = 1;
  updated_at = updated;
}

-- User 1 wants ages from 18 to 25, has swiped on nobody, and user 3 has blocked user 1.
abbrev campus : Db
campus = record sample_tables {
  users =
      sample_user 1 (codes "ana@uni.br")
      ∷ sample_user 2 (codes "bia@uni.br")
      ∷ sample_user 3 (codes "caio@uni.br")
      ∷ [];
  profiles = campus_profile 1 4 ∷ campus_profile 2 5 ∷ campus_profile 3 6 ∷ [];
  profile_preferences =
      record { user_id = 1; interested_in = "all"; min_age = 18; max_age = 25; updated_at = 1 }
      ∷ [];
  blocks = record { blocker_id = 3; blocked_id = 1; created_at = 2 } ∷ [];
}

abbrev today : Date
today = record { year = 2026; month = 2; day = 28 }

-- Of the three profiles, only that of user 2, who is still 21, is offered.
only_bia :
    list_discovery_profiles today 1 25 0 campus
    ≡ ok (
      record {
        id = 2;
        display_name = codes "Ana";
        bio = codes "oi";
        course = codes "Direito";
        campus = codes "Centro";
        birth_date = some (record { year = 2004; month = 2; day = 29 });
      }
          ∷ [],
      campus,
    )
unfolding list_discovery_profiles sort_by
only_bia = refl

abbrev campus_world : World
campus_world = record sample_world { db = campus }

discovery-Ends_example :
    Ends
      (λ resp db'.
        (db' ≡ campus)
        × (items : List ProfileBody) × (resp ≡ write_json 200 (profile_list items))
        × (length items ≤ 100)
        × All (IsShownOffer (sample_env.db_date campus.now) 1 campus) items)
      (DiscoveryRefused campus)
      (discovery sample_env sample_ana (codes "10") [] campus_world)
discovery-Ends_example = discovery-Ends sample_env sample_ana (codes "10") [] campus_world
