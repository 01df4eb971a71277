-- ===== src/Tests/Likes.antt =====
-- Witnesses about two likes at the same time.
use match_camp.Base.{◌≡◌, refl, [], arith}
use match_camp.Database.Mutual.{Liked, IsSound}
use match_camp.Samples.{sample_env, sample_tables, sample_world}
use match_camp.Server.Swipe.Race.{ended, Race, Reach}
use match_camp.Server.Swipe.Race.Missed.{race_missed}
use match_camp.Server.Swipe.Race.Safety.{race-IsSound}
use match_camp.World.Env.{World}

abbrev two_users : World
two_users = record sample_world { db = record sample_tables { swipes = [] } }

two_users-IsSound : IsSound two_users.db
two_users-IsSound = record {
  match_ids = tt;
  conversation_ids = tt;
  one_match = tt;
  one_conversation = tt;
  likes = tt;
  sides = tt;
}

race_missed_example :
    (final : Race) × Reach sample_env 1 2 two_users final
    × (final.one ≡ ended)
    × (final.two ≡ ended)
    × Liked 1 2 final.committed.db.swipes
    × Liked 2 1 final.committed.db.swipes
    × (final.committed.db ≡ record two_users.db { swipes = final.committed.db.swipes })
race_missed_example =
    race_missed sample_env 1 2 90 91 two_users (λ e. omega (arith, e)) refl refl refl refl

race-IsSound_example : IsSound race_missed_example.0.committed.db
race-IsSound_example =
    race-IsSound sample_env 1 2 two_users race_missed_example.0 (λ e. omega (arith, e))
      two_users-IsSound race_missed_example.1
