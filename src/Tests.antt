-- ===== src/Tests.antt =====
-- Witnesses of the theorems at concrete inputs, and runs of the model.
mod Auth
mod Chat
mod Discovery
mod Profiles
mod Photos
mod Talks
mod Socket
mod Storage
mod Likes
mod Google
mod Cors
mod Seeding
use match_camp.Base.{◌^◌, ◌≤◌, ◌<◌, String, ◌≡◌, refl, ◌≢◌, inl, inr, some, [], ◌∷◌, arith, pos}
use match_camp.Database.Match.{
  create_swipe, has_reciprocal_like, upsert_match, upsert_conversation_for_match,
  add_conversation_member,
}
use match_camp.Database.Mutual.{IsSound}
use match_camp.Database.Profile.{get_public_profile}
use match_camp.Database.Result.{ok}
use match_camp.Ratelimit.{calls_of, allow}
use match_camp.Ratelimit.Laws.{allow_isolated}
use match_camp.Samples.{
  sample_env, sample_tables, sample_world, sample_ana, paired_tables, greeting,
}
use match_camp.Server.Paging.{parse_pagination, int32}
use match_camp.Server.Paging.Laws.{parse_pagination_bounds}
use match_camp.Server.Payload.{has_link, validate_chat_payload}
use match_camp.Server.Response.{normalize_pair}
use match_camp.Server.Swipe.{SwipeRequest, record_swipe, swipe}
use match_camp.Server.Swipe.Handler.{Refused, Answered, swipe-Ends}
use match_camp.Server.Swipe.Mutual.{Recorded, record_swipe-Ends}
use match_camp.Text.{codes, trim_space, to_lower, contains}
use match_camp.World.Ends.{Ends}
use match_camp.World.Monad.{attempt, run_insert, transaction}

tables-IsSound : IsSound sample_tables
tables-IsSound = record {
  match_ids = tt;
  conversation_ids = tt;
  one_match = tt;
  one_conversation = tt;
  likes = tt;
  sides = tt;
}

abbrev like_back : SwipeRequest
like_back = record { target_user_id = 2; action = "like" }

swipe-Ends_example :
    Ends
      (Answered sample_env sample_ana (some like_back))
      (Refused sample_world.db)
      (swipe sample_env sample_ana (some like_back) sample_world)
swipe-Ends_example = swipe-Ends sample_env sample_ana (some like_back) sample_world tables-IsSound

-- The like is returned: a match, and a message to each.
swipe_matches : (record_swipe sample_env 1 2 "like" sample_world).0 ≡ ok (some (101, 102))
unfolding record_swipe transaction run_insert create_swipe has_reciprocal_like normalize_pair
    upsert_match upsert_conversation_for_match add_conversation_member get_public_profile attempt
swipe_matches = refl

record_swipe-Ends_example :
    Ends
      (Recorded sample_env 1 2 "like")
      (λ _ db'. db' ≡ sample_world.db)
      (record_swipe sample_env 1 2 "like" sample_world)
record_swipe-Ends_example = record_swipe-Ends sample_env 1 2 "like" sample_world tables-IsSound

paired-IsSound : IsSound paired_tables
paired-IsSound = record {
  match_ids = (tt, tt);
  conversation_ids = (tt, tt);
  one_match = (tt, tt);
  one_conversation = (tt, tt);
  likes = ((omega arith, inl (refl, refl, refl), inr (inl (refl, refl, refl))), tt);
  sides = (inl (refl, inl (refl, inr refl)), (inl (refl, inl (refl, inl refl)), tt));
}

allow_isolated_example :
    (◌≢◌ {A = String} "a" "b"
      → (allow sample_env.rate_allows
          (allow sample_env.rate_allows sample_world.swipe_limiter "a" 1).1
          "b"
          2).0
        ≡ (allow sample_env.rate_allows sample_world.swipe_limiter "b" 2).0)
    × ((allow sample_env.rate_allows
          (allow sample_env.rate_allows sample_world.swipe_limiter "a" 1).1
          "a"
          2).0
        ≡ sample_env.rate_allows 1 60 (1 ∷ calls_of "a" []) 2)
allow_isolated_example =
    allow_isolated sample_env.rate_allows sample_world.swipe_limiter "a" "b" 1 2

parse_pagination_bounds_example :
    let (l, o) = parse_pagination (codes "40") (codes "3") 25 100 in
    (0 < l) × (l ≤ 100) × (int32 l ≡ pos l) × (o < 2 ^ 31 → int32 o ≡ pos o)
parse_pagination_bounds_example =
    parse_pagination_bounds (codes "40") (codes "3") 25 100 (omega arith) (omega arith)
      (omega arith)

greeting_accepted : validate_chat_payload (λ c. c) greeting ≡ ok tt
unfolding validate_chat_payload trim_space has_link contains to_lower
greeting_accepted = refl
