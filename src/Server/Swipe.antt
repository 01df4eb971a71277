-- ===== src/Server/Swipe.antt =====
-- internal/server/server.go: `swipe` and `recordSwipe`.
pub mod Handler
pub mod Mutual
pub mod Race
use match_camp.Base.{
  String, Bool, true, false, not, ◌&&◌, ◌||◌, Option, none, some, List, [], ◌∷◌, str_eq, ◌==◌,
  if◌then◌else◌,
}
use match_camp.Database.Match.{
  create_swipe, has_reciprocal_like, upsert_match, upsert_conversation_for_match,
  add_conversation_member,
}
use match_camp.Database.Models.{Uuid, uuid_nil}
use match_camp.Database.Profile.{PublicProfileRow, get_public_profile}
use match_camp.Database.Result.{DbError, unique_violation, ok}
use match_camp.Ratelimit.{allow}
use match_camp.Server.Payload.{passed}
use match_camp.Server.Response.{
  swipe_result, Response, write_json, CurrentUser, decode_json, normalize_pair, nil_if_empty,
}
use match_camp.World.Env.{Env, Partner, match_event}
use match_camp.World.Monad.{
  M, ◌>>=◌, ◌>>◌, pure, raise_if, on_error, attempt, run_query, run_insert, transaction, publish,
}

pub record SwipeRequest : Type 0 where
  pub target_user_id : Uuid
  pub action : String

-- A match and its conversation, where the swipe made one.
abbrev pub Made : Type 0
Made = Option (Uuid × Uuid)

module _ (env : Env) where
  -- The loop over `[]uuid.UUID{actor, target}`.
  unfoldable pub add_members : Uuid → List Uuid → M DbError (Unit {0})
  add_members conversation_id [] = pure tt
  add_members conversation_id (member ∷ members) = do
    run_query (add_conversation_member conversation_id member)
    add_members conversation_id members

  -- The statements after a reciprocal like was found.
  unfoldable pub make_match : Uuid → Uuid → M DbError Made
  unfolding add_members
  make_match actor target = do
    let (low, high) = normalize_pair env.uuid_string actor target
    match_id ← run_insert env.gen_random_uuid (λ id. upsert_match id low high)
    conversation_id ←
        run_insert env.gen_random_uuid (λ id. upsert_conversation_for_match id match_id)
    add_members conversation_id (actor ∷ target ∷ [])
    pure (some (match_id, conversation_id))

  unfoldable pub after_like : Uuid → Uuid → M DbError Made
  unfolding make_match
  after_like actor target = do
    reciprocal ← run_query (has_reciprocal_like target actor)
    if reciprocal then make_match actor target else pure none

  -- What `recordSwipe` does between BeginTx and Commit.
  unfoldable pub swipe_statements : Uuid → Uuid → String → M DbError Made
  unfolding after_like
  swipe_statements actor target action = do
    run_insert env.gen_random_uuid (λ id. create_swipe id actor target action)
    if str_eq action "like" then after_like actor target else pure none

  -- `profile, _ := GetPublicProfile`: the zero row on an error
  unfoldable pub partner_of : Option PublicProfileRow → Partner
  partner_of none = record { id = uuid_nil; display_name = []; photo_url = none }
  partner_of (some p) = record {
    id = p.id;
    display_name = p.display_name;
    photo_url = nil_if_empty p.photo_url;
  }

  -- The notifications after the commit.
  unfoldable pub announce : Uuid → Uuid → Made → M DbError (Unit {0})
  unfolding partner_of publish
  announce actor target none = pure tt
  announce actor target (some (match_id, conversation_id)) = do
    actor_profile ← attempt {E = DbError} (run_query (get_public_profile actor))
    target_profile ← attempt {E = DbError} (run_query (get_public_profile target))
    publish actor (match_event match_id conversation_id (partner_of target_profile))
    publish target (match_event match_id conversation_id (partner_of actor_profile))

  unfoldable pub record_swipe : Uuid → Uuid → String → M DbError Made
  unfolding swipe_statements announce
  record_swipe actor target action = do
    made ← transaction (swipe_statements actor target action)
    announce actor target made
    pure made

  abbrev pub swipe_error : DbError → String
  swipe_error unique_violation = "swipe_already_exists"
  swipe_error _ = "swipe_failed"

  -- swipeLimiter.allow
  unfoldable pub swipe_allowed : Uuid → M String Bool
  swipe_allowed user w =
      let (passed, kl) = allow env.rate_allows w.swipe_limiter (env.uuid_string user) w.clock in
      (ok passed, record w { swipe_limiter = kl })

  -- the guard on the request
  unfoldable pub invalid_swipe : Uuid → SwipeRequest → Bool
  invalid_swipe user req =
      req.target_user_id == uuid_nil
      || req.target_user_id == user
      || (not (str_eq req.action "like") && not (str_eq req.action "pass"))

  abbrev pub swipe_response : Made → Response
  swipe_response none = write_json 201 (swipe_result false uuid_nil uuid_nil)
  swipe_response (some (match_id, conversation_id)) =
      write_json 201 (swipe_result true match_id conversation_id)

  -- POST /v1/swipes
  unfoldable pub swipe : CurrentUser → Option SwipeRequest → M String Response
  swipe user payload = do
    allowed ← swipe_allowed user.id
    raise_if (not allowed) "rate_limit_exceeded"
    req ← decode_json payload
    raise_if (invalid_swipe user.id req) "invalid_swipe"
    made ← on_error (record_swipe user.id req.target_user_id req.action) swipe_error
    pure (swipe_response made)
