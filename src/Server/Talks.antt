-- ===== src/Server/Talks.antt =====
-- internal/server/server.go: `matches` and `conversations`.
pub mod Partnerships
use match_camp.Base.{
  String, Bool, not, ◌&&◌, Option, none, some, List, [], ◌∷◌, map, any, ltb, ◌==◌,
}
use match_camp.Database.Models.{Uuid, Time, Date}
use match_camp.Database.Result.{ok}
use match_camp.Database.Talks.{TalkRow, list_matches_for_user, list_conversations_for_user}
use match_camp.Server.Bodies.{PartnerBody, LastMessage, MatchItem, ConversationItem}
use match_camp.Server.Profiles.{calc_age, local_today}
use match_camp.Server.Response.{
  match_list, conversation_list, Response, write_json, CurrentUser, nil_if_empty,
}
use match_camp.World.Env.{Env}
use match_camp.World.Monad.{M, ◌>>=◌, ◌>>◌, pure, on_error, lost, rest_faults, run_query}

abbrev pub partner_body : Date → TalkRow → PartnerBody
partner_body today row = record {
  id = row.partner_id;
  display_name = row.partner_display_name;
  age = calc_age today row.partner_birth_date;
  photo_url = nil_if_empty row.partner_photo_url;
}

abbrev pub last_message_at_of : Uuid → TalkRow → Option Time → Option LastMessage
last_message_at_of user row none = none
last_message_at_of user row (some t) = some (record {
  text = row.last_message_body;
  created_at = t;
  from_me = row.last_message_sender_id == user;
})

abbrev pub match_item : Uuid → Date → TalkRow → MatchItem
match_item user today row = record {
  match_id = row.match_id;
  conversation_id = row.conversation_id;
  created_at = row.created_at;
  partner = partner_body today row;
  last_message = last_message_at_of user row row.last_message_at;
}

-- isOnline: the key of presence is there and has not expired; false also where redis.Get fails.
unfoldable pub is_online : Uuid → M String Bool
is_online user w = (
  ok (not (lost w.redis_faults) && any (λ (u, expiry). u == user && ltb w.clock expiry) w.online),
  record w { redis_faults = rest_faults w.redis_faults },
)

abbrev pub conversation_item : Uuid → Date → Bool → TalkRow → ConversationItem
conversation_item user today online row = record {
  conversation_id = row.conversation_id;
  match_id = row.match_id;
  created_at = row.created_at;
  partner = partner_body today row;
  online = online;
  last_message = last_message_at_of user row row.last_message_at;
  unread_count = row.unread_count;
}

-- the loop over the rows
unfoldable pub conversation_items : Uuid → Date → List TalkRow → M String (List ConversationItem)
unfolding is_online
conversation_items user today [] = pure []
conversation_items user today (row ∷ rows) = do
  online ← is_online row.partner_id
  items ← conversation_items user today rows
  pure (conversation_item user today online row ∷ items)

module _ (env : Env) where
  -- GET /v1/matches
  unfoldable pub matches : CurrentUser → M String Response
  matches user = do
    rows ← on_error (run_query (list_matches_for_user user.id)) (λ _. "matches_failed")
    today ← local_today env
    pure (write_json 200 (match_list (map (match_item user.id today) rows)))

  -- GET /v1/conversations
  unfoldable pub conversations : CurrentUser → M String Response
  conversations user = do
    rows ← on_error (run_query (list_conversations_for_user user.id)) (λ _. "conversations_failed")
    today ← local_today env
    items ← conversation_items user.id today rows
    pure (write_json 200 (conversation_list items))
