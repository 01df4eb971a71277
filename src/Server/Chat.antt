-- ===== src/Server/Chat.antt =====
-- internal/server/server.go: `createMessage` and the handlers of messages.
pub mod Sending
pub mod Delivery
pub mod Handler
pub mod Reading
pub mod Order
use match_camp.Base.{
  String, Bool, false, not, Option, none, some, List, [], ◌∷◌, map, str_eq, ◌==◌, if◌then◌else◌,
}
use match_camp.Database.Chat.{
  conversation_member_exists, list_conversation_members, create_message_row,
  list_messages_paginated, mark_messages_read,
}
use match_camp.Database.Models.{Uuid, Time, Message}
use match_camp.Database.Result.{DbError, Result, ok, err}
use match_camp.Ratelimit.{allow}
use match_camp.Server.Paging.{parse_message_limit}
use match_camp.Server.Paging.Reversal.{reverse_rows}
use match_camp.Server.Payload.{
  ChatMessageRequest, Fields, validate_chat_payload, passed, decode_chat_payload,
}
use match_camp.Server.Response.{
  sent_message, message_list, Response, write_json, CurrentUser, lift, parse_route_uuid,
}
use match_camp.Text.{Text, trim_space}
use match_camp.World.Env.{Env, ChatMessageResponse, Event, message_event}
use match_camp.World.Monad.{
  M, ◌>>=◌, ◌>>◌, pure, raise, raise_if, on_error, ignore, attempt, run_query, run_insert, publish,
}

-- The errors of `createMessage`.
pub data ChatError : Type 0 where
  invalid_payload : String → ChatError
  not_conversation_member : ChatError
  statement_failed : DbError → ChatError

abbrev pub is_true : Option Bool → Bool
is_true none = false
is_true (some b) = b

-- isConversationMember: false also where the query fails
unfoldable pub is_conversation_member : {E : Type 0} → Uuid → Uuid → M E Bool
is_conversation_member conversation_id user_id = do
  exists ← attempt {E = DbError} (run_query (conversation_member_exists conversation_id user_id))
  pure (is_true exists)

-- The loop over the recipients.
unfoldable pub publish_all : {E : Type 0} → List Uuid → Event → M E (Unit {0})
unfolding publish
publish_all [] event = pure tt
publish_all (recipient ∷ recipients) event = do
  publish recipient event
  publish_all recipients event

abbrev pub publish_to : {E : Type 0} → Option (List Uuid) → Event → M E (Unit {0})
publish_to none event = pure tt
publish_to (some recipients) event = publish_all recipients event

abbrev pub message_response : Message → ChatMessageResponse
message_response m = record {
  id = m.id;
  conversation_id = m.conversation_id;
  sender_user_id = m.sender_user_id;
  text = m.body;
  is_read = m.is_read;
  created_at = m.created_at;
}

unfoldable pub check_payload : Result String (Unit {0}) → M ChatError (Unit {0})
check_payload (ok u) = pure tt
check_payload (err code) = raise (invalid_payload code)

-- writeChatError; the two errors that it knows are compared by identity.
abbrev pub chat_error_code : ChatError → String
chat_error_code (invalid_payload code) =
    if str_eq code "invalid_chat_payload" then code else "message_create_failed"
chat_error_code not_conversation_member = "not_conversation_member"
chat_error_code (statement_failed e) = "message_create_failed"

module _ (env : Env) where
  -- createMessage
  unfoldable pub create_message : Uuid → ChatMessageRequest → M ChatError ChatMessageResponse
  create_message sender req = do
    check_payload (validate_chat_payload env.unicode_lower req)
    member ← is_conversation_member req.conversation_id sender
    raise_if (not member) not_conversation_member
    row ←
        on_error
          (run_insert env.gen_random_uuid
            (λ id. create_message_row id req.conversation_id sender (trim_space req.text)))
          statement_failed
    recipients ← attempt {E = DbError} (run_query (list_conversation_members req.conversation_id))
    publish_to recipients (message_event (message_response row))
    pure (message_response row)

  -- messageLimiter.allow
  unfoldable pub message_allowed : Uuid → M String Bool
  message_allowed user w =
      let (passed, kl) = allow env.rate_allows w.message_limiter (env.uuid_string user) w.clock in
      (ok passed, record w { message_limiter = kl })

  -- POST /v1/conversations/{id}/messages
  unfoldable pub create_message_http :
      CurrentUser → Text → Option (Option Fields) → M String Response
  create_message_http user id_param body = do
    allowed ← message_allowed user.id
    raise_if (not allowed) "rate_limit_exceeded"
    conversation_id ← parse_route_uuid env.uuid_parse id_param
    req ← lift (decode_chat_payload env.uuid_parse env.unicode_lower body)
    raise_if (not (req.conversation_id == conversation_id)) "conversation_id_mismatch"
    msg ← on_error (create_message user.id req) chat_error_code
    pure (write_json 201 (sent_message msg))

  -- GET /v1/conversations/{id}/messages; `before` is what `time.Parse` made of the cursor. The
  -- limit is at most 100, which `int32` leaves alone.
  unfoldable pub messages : CurrentUser → Text → Text → Option Time → M String Response
  messages user id_param limit before = do
    conversation_id ← parse_route_uuid env.uuid_parse id_param
    member ← is_conversation_member conversation_id user.id
    raise_if (not member) "not_conversation_member"
    rows ←
        on_error
          (run_query (list_messages_paginated conversation_id before (parse_message_limit limit)))
          (λ _. "messages_failed")
    ignore {E = DbError} (run_query (mark_messages_read conversation_id user.id))
    pure (write_json 200 (message_list (map message_response (reverse_rows rows))))
