-- ===== src/Server/Socket.antt =====
-- internal/server/server.go: `websocket`, from the frames that it reads to what it writes back, with
-- the key of presence. The goroutine that renews the key comes in as turns of its ticker between
-- the frames; those that forward what Redis brings and ping change no state of the server.
pub mod Stored
pub mod Typing
pub mod Http
use match_camp.Base.{
  ℕ, ◌+◌, ◌*◌, String, Bool, true, false, not, Option, none, some, List, [], ◌∷◌, filter, ◌==◌,
  if◌then◌else◌,
}
use match_camp.Database.Chat.{list_conversation_members}
use match_camp.Database.Models.{Uuid, uuid_nil, Time}
use match_camp.Database.Result.{DbError, Result, ok, err}
use match_camp.Server.Chat.{ChatError, invalid_payload, is_conversation_member, create_message}
use match_camp.Server.Payload.{
  ChatMessageRequest, Fields, parse_chat_payload_bytes, validate_chat_payload, then_check,
}
use match_camp.Text.{Text, codes, text_eq}
use match_camp.World.Env.{Env, ChatMessageResponse, Event, typing_event}
use match_camp.World.Monad.{
  M, ◌>>=◌, ◌>>◌, pure, attempt, lost, rest_faults, run_query, publish, observe,
}

-- What json.Unmarshal makes of a frame: the field `type`, and the field `conversation_id`, each
-- `none` where it fails, and the fields of the object.
pub record Frame : Type 0 where
  pub peek : Option Text
  pub typing_id : Option Uuid
  pub payload : Option Fields

-- What the loop writes back: a message, or the text of an error.
pub data Reply : Type 0 where
  sent_reply : ChatMessageResponse → Reply
  error_reply : ChatError → Reply

-- What happens to a connection next: a frame is read, or the ticker renews the key of presence.
pub data SocketTurn : Type 0 where
  read_frame : Frame → SocketTurn
  renew : SocketTurn

-- 45 seconds
abbrev pub presence_ttl : ℕ
presence_ttl = 45 * 1000000000

abbrev pub without_key : Uuid → List (Uuid × Time) → List (Uuid × Time)
without_key user online = filter (λ (u, expiry). not (u == user)) online

abbrev pub is_typing : Frame → Bool
is_typing frame = elim frame.peek [ none ↦ false | some t ↦ text_eq t (codes "typing") ]

-- Publish to every member but the user.
unfoldable pub publish_others : {E : Type 0} → Uuid → List Uuid → Event → M E (Unit {0})
publish_others user [] event = pure tt
publish_others user (m ∷ members) event = do
  (if m == user then pure tt else publish m event)
  publish_others user members event

abbrev pub or_nobody : Option (List Uuid) → List Uuid
or_nobody none = []
or_nobody (some members) = members

abbrev pub reply_of : Result ChatError ChatMessageResponse → Option Reply
reply_of (ok msg) = some (sent_reply msg)
reply_of (err e) = some (error_reply e)

abbrev pub cons_reply : Option Reply → List Reply → List Reply
cons_reply none replies = replies
cons_reply (some reply) replies = reply ∷ replies

abbrev pub as_chat_error : Result String ChatMessageRequest → Result ChatError ChatMessageRequest
as_chat_error (ok req) = ok req
as_chat_error (err code) = err (invalid_payload code)

abbrev pub known_id : Option Uuid → Option Uuid
known_id none = none
known_id (some id) = if id == uuid_nil then none else some id

module _ (env : Env) (user : Uuid) where
  -- the members of the conversation are told that the user types
  unfoldable pub tell_typing : {E : Type 0} → Uuid → Bool → M E (Unit {0})
  tell_typing id false = pure tt
  tell_typing id true = do
    members ← attempt {E = DbError} (run_query (list_conversation_members id))
    publish_others user (or_nobody members) (typing_event id user)

  unfoldable pub typing : {E : Type 0} → Option Uuid → M E (Unit {0})
  typing none = pure tt
  typing (some id) = do member ← is_conversation_member id user; tell_typing id member

  -- the request of a frame that is a message
  unfoldable pub chat_request : Option Fields → Result ChatError ChatMessageRequest
  chat_request payload = as_chat_error (
      then_check (parse_chat_payload_bytes env.uuid_parse payload)
        (validate_chat_payload env.unicode_lower))

  unfoldable pub send_or_refuse :
      {E : Type 0} → Result ChatError ChatMessageRequest → M E (Option Reply)
  send_or_refuse (err e) = pure (some (error_reply e))
  send_or_refuse (ok req) = do
    result ← observe (create_message env user req)
    pure (reply_of result)

  -- one turn of the loop, on a frame that tells of typing or does not
  unfoldable pub on_kind : {E : Type 0} → Bool → Frame → M E (Option Reply)
  on_kind true frame = typing (known_id frame.typing_id) >> pure none
  on_kind false frame = send_or_refuse (chat_request frame.payload)

  unfoldable pub on_frame : {E : Type 0} → Frame → M E (Option Reply)
  unfolding on_kind
  on_frame frame = on_kind (is_typing frame) frame

  -- redis.Set of the key of presence for 45 seconds; its error is ignored.
  unfoldable pub set_presence : {E : Type 0} → M E (Unit {0})
  set_presence w = (
    ok tt,
    record w {
      redis_faults = rest_faults w.redis_faults;
      online =
          if lost w.redis_faults
          then w.online
          else (user, w.clock + presence_ttl) ∷ without_key user w.online;
    },
  )

  -- the deferred redis.Del of the key; its error is ignored.
  unfoldable pub delete_presence : {E : Type 0} → M E (Unit {0})
  delete_presence w = (
    ok tt,
    record w {
      redis_faults = rest_faults w.redis_faults;
      online = if lost w.redis_faults then w.online else without_key user w.online;
    },
  )

  -- a frame, or a turn of the ticker of presence
  unfoldable pub on_turn : {E : Type 0} → SocketTurn → M E (Option Reply)
  on_turn (read_frame frame) = on_frame frame
  on_turn renew = set_presence >> pure none

  -- the loop, until ReadMessage fails
  unfoldable pub read_loop : {E : Type 0} → List SocketTurn → M E (List Reply)
  read_loop [] = pure []
  read_loop (turn ∷ turns) = do
    reply ← on_turn turn
    replies ← read_loop turns
    pure (cons_reply reply replies)

  -- websocket, after the upgrade. `cancel` runs after the deferred Del: the ticker may come in
  -- between.
  unfoldable pub websocket : {E : Type 0} → List SocketTurn → Bool → M E (List Reply)
  websocket turns late = do
    set_presence
    replies ← read_loop turns
    delete_presence
    (if late then set_presence else pure tt)
    pure replies
