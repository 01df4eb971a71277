-- ===== src/Server/Socket/Http.antt =====
-- A message by a frame and a message by HTTP.
use match_camp.Base.{String, ◌≡◌, refl, ◌↔◌, true, false, Option, some, arith, ==_refl}
use match_camp.Database.Result.{Result, ok, err}
use match_camp.Server.Chat.{
  ChatError, chat_error_code, create_message, message_allowed, create_message_http,
}
use match_camp.Server.Payload.{ChatMessageRequest, Fields, decode_chat_payload}
use match_camp.Server.Response.{
  sent_message, Response, write_json, CurrentUser, lift, parse_route_uuid,
}
use match_camp.Server.Socket.{
  Frame, Reply, sent_reply, is_typing, reply_of, chat_request, send_or_refuse, on_kind, on_frame,
}
use match_camp.Text.{Text}
use match_camp.World.Env.{Env, ChatMessageResponse, World}
use match_camp.World.Monad.{and_then, pure, raise_if, convert, on_error, observe}

-- What the two clients are told: the same message, or an error each.
abbrev pub ToldSame : Result String Response → Result String (Option Reply) → Type 0
ToldSame http socket =
    (msg : ChatMessageResponse)
    → (http ≡ ok (write_json 201 (sent_message msg))) ↔ (socket ≡ ok (some (sent_reply msg)))

same_end :
    (r : Result ChatError ChatMessageResponse × World)
    → let (http, a) =
        and_then (convert chat_error_code r) (λ msg. pure (write_json 201 (sent_message msg))) in
      let (socket, b) : Result String (Option Reply) × World = (ok (reply_of r.0), r.1) in
      (a ≡ b) × ToldSame http socket
same_end (ok m, w) = (refl, λ msg. (λ h. ground (arith, h), λ h. ground (arith, h)))
same_end (err e, w) = (refl, λ msg. (λ h. cc, λ h. cc))

posted :
    (env : Env) (user : CurrentUser) (id_param : Text) (payload : Option Fields)
    (req : ChatMessageRequest) (w w' : World)
    → message_allowed env user.id w ≡ (ok true, w')
    → env.uuid_parse id_param ≡ some req.conversation_id
    → decode_chat_payload env.uuid_parse env.unicode_lower (some payload) ≡ ok req
    → create_message_http env user id_param (some payload) w
      ≡ and_then
          (convert chat_error_code (create_message env user.id req w'))
          (λ msg. pure (write_json 201 (sent_message msg)))
unfolding create_message_http raise_if parse_route_uuid lift on_error
posted env user id_param payload req w w' allowed parsed decoded =
    rw allowed rw parsed rw decoded rw (==_refl req.conversation_id) refl

framed :
    (env : Env) (user : CurrentUser) (frame : Frame) (req : ChatMessageRequest) (w : World)
    → is_typing frame ≡ false
    → decode_chat_payload env.uuid_parse env.unicode_lower (some frame.payload) ≡ ok req
    → on_frame env user.id {E = String} frame w
      ≡ (ok (reply_of (create_message env user.id req w).0), (create_message env user.id req w).1)
unfolding on_frame on_kind send_or_refuse chat_request decode_chat_payload observe
framed env user frame req w chats decoded = rw chats rw decoded refl

-- A proper message for the conversation of the route, of a user whom the limiter of messages lets
-- through: POST /v1/conversations/{id}/messages and a frame of the WebSocket leave the same world,
-- and answer with the same message or both with an error; the frame passes no limiter.
pub frame_as_http :
    (env : Env) (user : CurrentUser) (id_param : Text) (frame : Frame) (req : ChatMessageRequest)
    (w w' : World)
    → is_typing frame ≡ false
    → message_allowed env user.id w ≡ (ok true, w')
    → env.uuid_parse id_param ≡ some req.conversation_id
    → decode_chat_payload env.uuid_parse env.unicode_lower (some frame.payload) ≡ ok req
    → let (http, a) = create_message_http env user id_param (some frame.payload) w in
      let (socket, b) = on_frame env user.id {E = String} frame w' in (a ≡ b) × ToldSame http socket
frame_as_http env user id_param frame req w w' chats allowed parsed decoded =
    rw (posted env user id_param frame.payload req w w' allowed parsed decoded) rw
      (framed env user frame req w' chats decoded) (same_end (create_message env user.id req w'))
