-- ===== src/Tests/Socket.antt =====
-- Witnesses about the WebSocket.
use match_camp.Base.{String, ◌≡◌, refl, true, none, some, [], ◌∷◌, ◌++◌}
use match_camp.Database.Result.{ok}
use match_camp.Ratelimit.{allow}
use match_camp.Samples.{sample_env, sample_ana, paired_tables, paired_world}
use match_camp.Server.Chat.{message_allowed, create_message_http}
use match_camp.Server.Chat.Delivery.{copies}
use match_camp.Server.Payload.{
  ChatMessageRequest, string_value, read_fields, parse_chat_payload_bytes, has_link,
  validate_chat_payload, decode_chat_payload,
}
use match_camp.Server.Socket.{Frame, read_frame, renew, typing, on_frame, websocket}
use match_camp.Server.Socket.Http.{ToldSame, frame_as_http}
use match_camp.Server.Socket.Stored.{Sends, websocket-Ends}
use match_camp.Server.Socket.Typing.{told, typing_tells}
use match_camp.Text.{codes, text_eq, trim_space, to_lower, contains}
use match_camp.World.Ends.{Ends}
use match_camp.World.Env.{typing_event}
use match_camp.World.Monad.{all_calm}

abbrev oi_frame : Frame
oi_frame = record {
  peek = some [];
  typing_id = none;
  payload =
      some
        (("conversation_id", string_value (codes "70")) ∷ ("text", string_value (codes "oi")) ∷ []);
}

abbrev typing_frame : Frame
typing_frame = record { peek = some (codes "typing"); typing_id = some 70; payload = some [] }

websocket-Ends_example :
    Ends
      (λ _ db'. Sends sample_env 1 paired_tables db')
      (λ (_ : String) _. ⊥)
      (websocket sample_env 1
        (read_frame typing_frame ∷ renew ∷ read_frame oi_frame ∷ [])
        true
        paired_world)
websocket-Ends_example =
    websocket-Ends sample_env 1 String (read_frame typing_frame ∷ renew ∷ read_frame oi_frame ∷ [])
      true paired_world

typing_tells_example : typing sample_env 1 {E = String} (some 70) (all_calm paired_world) ≡ (
  ok tt,
  record (all_calm paired_world) {
    published = copies (told 1 70 paired_tables) (typing_event 70 1) ++ [];
  },
)
typing_tells_example = typing_tells String sample_env 1 70 paired_world

-- Only user 2 is told.
told_bia : told 1 70 paired_tables ≡ 2 ∷ []
told_bia = refl

abbrev oi_request : ChatMessageRequest
oi_request = record { conversation_id = 70; text = codes "oi" }

oi_decoded :
    decode_chat_payload sample_env.uuid_parse sample_env.unicode_lower (some oi_frame.payload)
    ≡ ok oi_request
unfolding decode_chat_payload parse_chat_payload_bytes read_fields validate_chat_payload has_link
    contains to_lower trim_space text_eq
oi_decoded = refl

oi_allowed :
    message_allowed sample_env 1 paired_world
    ≡ (ok true, (message_allowed sample_env 1 paired_world).1)
unfolding message_allowed allow
oi_allowed = refl

frame_as_http_example :
    let (http, a) =
      create_message_http sample_env sample_ana (codes "70") (some oi_frame.payload) paired_world in
    let (socket, b) =
      on_frame sample_env 1 {E = String} oi_frame (message_allowed sample_env 1 paired_world).1 in
    (a ≡ b) × ToldSame http socket
frame_as_http_example =
    frame_as_http sample_env sample_ana (codes "70") oi_frame oi_request paired_world
      (message_allowed sample_env 1 paired_world).1 (unfold text_eq in refl) oi_allowed
      (unfold text_eq in refl) oi_decoded
