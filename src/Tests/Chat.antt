-- ===== src/Tests/Chat.antt =====
-- Witnesses about chat messages.
use match_camp.Base.{
  ℕ, ◌≤◌, ◌≡◌, refl, false, Option, none, some, List, [], ◌∷◌, ◌++◌, reverse, length, All, Pairwise,
}
use match_camp.Database.Chat.{
  conversation_member_exists, list_conversation_members, body_check, has_nul, create_message_row,
  list_messages_paginated,
}
use match_camp.Database.Models.{Uuid, Time, Message, Db}
use match_camp.Database.Mutual.{IsListed}
use match_camp.Database.Result.{ok}
use match_camp.Ratelimit.{allow}
use match_camp.Samples.{sample_env, sample_ana, paired_tables, greeting, paired_world}
use match_camp.Server.Auth.Lifecycle.{at}
use match_camp.Server.Chat.{
  is_conversation_member, publish_all, check_payload, create_message, message_allowed,
  create_message_http, messages,
}
use match_camp.Server.Chat.Delivery.{copies, create_message_delivers}
use match_camp.Server.Chat.Handler.{MessageRefused, Posted, create_message_http-Ends}
use match_camp.Server.Chat.Order.{IsBefore, page_in_order}
use match_camp.Server.Chat.Reading.{IsPage, PageRefused, messages-Ends}
use match_camp.Server.Chat.Sending.{IsSent, create_message-Ends}
use match_camp.Server.Paging.{parse_message_limit}
use match_camp.Server.Paging.Reversal.{reverse_rows, reverse_rows_lem}
use match_camp.Server.Payload.{
  string_value, Fields, read_fields, parse_chat_payload_bytes, has_link, validate_chat_payload,
  decode_chat_payload,
}
use match_camp.Server.Response.{sent_message, write_json, lift, parse_route_uuid}
use match_camp.Text.{codes, text_eq, trim_space, to_lower, contains}
use match_camp.World.Ends.{Ends}
use match_camp.World.Env.{ChatMessageResponse, message_event}
use match_camp.World.Monad.{raise_if, on_error, attempt, run_query, run_insert, publish, all_calm}

create_message-Ends_example :
    Ends
      (λ msg db'.
        (validate_chat_payload sample_env.unicode_lower greeting ≡ ok tt)
        × IsListed 70 1 paired_world.db
        × IsSent 1 greeting paired_world.db msg db')
      (λ _ db'. db' ≡ paired_world.db)
      (create_message sample_env 1 greeting paired_world)
create_message-Ends_example = create_message-Ends sample_env 1 greeting paired_world

greeting_valid : validate_chat_payload sample_env.unicode_lower greeting ≡ ok tt
unfolding validate_chat_payload trim_space has_link contains to_lower
greeting_valid = refl

-- Both members of the conversation get the message.
create_message_delivers_example :
    let msg : ChatMessageResponse = record {
      id = 100;
      conversation_id = 70;
      sender_user_id = 1;
      text = trim_space greeting.text;
      is_read = false;
      created_at = 10;
    } in
    let (result, after) = create_message sample_env 1 greeting (all_calm paired_world) in
    (result ≡ ok msg)
    × (after.db ≡ record paired_tables {
      messages =
          record {
            id = 100;
            conversation_id = 70;
            sender_user_id = 1;
            body = trim_space greeting.text;
            created_at = 10;
            is_read = false;
          }
          ∷ [];
      conversations =
          record { id = 70; match_id = 60; created_at = 6; last_message_at = some 10 } ∷ [];
    })
    × (after.published ≡ copies (2 ∷ 1 ∷ []) (message_event msg) ++ [])
create_message_delivers_example =
    create_message_delivers sample_env 1 greeting paired_world greeting_valid
      (unfold has_nul in unfold trim_space in refl) refl refl refl refl

abbrev oi_fields : Option (Option Fields)
oi_fields = some (
    some
      (("conversation_id", string_value (codes "70")) ∷ ("text", string_value (codes "oi")) ∷ []))

create_message_http-Ends_example :
    Ends
      (Posted sample_env 1 (codes "70") oi_fields paired_world.db)
      (MessageRefused paired_world.db)
      (create_message_http sample_env sample_ana (codes "70") oi_fields paired_world)
create_message_http-Ends_example =
    create_message_http-Ends sample_env sample_ana (codes "70") oi_fields paired_world

-- The message is accepted.
oi_posted :
    (create_message_http sample_env sample_ana (codes "70") oi_fields paired_world).0
    ≡ ok (
        write_json 201 (
          sent_message (record {
            id = 100;
            conversation_id = 70;
            sender_user_id = 1;
            text = codes "oi";
            is_read = false;
            created_at = 10;
          })))
unfolding create_message_http message_allowed allow raise_if parse_route_uuid lift
    decode_chat_payload parse_chat_payload_bytes read_fields validate_chat_payload trim_space
    has_link contains to_lower on_error create_message check_payload is_conversation_member attempt
    run_query conversation_member_exists run_insert create_message_row body_check
    list_conversation_members publish_all publish text_eq has_nul
oi_posted = refl

messages-Ends_example :
    Ends
      (IsPage sample_env 1 (codes "70") (codes "2") none paired_world.db)
      (PageRefused paired_world.db)
      (messages sample_env sample_ana (codes "70") (codes "2") none paired_world)
messages-Ends_example =
    messages-Ends sample_env sample_ana (codes "70") (codes "2") none paired_world

abbrev three_rows : List ℕ
three_rows = 1 ∷ 2 ∷ 3 ∷ []

reverse_rows_lem_example : reverse_rows three_rows ≡ reverse three_rows
reverse_rows_lem_example = reverse_rows_lem three_rows

abbrev chat_message : Uuid → Time → Message
chat_message id at = record {
  id = id;
  conversation_id = 70;
  sender_user_id = 2;
  body = codes "oi";
  created_at = at;
  is_read = false;
}

abbrev chat_tables : Db
chat_tables = record paired_tables {
  messages = chat_message 92 9 ∷ chat_message 91 8 ∷ chat_message 90 7 ∷ [];
}

page_in_order_example :
    (rows : List Message) × (list_messages_paginated 70
        (some 9)
        (parse_message_limit (codes "2"))
        chat_tables
      ≡ ok (rows, chat_tables))
    × Pairwise (λ a b. a.created_at ≤ b.created_at) (reverse_rows rows)
    × (length rows ≤ 100)
    × All (λ m. (m.conversation_id ≡ 70) × IsBefore (some 9) m.created_at) rows
page_in_order_example = page_in_order 70 (some 9) (codes "2") chat_tables
