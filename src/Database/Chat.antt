-- ===== src/Database/Chat.antt =====
-- internal/database/db/chat.sql.go: members and messages, with the trigger of
-- migrations/00003_chat_read_status.sql.
use match_camp.Base.{
  ℕ, Bool, true, false, not, ◌&&◌, ◌||◌, Option, none, some, List, ◌∷◌, map, length, take, any,
  filter, sort_by, ltb, leb, ◌==◌, if◌then◌else◌,
}
use match_camp.Database.Match.{is_member}
use match_camp.Database.Models.{Uuid, Time, Conversation, ConversationMember, Message, has_user}
use match_camp.Database.Result.{unique_violation, failed, ok, err, Query}
use match_camp.Text.{Text}

-- IsConversationMember
unfoldable pub conversation_member_exists : Uuid → Uuid → Query Bool
conversation_member_exists conversation_id user_id db =
    ok (any (is_member conversation_id user_id) db.conversation_members, db)

-- ListConversationMembers
unfoldable pub list_conversation_members : Uuid → Query (List Uuid)
list_conversation_members conversation_id db = ok (
  map (λ (m : ConversationMember). m.user_id)
      (filter (λ m. m.conversation_id == conversation_id) db.conversation_members),
  db,
)

-- CHECK (char_length(body) BETWEEN 1 AND 1000): characters, not bytes
unfoldable pub body_check : Text → Bool
body_check body = leb 1 (length body) && leb (length body) 1000

-- PostgreSQL takes no text with a NUL.
unfoldable pub has_nul : Text → Bool
has_nul text = any (λ c. c == 0) text

-- fn_update_conversation_last_message_at
unfoldable pub touch_conversation : Uuid → Time → Conversation → Conversation
touch_conversation id at c = if c.id == id then record c { last_message_at = some at } else c

-- CreateMessage
unfoldable pub create_message_row : Uuid → Uuid → Uuid → Text → Query Message
unfolding touch_conversation
create_message_row id conversation_id sender body db =
    if has_nul body || not (body_check body)
    then err failed
    else if any (λ m. m.id == id) db.messages
    then err unique_violation
    else if not (any (λ c. c.id == conversation_id) db.conversations && has_user sender db)
    then err failed
    else let row : Message = record {
      id = id;
      conversation_id = conversation_id;
      sender_user_id = sender;
      body = body;
      created_at = db.now;
      is_read = false;
    } in
      ok (
        row,
        record db {
          messages = row ∷ db.messages;
          conversations = map (touch_conversation conversation_id db.now) db.conversations;
        },
      )

-- WHERE conversation_id = $1 AND ($2 IS NULL OR created_at < $2)
unfoldable pub in_page : Uuid → Option Time → Message → Bool
in_page conversation_id none m = m.conversation_id == conversation_id
in_page conversation_id (some t) m = m.conversation_id == conversation_id && ltb m.created_at t

abbrev pub newest_first : Message → Message → Bool
newest_first a b = leb b.created_at a.created_at

-- ListMessagesPaginated
unfoldable pub list_messages_paginated : Uuid → Option Time → ℕ → Query (List Message)
list_messages_paginated conversation_id before limit db =
    ok (take limit (sort_by newest_first (filter (in_page conversation_id before) db.messages)), db)

abbrev pub is_unread_for : Uuid → Uuid → Message → Bool
is_unread_for conversation_id reader m =
    m.conversation_id == conversation_id && not (m.sender_user_id == reader) && not m.is_read

unfoldable pub mark_read : Uuid → Uuid → Message → Message
mark_read conversation_id reader m =
    if is_unread_for conversation_id reader m then record m { is_read = true } else m

-- MarkMessagesRead
unfoldable pub mark_messages_read : Uuid → Uuid → Query (Unit {0})
unfolding mark_read
mark_messages_read conversation_id reader db =
    ok (tt, record db { messages = map (mark_read conversation_id reader) db.messages })
