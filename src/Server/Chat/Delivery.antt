-- ===== src/Server/Chat/Delivery.antt =====
-- createMessage where nothing fails: who is told of a message.
use match_camp.Base.{
  ◌≡◌, refl, sym, ap, ◌∙◌, Bool, true, false, some, List, [], ◌∷◌, ◌++◌, map, append-nil,
  append_assoc, any, filter, ◌==◌, if◌then◌else◌,
}
use match_camp.Database.Chat.{
  conversation_member_exists, list_conversation_members, has_nul, touch_conversation,
  create_message_row,
}
use match_camp.Database.Match.{is_member}
use match_camp.Database.Models.{Uuid, Conversation, ConversationMember, has_user}
use match_camp.Database.Result.{ok}
use match_camp.Server.Chat.{
  ChatError, is_conversation_member, publish_all, check_payload, create_message,
}
use match_camp.Server.Payload.{ChatMessageRequest, validate_chat_payload}
use match_camp.Server.Payload.Laws.{accepted-body_check}
use match_camp.Text.{trim_space}
use match_camp.World.Env.{Env, ChatMessageResponse, Event, message_event, World}
use match_camp.World.Monad.{
  raise_if, on_error, attempt, lost, rest_faults, run_query, run_insert, publish, all_calm,
}

-- The publications of one event, the last first.
abbrev pub copies : List Uuid → Event → List (Uuid × Event)
copies [] event = []
copies (r ∷ rs) event = copies rs event ++ ((r, event) ∷ [])

-- Those of the publications that the calls of Redis let through.
abbrev sent : List Bool → List Uuid → Event → List (Uuid × Event)
sent fs [] event = []
sent fs (r ∷ rs) event = sent (rest_faults fs) rs event ++ (if lost fs then [] else (r, event) ∷ [])

abbrev after_calls : List Uuid → List Bool → List Bool
after_calls [] fs = fs
after_calls (r ∷ rs) fs = after_calls rs (rest_faults fs)

one_more :
    (ps : List (Uuid × Event)) (b : Bool) (p : Uuid × Event) (qs : List (Uuid × Event))
    → ps ++ (if b then qs else p ∷ qs) ≡ (ps ++ (if b then [] else p ∷ [])) ++ qs
one_more ps true p qs = ap (λ l. l ++ qs) (sym (append-nil ps))
one_more ps false p qs = sym (append_assoc ps (p ∷ []) qs)

published-publish_all :
    {E : Type 0} (rs : List Uuid) (event : Event) (w : World)
    → publish_all {E = E} rs event w ≡ (
      ok tt,
      record w {
        redis_faults = after_calls rs w.redis_faults;
        published = sent w.redis_faults rs event ++ w.published;
      },
    )
unfolding publish_all publish
published-publish_all [] event w = refl
published-publish_all {E} (r ∷ rs) event w =
    published-publish_all rs event (publish {E = E} r event w).1
    ∙ ap
        (λ p. (
          ok tt,
          record w { redis_faults = after_calls rs (rest_faults w.redis_faults); published = p },
        ))
        (one_more (sent (rest_faults w.redis_faults) rs event) (lost w.redis_faults) (r, event)
          w.published)

sent-calm : (rs : List Uuid) (event : Event) → sent [] rs event ≡ copies rs event
sent-calm [] event = refl
sent-calm (r ∷ rs) event = ap (λ l. l ++ ((r, event) ∷ [])) (sent-calm rs event)

-- Where no call of PostgreSQL or Redis fails, a message without a NUL that `validateChatPayload`
-- accepts, of a user and a member, in a conversation on record, with an id that is free, is stored:
-- the tables then have one row more, unread, with its trimmed text, and its conversation the time
-- of its last message; and each member of the conversation, the sender too, is sent exactly one
-- copy of it, in the order of the list of members.
pub create_message_delivers :
    (env : Env) (sender : Uuid) (req : ChatMessageRequest) (w : World)
    → validate_chat_payload env.unicode_lower req ≡ ok tt
    → has_nul (trim_space req.text) ≡ false
    → any (is_member req.conversation_id sender) w.db.conversation_members ≡ true
    → any (λ c. c.id == req.conversation_id) w.db.conversations ≡ true
    → has_user sender w.db ≡ true
    → any (λ m. m.id == env.gen_random_uuid w.drawn) w.db.messages ≡ false
    → let msg : ChatMessageResponse = record {
      id = env.gen_random_uuid w.drawn;
      conversation_id = req.conversation_id;
      sender_user_id = sender;
      text = trim_space req.text;
      is_read = false;
      created_at = w.db.now;
    } in
      let (result, after) = create_message env sender req (all_calm w) in
      (result ≡ ok msg)
      × (after.db ≡ record w.db {
        messages =
            record {
              id = msg.id;
              conversation_id = msg.conversation_id;
              sender_user_id = msg.sender_user_id;
              body = msg.text;
              created_at = msg.created_at;
              is_read = false;
            }
            ∷ w.db.messages;
        conversations =
            map
              (λ (c : Conversation).
                if c.id == req.conversation_id
                then record c { last_message_at = some w.db.now }
                else c)
              w.db.conversations;
      })
      × (after.published
          ≡ copies
              (map
                (λ (m : ConversationMember). m.user_id)
                (filter (λ m. m.conversation_id == req.conversation_id) w.db.conversation_members))
              (message_event msg)
            ++ w.published)
unfolding create_message check_payload is_conversation_member attempt run_query
    conversation_member_exists raise_if on_error run_insert create_message_row
    list_conversation_members touch_conversation
create_message_delivers env sender req w accepted no_nul member open_now known fresh =
    rw accepted rw member rw no_nul rw (accepted-body_check env.unicode_lower req accepted) rw fresh
      rw open_now rw known rw (published-publish_all {E = ChatError} _ _ _) rw (sent-calm _ _)
      (refl, refl, refl)
