-- ===== src/Server/Chat/Sending.antt =====
-- createMessage: who can send what, and what a message changes.
use match_camp.Base.{
  String, ◌≡◌, refl, sym, subst, ◌∙◌, inl, inr, true, false, not, ◌&&◌, ◌||◌, Option, none, some,
  List, [], ◌∷◌, map, arith, any, any-Any, Any-map_of, ◌==◌, if◌then◌else◌, Bool-cases,
}
use match_camp.Database.Chat.{
  conversation_member_exists, list_conversation_members, body_check, has_nul, touch_conversation,
  create_message_row,
}
use match_camp.Database.Match.{is_member}
use match_camp.Database.Models.{Uuid, Conversation, Message, Db, has_user}
use match_camp.Database.Mutual.{IsListed}
use match_camp.Database.Result.{DbError, Result, ok, err, Query}
use match_camp.Server.Chat.{
  ChatError, not_conversation_member, statement_failed, is_true, is_conversation_member,
  publish_all, publish_to, message_response, check_payload, create_message,
}
use match_camp.Server.Payload.{ChatMessageRequest, validate_chat_payload}
use match_camp.Text.{trim_space}
use match_camp.World.Ends.{
  Ends, and_then-Ends, run_query-Ends, run_insert-Ends, on_error-Ends, Ends-weaken, raise_if-Ends,
  attempt-Ends,
}
use match_camp.World.Ensures.{Yields}
use match_camp.World.Env.{Env, ChatMessageResponse, Event, message_event, World}
use match_camp.World.Monad.{raise_if, on_error, attempt, run_query, run_insert, publish}

-- What a sent message leaves: one new row, and the new time of its conversation.
abbrev pub IsSent : Uuid → ChatMessageRequest → Db → ChatMessageResponse → Db → Type 0
IsSent sender req before msg after =
    (row : Message) × (msg ≡ message_response row)
    × (row.conversation_id ≡ req.conversation_id)
    × (row.sender_user_id ≡ sender)
    × (row.body ≡ trim_space req.text)
    × (row.is_read ≡ false)
    × (after ≡ record before {
      messages = row ∷ before.messages;
      conversations =
          map
            (λ (c : Conversation).
              if c.id == req.conversation_id
              then record c { last_message_at = some before.now }
              else c)
            before.conversations;
    })

create_message_row-Yields :
    (sender id : Uuid) (req : ChatMessageRequest) (db : Db)
    → Yields
        (λ row db'. IsSent sender req db (message_response row) db')
        (create_message_row id req.conversation_id sender (trim_space req.text) db)
unfolding create_message_row touch_conversation
create_message_row-Yields sender id req db =
    elim (Bool-cases (has_nul (trim_space req.text) || not (body_check (trim_space req.text)))) [
      | inl bad ↦ rw bad tt
      | inr good ↦ elim (Bool-cases (any (λ m. m.id == id) db.messages)) [
        | inl taken ↦ rw good rw taken tt
        | inr fresh ↦
            elim (Bool-cases
              (any (λ c. c.id == req.conversation_id) db.conversations && has_user sender db)) [
                | inl known ↦ rw good rw fresh rw known (_, refl, refl, refl, refl, refl, refl)
                | inr unknown ↦ rw good rw fresh rw unknown tt
              ]
      ]
    ]

member_exists-Yields :
    (conversation_id user : Uuid) (db : Db)
    → Yields
        (λ exists db'. (db' ≡ db) × (exists ≡ true → IsListed conversation_id user db))
        (conversation_member_exists conversation_id user db)
unfolding conversation_member_exists
member_exists-Yields conversation_id user db = (
  refl,
  λ exists.
      Any-map_of (λ cm. is_member conversation_id user cm ≡ true) _ (λ cm e. ground arith)
        db.conversation_members (any-Any _ db.conversation_members exists),
)

pub is_conversation_member-Ends :
    {E : Type 0} (P : E → Db → Type 0) (conversation_id user : Uuid) (w : World)
    → Ends
        (λ member db'. (db' ≡ w.db) × (member ≡ true → IsListed conversation_id user w.db))
        P
        (is_conversation_member conversation_id user w)
unfolding is_conversation_member
is_conversation_member-Ends P conversation_id user w =
    and_then-Ends
      (λ exists db'. (db' ≡ w.db) × (is_true exists ≡ true → IsListed conversation_id user w.db)) _
      P (attempt {E = DbError} (run_query (conversation_member_exists conversation_id user)) w) _
      (attempt-Ends _ P (run_query (conversation_member_exists conversation_id user)) w (
        Ends-weaken _ _ _ _ (run_query (conversation_member_exists conversation_id user) w)
          (λ exists db' k. k) (λ e db' k. (k, λ t. absurd (cc t)))
          (run_query-Ends _ (conversation_member_exists conversation_id user) w
            (member_exists-Yields conversation_id user w.db))))
      λ exists w₁ h₁. h₁

publish_all-Leaves :
    {E : Type 0} (Q : Db → Type 0) (P : E → Db → Type 0) (recipients : List Uuid) (event : Event)
    (w : World)
    → Q w.db
    → Ends (λ _. Q) P (publish_all recipients event w)
unfolding publish_all publish
publish_all-Leaves Q P [] event w h = h
publish_all-Leaves {E} Q P (r ∷ rs) event w h =
    publish_all-Leaves Q P rs event (publish {E = E} r event w).1 h

publish_to-Leaves :
    {E : Type 0} (Q : Db → Type 0) (P : E → Db → Type 0) (recipients : Option (List Uuid))
    (event : Event) (w : World)
    → Q w.db
    → Ends (λ _. Q) P (publish_to recipients event w)
publish_to-Leaves Q P none event w h = h
publish_to-Leaves Q P (some rs) event w h = publish_all-Leaves Q P rs event w h

-- createMessage succeeds only for a member of the conversation with a text that
-- `validateChatPayload` accepts; the new row is unread, the sender's, and holds the trimmed text,
-- and besides it only the time of the conversation's last message changes. A createMessage that
-- fails leaves the tables as they were. Whether the recipients can be listed plays no part.
pub create_message-Ends :
    (env : Env) (sender : Uuid) (req : ChatMessageRequest) (w : World)
    → Ends
        (λ msg db'.
          (validate_chat_payload env.unicode_lower req ≡ ok tt)
          × IsListed req.conversation_id sender w.db
          × IsSent sender req w.db msg db')
        (λ _ db'. db' ≡ w.db)
        (create_message env sender req w)
unfolding create_message
create_message-Ends env sender req w =
    and_then-Ends (λ _ db'. (db' ≡ w.db) × (validate_chat_payload env.unicode_lower req ≡ ok tt)) _
      Same (check_payload (validate_chat_payload env.unicode_lower req) w) _
      (checked (validate_chat_payload env.unicode_lower req))
      λ _ w₁ h₁.
        and_then-Ends
          (λ member db'. (db' ≡ w.db) × (member ≡ true → IsListed req.conversation_id sender w.db))
          _ Same (is_conversation_member req.conversation_id sender w₁) _
          (Ends-weaken _ _ _ _ (is_conversation_member req.conversation_id sender w₁)
            (λ member db' k. (k.0 ∙ h₁.0, rw h₁.0 at k.1)) (λ _ _ k. k)
            (is_conversation_member-Ends Same req.conversation_id sender w₁))
          λ member w₂ h₂.
            and_then-Ends (λ _ db'. (db' ≡ w.db) × IsListed req.conversation_id sender w.db) _ Same
              (raise_if (not member) not_conversation_member w₂) _
              (raise_if-Ends _ Same (not member) _ w₂
                (λ inside. (h₂.0, h₂.1 (ground (arith, inside)))) h₂.0)
              λ _ w₃ h₃.
                and_then-Ends (λ row db'. IsSent sender req w.db (message_response row) db') _ Same
                  (on_error (run_insert env.gen_random_uuid inserted) statement_failed w₃) _
                  (on_error-Ends _ Same (run_insert env.gen_random_uuid inserted) statement_failed
                    w₃
                    (Ends-weaken _ _ _ _ (run_insert env.gen_random_uuid inserted w₃)
                      (λ row db' k. rw h₃.0 at k) (λ e db' k. k ∙ h₃.0)
                      (run_insert-Ends _ env.gen_random_uuid inserted w₃
                        (λ id. create_message_row-Yields sender id req w₃.db))))
                  λ row w₄ h₄.
                    and_then-Ends (λ _ db'. IsSent sender req w.db (message_response row) db') _
                      Same
                      (attempt {E = DbError}
                        (run_query (list_conversation_members req.conversation_id)) w₄)
                      _
                      (attempt-Ends _ Same
                        (run_query (list_conversation_members req.conversation_id)) w₄
                        (Ends-weaken _ _ _ _
                          (run_query (list_conversation_members req.conversation_id) w₄)
                          (λ _ db' k.
                            subst (IsSent sender req w.db (message_response row)) (sym k) h₄)
                          (λ _ db' k.
                            subst (IsSent sender req w.db (message_response row)) (sym k) h₄)
                          (run_query-Ends (λ _ db'. db' ≡ w₄.db)
                            (list_conversation_members req.conversation_id) w₄
                            (unfold list_conversation_members in refl))))
                      λ recipients w₅ h₅.
                        and_then-Ends (λ _ db'. IsSent sender req w.db (message_response row) db') _
                          Same (publish_to recipients (message_event (message_response row)) w₅) _
                          (publish_to-Leaves _ Same recipients
                            (message_event (message_response row)) w₅ h₅)
                          λ _ w₆ h₆. (h₁.1, h₃.1, h₆)
  where
    Same : ChatError → Db → Type 0
    Same e db' = db' ≡ w.db

    inserted : Uuid → Query Message
    inserted id = create_message_row id req.conversation_id sender (trim_space req.text)

    checked :
        (r : Result String Unit)
        → Ends (λ _ db'. (db' ≡ w.db) × (r ≡ ok tt)) Same (check_payload r w)
    checked (ok u) = unfold check_payload in (refl, refl)
    checked (err code) = unfold check_payload in refl
