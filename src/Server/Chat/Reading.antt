-- ===== src/Server/Chat/Reading.antt =====
-- GET /v1/conversations/{id}/messages: the page that a member reads, and what reading marks.
use match_camp.Base.{
  ℕ, String, ◌≡◌, refl, ap, ◌∙◌, ◌⊎◌, inl, inr, Bool, true, false, not, ◌&&◌, ◌||◌, Option, none,
  some, List, [], ◌∷◌, map, reverse, arith, take, filter, In, sort_by, ltb, ◌==◌, if◌then◌else◌,
  Bool-cases,
}
use match_camp.Database.Chat.{
  in_page, newest_first, list_messages_paginated, mark_read, mark_messages_read,
}
use match_camp.Database.Models.{Uuid, Time, Message, Db}
use match_camp.Database.Mutual.{IsListed}
use match_camp.Database.Result.{DbError}
use match_camp.Server.Auth.Lifecycle.{at}
use match_camp.Server.Chat.{is_conversation_member, message_response, messages}
use match_camp.Server.Chat.Sending.{is_conversation_member-Ends}
use match_camp.Server.Paging.{parse_message_limit}
use match_camp.Server.Paging.Reversal.{reverse_rows_lem}
use match_camp.Server.Response.{message_list, Response, write_json, CurrentUser, parse_route_uuid}
use match_camp.Server.Response.Laws.{parse_route_uuid-Ends}
use match_camp.Text.{Text}
use match_camp.World.Ends.{
  Ends, and_then-Ends, run_query-Ends, on_error-Ends, Ends-weaken, raise_if-Ends, ignore-Ends,
}
use match_camp.World.Env.{Env, World}
use match_camp.World.Monad.{raise_if, on_error, ignore, run_query}

-- the messages of a conversation, from before the cursor where there is one
abbrev pub earlier : Option Time → Time → Bool
earlier none at = true
earlier (some t) at = ltb at t

abbrev pub is_selected : Uuid → Option Time → Message → Bool
is_selected id cursor m = m.conversation_id == id && earlier cursor m.created_at

-- a message after the reader has read the conversation: read, unless it is the reader's own or of
-- another conversation
abbrev pub after_reading : Uuid → Uuid → Message → Message
after_reading id reader m = record m {
  is_read = m.is_read || (m.conversation_id == id && not (m.sender_user_id == reader));
}

selected_lem :
    (id : Uuid) (cursor : Option Time) (ms : List Message)
    → filter (in_page id cursor) ms ≡ filter (is_selected id cursor) ms
unfolding in_page
selected_lem id none [] = refl
selected_lem id (some t) [] = refl
selected_lem id none (m ∷ ms) = elim (Bool-cases (m.conversation_id == id)) [
  | inl own ↦ rw own (ap (λ l. m ∷ l) (selected_lem id none ms))
  | inr other ↦ rw other (selected_lem id none ms)
]
selected_lem id (some t) (m ∷ ms) =
    elim (Bool-cases (m.conversation_id == id && ltb m.created_at t)) [
      | inl own ↦ rw own (ap (λ l. m ∷ l) (selected_lem id (some t) ms))
      | inr other ↦ rw other (selected_lem id (some t) ms)
    ]

marked :
    (a b c : Bool) (m : Message)
    → m.is_read ≡ c
    → (if a && b && not c then record m { is_read = true } else m)
      ≡ record m { is_read = c || (a && b) }
marked true true true m h = ap (λ r. record m { is_read = r }) h
marked true true false m h = refl
marked true false true m h = ap (λ r. record m { is_read = r }) h
marked true false false m h = ap (λ r. record m { is_read = r }) h
marked false b true m h = ap (λ r. record m { is_read = r }) h
marked false b false m h = ap (λ r. record m { is_read = r }) h

read_lem :
    (id reader : Uuid) (ms : List Message)
    → map (mark_read id reader) ms ≡ map (after_reading id reader) ms
unfolding mark_read
read_lem id reader [] = refl
read_lem id reader (m ∷ ms) =
    rw (marked (m.conversation_id == id) (not (m.sender_user_id == reader)) m.is_read m refl)
      (ap (λ l. after_reading id reader m ∷ l) (read_lem id reader ms))

-- What a 200 answers: the newest messages before the cursor, the oldest of them first, as they
-- were before the partner's messages were marked.
abbrev pub IsPage : Env → Uuid → Text → Text → Option Time → Db → Response → Db → Type 0
IsPage env reader id_param limit cursor before resp after =
    (id : Uuid) × (env.uuid_parse id_param ≡ some id)
    × IsListed id reader before
    × (resp
        ≡ write_json 200 (
            message_list (
              map message_response (
                reverse (
                  take (parse_message_limit limit)
                    (sort_by newest_first (filter (is_selected id cursor) before.messages)))))))
    × ((after ≡ before)
        ⊎ (after ≡ record before { messages = map (after_reading id reader) before.messages }))

abbrev pub PageRefused : Db → String → Db → Type 0
PageRefused before code after =
    In code ("invalid_uuid" ∷ "not_conversation_member" ∷ "messages_failed" ∷ []) × (after ≡ before)

-- GET /v1/conversations/{id}/messages answers 200 only to a member of the conversation; it takes the
-- conversation's messages before the cursor, sorted from the newest, up to the limit, and answers
-- them reversed; then the messages of the other members are marked as read, or nothing changes.
-- Any error is one of three codes and leaves the tables as they were.
pub messages-Ends :
    (env : Env) (user : CurrentUser) (id_param limit : Text) (cursor : Option Time) (w : World)
    → Ends
        (IsPage env user.id id_param limit cursor w.db)
        (PageRefused w.db)
        (messages env user id_param limit cursor w)
unfolding messages
messages-Ends env user id_param limit cursor w =
    and_then-Ends (λ id db'. (db' ≡ w.db) × (env.uuid_parse id_param ≡ some id)) _ Refusal
      (parse_route_uuid env.uuid_parse id_param w) _
      (parse_route_uuid-Ends Refusal env.uuid_parse id_param w (inl refl, refl))
      λ id w₁ h₁.
        and_then-Ends (λ member db'. (db' ≡ w.db) × (member ≡ true → IsListed id user.id w.db)) _
          Refusal (is_conversation_member id user.id w₁) _
          (Ends-weaken _ _ _ _ (is_conversation_member id user.id w₁)
            (λ member db' k. (k.0 ∙ h₁.0, rw h₁.0 at k.1)) (λ _ _ k. k)
            (is_conversation_member-Ends Refusal id user.id w₁))
          λ member w₂ h₂.
            and_then-Ends (λ _ db'. (db' ≡ w.db) × IsListed id user.id w.db) _ Refusal
              (raise_if (not member) "not_conversation_member" w₂) _
              (raise_if-Ends _ Refusal (not member) _ w₂
                (λ inside. (h₂.0, h₂.1 (ground (arith, inside)))) (inr (inl refl), h₂.0))
              λ _ w₃ h₃.
                and_then-Ends (λ rows db'. (db' ≡ w.db) × (rows ≡ page id w.db)) _ Refusal
                  (on_error (run_query (list_messages_paginated id cursor most))
                    (λ _. "messages_failed") w₃)
                  _
                  (on_error-Ends _ Refusal (run_query (list_messages_paginated id cursor most))
                    (λ _. "messages_failed") w₃
                    (Ends-weaken _ _ _ _ (run_query (list_messages_paginated id cursor most) w₃)
                      (λ rows db' k. (k.0 ∙ h₃.0, rw h₃.0 at k.1))
                      (λ e db' k. (inr (inr (inl refl)), k ∙ h₃.0))
                      (run_query-Ends (λ rows db'. (db' ≡ w₃.db) × (rows ≡ page id w₃.db))
                        (list_messages_paginated id cursor most) w₃
                        (unfold list_messages_paginated in
                          (
                            refl,
                            ap (λ l. take most (sort_by newest_first l))
                                (selected_lem id cursor w₃.db.messages),
                          )))))
                  λ rows w₄ h₄.
                    and_then-Ends
                      (λ _ db'.
                        (db' ≡ w.db)
                        ⊎ (db' ≡ record w.db {
                          messages = map (after_reading id user.id) w.db.messages;
                        }))
                      _ Refusal
                      (ignore {E = DbError} (run_query (mark_messages_read id user.id)) w₄) _
                      (ignore-Ends _ Refusal (run_query (mark_messages_read id user.id)) w₄ (
                        Ends-weaken _ _ _ _ (run_query (mark_messages_read id user.id) w₄)
                          (λ _ db' k. inr (rw h₄.0 at k)) (λ e db' k. inl (k ∙ h₄.0))
                          (run_query-Ends
                            (λ _ db'. db' ≡ record w₄.db {
                              messages = map (after_reading id user.id) w₄.db.messages;
                            })
                            (mark_messages_read id user.id) w₄
                            (unfold mark_messages_read in
                              ap (read_all w₄.db) (read_lem id user.id w₄.db.messages)))))
                      λ _ w₅ h₅. (
                        id,
                        h₁.1,
                        h₃.1,
                        ap (λ r. write_json 200 (message_list (map message_response r)))
                            (reverse_rows_lem rows ∙ ap reverse h₄.1),
                        h₅,
                      )
  where
    Refusal : String → Db → Type 0
    Refusal = PageRefused w.db

    most : ℕ
    most = parse_message_limit limit

    page : Uuid → Db → List Message
    page id db = take most (sort_by newest_first (filter (is_selected id cursor) db.messages))

    read_all : Db → List Message → Db
    read_all db ms = record db { messages = ms }
