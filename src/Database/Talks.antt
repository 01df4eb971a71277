-- ===== src/Database/Talks.antt =====
-- internal/database/db/match.sql.go: the listings of matches and of conversations.
pub mod Partnership
use match_camp.Base.{
  ℕ, Bool, not, ◌&&◌, ◌||◌, Option, none, some, List, [], ◌∷◌, ◌++◌, map, length, filter, find?,
  sort_by, leb, ◌==◌,
}
use match_camp.Database.Chat.{newest_first, is_unread_for}
use match_camp.Database.Match.{is_member}
use match_camp.Database.Models.{
  Uuid, uuid_nil, Time, Date, User, Match, Conversation, ConversationMember, Message, Db,
}
use match_camp.Database.Profile.{profile_of, or_blank, by_position, first_url}
use match_camp.Database.Result.{ok, Query}
use match_camp.Text.{Text}

-- The row of a JOIN for each pair.
abbrev pub flat_map : {A B : Type 0} → (A → List B) → List A → List B
flat_map f [] = []
flat_map f (x ∷ xs) = f x ++ flat_map f xs

abbrev pub first_row : {A : Type 0} → List A → Option A
first_row [] = none
first_row (x ∷ xs) = some x

-- the LATERAL subquery: the message of the conversation that was sent last
unfoldable pub last_message_of : Uuid → List Message → Option Message
last_message_of conversation_id messages =
    first_row (sort_by newest_first (filter (λ m. m.conversation_id == conversation_id) messages))

-- the columns of both listings
pub record TalkRow : Type 0 where
  pub match_id : Uuid
  pub conversation_id : Uuid
  pub created_at : Time
  pub partner_id : Uuid
  pub partner_display_name : Text
  pub partner_birth_date : Option Date
  pub partner_photo_url : Text
  pub last_message_body : Text
  pub last_message_sender_id : Uuid
  pub last_message_at : Option Time
  pub unread_count : ℕ

abbrev pub body_of : Option Message → Text
body_of none = []
body_of (some m) = m.body

abbrev pub sender_of : Option Message → Uuid
sender_of none = uuid_nil
sender_of (some m) = m.sender_user_id

abbrev pub sent_at : Option Message → Option Time
sent_at none = none
sent_at (some m) = some m.created_at

abbrev pub talk_row : Db → Uuid → Conversation → Time → ℕ → User → TalkRow
talk_row db match_id c created_at unread u =
    let last = last_message_of c.id db.messages in
    record {
      match_id = match_id;
      conversation_id = c.id;
      created_at = created_at;
      partner_id = u.id;
      partner_display_name = u.display_name;
      partner_birth_date = (or_blank u.id (find? (profile_of u.id) db.profiles)).birth_date;
      partner_photo_url =
          first_url (sort_by by_position (filter (λ p. p.user_id == u.id) db.profile_photos));
      last_message_body = body_of last;
      last_message_sender_id = sender_of last;
      last_message_at = sent_at last;
      unread_count = unread;
    }

-- COALESCE(msg.created_at, …)
abbrev pub activity : TalkRow → Time
activity row = elim row.last_message_at [ none ↦ row.created_at | some t ↦ t ]

abbrev pub latest_talk_first : TalkRow → TalkRow → Bool
latest_talk_first a b = leb (activity b) (activity a)

-- the JOIN with `users` in the listing of matches
unfoldable pub is_partner : Uuid → Match → User → Bool
is_partner user m u =
    (m.user_low_id == user && u.id == m.user_high_id)
    || (m.user_high_id == user && u.id == m.user_low_id)

abbrev pub match_rows : Db → Uuid → Match → List TalkRow
match_rows db user m =
    flat_map (λ c. map (talk_row db m.id c m.created_at 0) (filter (is_partner user m) db.users))
      (filter (λ (c : Conversation). c.match_id == m.id) db.conversations)

-- ListMatchesForUser, which counts no unread messages
unfoldable pub list_matches_for_user : Uuid → Query (List TalkRow)
list_matches_for_user user db = ok (
  sort_by latest_talk_first (
      flat_map (match_rows db user)
        (filter (λ m. m.user_low_id == user || m.user_high_id == user) db.matches)),
  db,
)

-- `cm2`: the members of a conversation other than the user
unfoldable pub is_other_member : Uuid → Uuid → ConversationMember → Bool
is_other_member conversation_id user m =
    m.conversation_id == conversation_id && not (m.user_id == user)

unfoldable pub unread_of : Uuid → Uuid → List Message → ℕ
unread_of conversation_id user messages =
    length (filter (is_unread_for conversation_id user) messages)

abbrev pub conversation_rows : Db → Uuid → Conversation → List TalkRow
conversation_rows db user c =
    flat_map
      (λ (own : ConversationMember).
        flat_map
          (λ (cm2 : ConversationMember).
            map (talk_row db c.match_id c c.created_at (unread_of c.id user db.messages))
              (filter (λ (u : User). u.id == cm2.user_id) db.users))
          (filter (is_other_member c.id user) db.conversation_members))
      (filter (is_member c.id user) db.conversation_members)

-- ListConversationsForUser
unfoldable pub list_conversations_for_user : Uuid → Query (List TalkRow)
list_conversations_for_user user db =
    ok (sort_by latest_talk_first (flat_map (conversation_rows db user) db.conversations), db)
