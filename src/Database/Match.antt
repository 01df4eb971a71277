-- ===== src/Database/Match.antt =====
-- internal/database/db/match.sql.go: the statements behind a swipe, with the constraints that
-- migrations/00001_init.sql puts on their tables. PostgreSQL tests the CHECKs of a row first, then
-- its unique indexes, and its foreign keys at the end of the statement.
-- The id of a new row is what gen_random_uuid() drew.
use match_camp.Base.{
  String, Bool, not, ◌&&◌, ◌||◌, none, some, ◌∷◌, str_eq, any, find?, ltb, ◌==◌, if◌then◌else◌,
}
use match_camp.Database.Models.{Uuid, Swipe, Match, Conversation, ConversationMember, has_user}
use match_camp.Database.Result.{unique_violation, failed, ok, err, Query}

abbrev pub swiped : Uuid → Uuid → Swipe → Bool
swiped actor target s = s.actor_user_id == actor && s.target_user_id == target

-- CreateSwipe
unfoldable pub create_swipe : Uuid → Uuid → Uuid → String → Query (Unit {0})
create_swipe id actor target action db =
    if actor == target
    then err failed
    else if not (str_eq action "like" || str_eq action "pass")
    then err failed
    else if any (λ s. s.id == id || swiped actor target s) db.swipes
    then err unique_violation
    else if not (has_user actor db && has_user target db)
    then err failed
    else ok (
      tt,
      record db {
        swipes =
            record {
              id = id;
              actor_user_id = actor;
              target_user_id = target;
              action = action;
              created_at = db.now;
            }
            ∷ db.swipes;
      },
    )

-- HasReciprocalLike
unfoldable pub has_reciprocal_like : Uuid → Uuid → Query Bool
has_reciprocal_like actor target db =
    ok (any (λ s. swiped actor target s && str_eq s.action "like") db.swipes, db)

abbrev pub of_pair : Uuid → Uuid → Match → Bool
of_pair low high m = m.user_low_id == low && m.user_high_id == high

abbrev pub insert_match : Uuid → Uuid → Uuid → Query Uuid
insert_match id low high db =
    if any (λ m. m.id == id) db.matches
    then err unique_violation
    else if not (has_user low db && has_user high db)
    then err failed
    else ok (
      id,
      record db {
        matches =
            record { id = id; user_low_id = low; user_high_id = high; created_at = db.now }
            ∷ db.matches;
      },
    )

-- UpsertMatch: the row that is there already keeps its id.
unfoldable pub upsert_match : Uuid → Uuid → Uuid → Query Uuid
upsert_match id low high db =
    if ltb low high
    then elim (find? (of_pair low high) db.matches) [
      | some m ↦ ok (m.id, db)
      | none ↦ insert_match id low high db
    ]
    else err failed

abbrev pub insert_conversation : Uuid → Uuid → Query Uuid
insert_conversation id match_id db =
    if any (λ c. c.id == id) db.conversations
    then err unique_violation
    else if not (any (λ m. m.id == match_id) db.matches)
    then err failed
    else ok (
      id,
      record db {
        conversations =
            record { id = id; match_id = match_id; created_at = db.now; last_message_at = none }
            ∷ db.conversations;
      },
    )

-- UpsertConversationForMatch
unfoldable pub upsert_conversation_for_match : Uuid → Uuid → Query Uuid
upsert_conversation_for_match id match_id db =
    elim (find? (λ (c : Conversation). c.match_id == match_id) db.conversations) [
      | some c ↦ ok (c.id, db)
      | none ↦ insert_conversation id match_id db
    ]

abbrev pub is_member : Uuid → Uuid → ConversationMember → Bool
is_member conversation_id user_id m = m.conversation_id == conversation_id && m.user_id == user_id

-- AddConversationMember: ON CONFLICT DO NOTHING
unfoldable pub add_conversation_member : Uuid → Uuid → Query (Unit {0})
add_conversation_member conversation_id user_id db =
    if any (is_member conversation_id user_id) db.conversation_members
    then ok (tt, db)
    else if not (any (λ c. c.id == conversation_id) db.conversations && has_user user_id db)
    then err failed
    else ok (
      tt,
      record db {
        conversation_members =
            record { conversation_id = conversation_id; user_id = user_id; created_at = db.now }
            ∷ db.conversation_members;
      },
    )
