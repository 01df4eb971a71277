-- ===== src/Database/Mutual/Statements.antt =====
-- The statements behind a swipe, and what each leaves on record.
use match_camp.Base.{
  String, ◌≡◌, refl, ◌⊎◌, inl, inr, Bool, true, false, not, ◌&&◌, none, some, List, arith, str_eq,
  eq_iff, any, find?, Any, any-Any, Any-any, find?-Any, Any-map_of, ◌==◌, Bool-cases, Option-cases,
}
use match_camp.Database.Match.{
  swiped, create_swipe, has_reciprocal_like, of_pair, upsert_match, upsert_conversation_for_match,
  is_member, add_conversation_member,
}
use match_camp.Database.Models.{Uuid, Swipe, Match, Conversation, ConversationMember, Db, has_user}
use match_camp.Database.Mutual.{
  Liked, IsSound, IsSound-swipe, HasMatch, IsSound-match, HasConversation, IsSound-conversation,
  IsPaired-of_match, IsSound-member, HasPair, IsOpen, IsListed,
}
use match_camp.World.Ensures.{Yields}

-- A recorded swipe keeps the invariant, and a like is then on record.
pub create_swipe-Yields :
    (id actor target : Uuid) (action : String) (db : Db)
    → IsSound db
    → Yields
        (λ _ db'. IsSound db' × (action ≡ "like" → Liked actor target db'.swipes))
        (create_swipe id actor target action db)
unfolding create_swipe
create_swipe-Yields id actor target action db s = ground (
  arith,
  IsSound-swipe db
      (record {
        id = id;
        actor_user_id = actor;
        target_user_id = target;
        action = action;
        created_at = db.now;
      })
      s,
)

-- The answer says whether the like is on record, both ways.
pub has_reciprocal_like-Yields :
    (actor target : Uuid) (db : Db)
    → Yields
        (λ found db'.
          (db' ≡ db)
          × (found ≡ true → Liked actor target db.swipes)
          × (found ≡ false → ¬ Liked actor target db.swipes))
        (has_reciprocal_like actor target db)
unfolding has_reciprocal_like
has_reciprocal_like-Yields actor target db =
    let test : Swipe → Bool = λ s. swiped actor target s && str_eq s.action "like" in
    let like : Swipe → Type 0 =
      λ s. (s.actor_user_id ≡ actor) × (s.target_user_id ≡ target) × (s.action ≡ "like") in
    (
      refl,
      λ found.
          Any-map_of (λ s. test s ≡ true) like (λ r h. ground (arith, eq_iff r.action "like"))
            db.swipes (any-Any test db.swipes found),
      λ missing there. cc (
        missing,
        Any-any test db.swipes (
            Any-map_of like (λ s. test s ≡ true) (λ r h. ground (arith, eq_iff r.action "like"))
              db.swipes there),
      ),
    )

HasMatch-of_find :
    (low high : Uuid) (ms : List Match) (m : Match)
    → find? (of_pair low high) ms ≡ some m
    → HasMatch m.id low high ms
HasMatch-of_find low high ms m found =
    let (passes, there) = find?-Any (of_pair low high) ms m found in
    Any-map_of (λ n. n ≡ m) (λ n. (n.id ≡ m.id) × (n.user_low_id ≡ low) × (n.user_high_id ≡ high))
      (λ n e. ground arith) ms there

-- The match of the pair, old or new, exists afterwards, and rests on both likes.
pub upsert_match-Yields :
    (id low high : Uuid) (db : Db)
    → IsSound db
    → Liked low high db.swipes
    → Liked high low db.swipes
    → Yields (λ match_id db'. HasPair match_id low high db') (upsert_match id low high db)
unfolding upsert_match
upsert_match-Yields id low high db s there back =
    elim (Option-cases (find? (of_pair low high) db.matches)) [
      | inl missing ↦ ground (
        arith,
        IsSound-match db
            (record { id = id; user_low_id = low; user_high_id = high; created_at = db.now }) s,
      )
      | inr (m, found) ↦ ground (arith, HasMatch-of_find low high db.matches m found)
    ]

HasConversation-of_find :
    (match_id : Uuid) (cs : List Conversation) (c : Conversation)
    → find? (λ (d : Conversation). d.match_id == match_id) cs ≡ some c
    → HasConversation c.id match_id cs
HasConversation-of_find match_id cs c found =
    let (passes, there) = find?-Any (λ (d : Conversation). d.match_id == match_id) cs c found in
    Any-map_of (λ d. d ≡ c) (λ d. (d.id ≡ c.id) × (d.match_id ≡ match_id)) (λ d e. ground arith) cs
      there

-- The conversation of the match, old or new, exists afterwards.
pub upsert_conversation-Yields :
    (id match_id low high : Uuid) (db : Db)
    → HasPair match_id low high db
    → Yields
        (λ conversation_id db'. IsOpen conversation_id match_id low high db')
        (upsert_conversation_for_match id match_id db)
unfolding upsert_conversation_for_match
upsert_conversation-Yields id match_id low high db h =
    elim (Option-cases (find? (λ (d : Conversation). d.match_id == match_id) db.conversations)) [
      | inl missing ↦ ground (
        arith,
        IsSound-conversation db
            (record { id = id; match_id = match_id; created_at = db.now; last_message_at = none })
            h.sound,
      )
      | inr (c, found) ↦ ground (arith, HasConversation-of_find match_id db.conversations c found)
    ]

member_of_any :
    (conversation_id user : Uuid) (cms : List ConversationMember)
    → any (is_member conversation_id user) cms ≡ true
    → Any (λ cm. (cm.conversation_id ≡ conversation_id) × (cm.user_id ≡ user)) cms
member_of_any conversation_id user cms h =
    Any-map_of (λ cm. is_member conversation_id user cm ≡ true)
      (λ cm. (cm.conversation_id ≡ conversation_id) × (cm.user_id ≡ user)) (λ cm e. ground arith)
      cms (any-Any _ cms h)

-- A side of the match becomes a member of its conversation, and no member leaves.
pub add_conversation_member-Yields :
    (conversation_id match_id low high user : Uuid) (db : Db)
    → (user ≡ low) ⊎ (user ≡ high)
    → IsOpen conversation_id match_id low high db
    → Yields
        (λ _ db'.
          IsOpen conversation_id match_id low high db'
          × IsListed conversation_id user db'
          × ((v : Uuid) → IsListed conversation_id v db → IsListed conversation_id v db'))
        (add_conversation_member conversation_id user db)
unfolding add_conversation_member
add_conversation_member-Yields conversation_id match_id low high user db side o =
    let row : ConversationMember = record {
      conversation_id = conversation_id;
      user_id = user;
      created_at = db.now;
    } in
    let sound' = IsSound-member db row o.sound (
      IsPaired-of_match match_id low high db.matches db.conversations row o.matched o.talks side) in
    elim (Bool-cases (any (is_member conversation_id user) db.conversation_members)) [
      | inl there ↦
          rw there (o, member_of_any conversation_id user db.conversation_members there, λ v h. h)
      | inr new ↦
          rw new
            (elim (Bool-cases
              (not (any (λ c. c.id == conversation_id) db.conversations && has_user user db))) [
                | inl missing ↦ rw missing tt
                | inr known ↦ rw known (
                  record {
                    sound = sound';
                    there = o.there;
                    back = o.back;
                    matched = o.matched;
                    talks = o.talks;
                  },
                  inl (refl, refl),
                  λ v h. inr h,
                )
              ])
    ]
