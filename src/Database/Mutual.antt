-- ===== src/Database/Mutual.antt =====
-- Matches rest on mutual likes, and the members of a conversation are a matched pair.
pub mod Statements
pub mod Partners
use match_camp.Base.{
  ◌<◌, ◌≡◌, ◌≢◌, ◌⊎◌, inr, false, none, List, ◌∷◌, arith, any, find?, All, Any, All-map_of,
  any-eq-false, find?-none, Any-map_of, Pairwise, ◌==◌,
}
use match_camp.Database.Match.{of_pair}
use match_camp.Database.Models.{Uuid, Swipe, Match, Conversation, ConversationMember, Db}

-- `a` has liked `b`.
abbrev pub Liked : Uuid → Uuid → List Swipe → Type 0
Liked a b swipes =
    Any (λ s. (s.actor_user_id ≡ a) × (s.target_user_id ≡ b) × (s.action ≡ "like")) swipes

-- The two sides stand in order, and each has liked the other.
abbrev pub IsMutual : List Swipe → Match → Type 0
IsMutual swipes m =
    (m.user_low_id < m.user_high_id)
    × Liked m.user_low_id m.user_high_id swipes
    × Liked m.user_high_id m.user_low_id swipes

abbrev pub InMatch : Uuid → Match → Type 0
InMatch user m = (user ≡ m.user_low_id) ⊎ (user ≡ m.user_high_id)

-- The match of a conversation, with `user` on one side.
abbrev pub HasSide : Uuid → Uuid → List Match → Type 0
HasSide match_id user matches = Any (λ m. (m.id ≡ match_id) × InMatch user m) matches

-- A member of a conversation is a side of the conversation's match.
abbrev pub IsPaired : List Match → List Conversation → ConversationMember → Type 0
IsPaired matches conversations cm =
    Any (λ c. (c.id ≡ cm.conversation_id) × HasSide c.match_id cm.user_id matches) conversations

abbrev pub SamePair : Match → Match → Type 0
SamePair m n = (m.user_low_id ≡ n.user_low_id) × (m.user_high_id ≡ n.user_high_id)

pub record IsSound (db : Db) : Type 0 where
  pub match_ids : Pairwise (λ m n. m.id ≢ n.id) db.matches
  pub conversation_ids : Pairwise (λ c d. c.id ≢ d.id) db.conversations
  pub one_match : Pairwise (λ m n. ¬ SamePair m n) db.matches
  pub one_conversation : Pairwise (λ c d. c.match_id ≢ d.match_id) db.conversations
  pub likes : All (IsMutual db.swipes) db.matches
  pub sides : All (IsPaired db.matches db.conversations) db.conversation_members

pub IsSound-swipe :
    (db : Db) (s : Swipe) → IsSound db → IsSound (record db { swipes = s ∷ db.swipes })
IsSound-swipe db s h = record {
  match_ids = h.match_ids;
  conversation_ids = h.conversation_ids;
  one_match = h.one_match;
  one_conversation = h.one_conversation;
  likes = All-map_of (IsMutual db.swipes) _ (λ m k. (k.0, inr k.1, inr k.2)) db.matches h.likes;
  sides = h.sides;
}

abbrev pub HasMatch : Uuid → Uuid → Uuid → List Match → Type 0
HasMatch id low high matches =
    Any (λ m. (m.id ≡ id) × (m.user_low_id ≡ low) × (m.user_high_id ≡ high)) matches

pub IsSound-match :
    (db : Db) (m : Match)
    → IsSound db
    → any (λ n. n.id == m.id) db.matches ≡ false
    → find? (of_pair m.user_low_id m.user_high_id) db.matches ≡ none
    → IsMutual db.swipes m
    → IsSound (record db { matches = m ∷ db.matches })
IsSound-match db m h fresh missing both = record {
  match_ids = (
    All-map_of (λ n. (n.id == m.id) ≡ false) (λ n. m.id ≢ n.id) (λ n e. ground arith) db.matches
        (any-eq-false _ db.matches fresh),
    h.match_ids,
  );
  conversation_ids = h.conversation_ids;
  one_match = (
    All-map_of (λ n. of_pair m.user_low_id m.user_high_id n ≡ false) (λ n. ¬ SamePair m n)
        (λ n e same. ground arith) db.matches (find?-none _ db.matches missing),
    h.one_match,
  );
  one_conversation = h.one_conversation;
  likes = (both, h.likes);
  sides =
      All-map_of (IsPaired db.matches db.conversations) _
        (λ cm. Any-map_of _ _ (λ (c : Conversation) k. (k.0, inr k.1)) db.conversations)
        db.conversation_members h.sides;
}

abbrev pub HasConversation : Uuid → Uuid → List Conversation → Type 0
HasConversation id match_id conversations =
    Any (λ c. (c.id ≡ id) × (c.match_id ≡ match_id)) conversations

pub IsSound-conversation :
    (db : Db) (c : Conversation)
    → IsSound db
    → any (λ d. d.id == c.id) db.conversations ≡ false
    → find? (λ (d : Conversation). d.match_id == c.match_id) db.conversations ≡ none
    → IsSound (record db { conversations = c ∷ db.conversations })
IsSound-conversation db c h fresh missing = record {
  match_ids = h.match_ids;
  conversation_ids = (
    All-map_of (λ d. (d.id == c.id) ≡ false) (λ d. c.id ≢ d.id) (λ d e. ground arith)
        db.conversations (any-eq-false _ db.conversations fresh),
    h.conversation_ids,
  );
  one_match = h.one_match;
  one_conversation = (
    All-map_of (λ d. (d.match_id == c.match_id) ≡ false) (λ d. c.match_id ≢ d.match_id)
        (λ d e. ground arith) db.conversations (find?-none _ db.conversations missing),
    h.one_conversation,
  );
  likes = h.likes;
  sides =
      All-map_of (IsPaired db.matches db.conversations) (IsPaired db.matches (c ∷ db.conversations))
        (λ cm k. inr k) db.conversation_members h.sides;
}

pub IsPaired-of_match :
    (match_id low high : Uuid) (ms : List Match) (cs : List Conversation) (cm : ConversationMember)
    → HasMatch match_id low high ms
    → HasConversation cm.conversation_id match_id cs
    → (cm.user_id ≡ low) ⊎ (cm.user_id ≡ high)
    → IsPaired ms cs cm
IsPaired-of_match match_id low high ms cs cm m c side =
    Any-map_of (λ d. (d.id ≡ cm.conversation_id) × (d.match_id ≡ match_id))
      (λ d. (d.id ≡ cm.conversation_id) × HasSide d.match_id cm.user_id ms)
      (λ d e. (
        e.0,
        Any-map_of (λ n. (n.id ≡ match_id) × (n.user_low_id ≡ low) × (n.user_high_id ≡ high))
            (λ n. (n.id ≡ d.match_id) × InMatch cm.user_id n) (λ n k. ground arith) ms m,
      ))
      cs c

pub IsSound-member :
    (db : Db) (cm : ConversationMember)
    → IsSound db
    → IsPaired db.matches db.conversations cm
    → IsSound (record db { conversation_members = cm ∷ db.conversation_members })
IsSound-member db cm h p = record {
  match_ids = h.match_ids;
  conversation_ids = h.conversation_ids;
  one_match = h.one_match;
  one_conversation = h.one_conversation;
  likes = h.likes;
  sides = (p, h.sides);
}

-- A match on record, and the likes that it rests on.
pub record HasPair (match_id low high : Uuid) (db : Db) : Type 0 where
  pub sound : IsSound db
  pub there : Liked low high db.swipes
  pub back : Liked high low db.swipes
  pub matched : HasMatch match_id low high db.matches

-- The same with the conversation of the match.
pub record IsOpen (conversation_id match_id low high : Uuid) (db : Db) : Type 0 where
  pub sound : IsSound db
  pub there : Liked low high db.swipes
  pub back : Liked high low db.swipes
  pub matched : HasMatch match_id low high db.matches
  pub talks : HasConversation conversation_id match_id db.conversations

-- `user` is a member of the conversation.
abbrev pub IsListed : Uuid → Uuid → Db → Type 0
IsListed conversation_id user db =
    Any (λ cm. (cm.conversation_id ≡ conversation_id) × (cm.user_id ≡ user)) db.conversation_members
