-- ===== src/Database/Mutual/Partners.antt =====
-- Who can stand in one conversation.
use match_camp.Base.{
  ◌≡◌, sym, ap, ◌∙◌, ◌≢◌, inl, inr, List, In, Any-witness, All-In, Pairwise-unique,
}
use match_camp.Database.Models.{Uuid, Swipe, Match, Conversation, ConversationMember, Db}
use match_camp.Database.Mutual.{Liked, IsMutual, InMatch, IsSound}

-- Two different sides of one match have liked each other.
sides_like :
    (swipes : List Swipe) (m : Match) (u v : Uuid)
    → IsMutual swipes m
    → InMatch u m
    → InMatch v m
    → u ≢ v
    → Liked u v swipes × Liked v u swipes
sides_like swipes m u v (ordered, low_high, high_low) (inl a) (inl b) d = absurd (d (a ∙ sym b))
sides_like swipes m u v (ordered, low_high, high_low) (inl a) (inr b) d =
    rw (a, b) (low_high, high_low)
sides_like swipes m u v (ordered, low_high, high_low) (inr a) (inl b) d =
    rw (a, b) (high_low, low_high)
sides_like swipes m u v (ordered, low_high, high_low) (inr a) (inr b) d = absurd (d (a ∙ sym b))

-- In a sound database two different members of one conversation have liked each other.
pub members_mutual :
    (db : Db) (cm dm : ConversationMember)
    → IsSound db
    → In cm db.conversation_members
    → In dm db.conversation_members
    → cm.conversation_id ≡ dm.conversation_id
    → cm.user_id ≢ dm.user_id
    → Liked cm.user_id dm.user_id db.swipes × Liked dm.user_id cm.user_id db.swipes
members_mutual db cm dm s cm_in dm_in same differ =
    let (c, c_in, c_at) =
      Any-witness _ db.conversations (All-In _ cm db.conversation_members s.sides cm_in) in
    let (d, d_in, d_at) =
      Any-witness _ db.conversations (All-In _ dm db.conversation_members s.sides dm_in) in
    let (m, m_in, m_at) = Any-witness _ db.matches c_at.1 in
    let (n, n_in, n_at) = Any-witness _ db.matches d_at.1 in
    let one_talk : c ≡ d =
      Pairwise-unique (λ (k : Conversation). k.id) c d db.conversations s.conversation_ids c_in d_in
        (c_at.0 ∙ same ∙ sym d_at.0) in
    let one_pair : m ≡ n =
      Pairwise-unique (λ (k : Match). k.id) m n db.matches s.match_ids m_in n_in
        (m_at.0 ∙ ap (λ (k : Conversation). k.match_id) one_talk ∙ sym n_at.0) in
    sides_like db.swipes m cm.user_id dm.user_id (All-In _ m db.matches s.likes m_in) m_at.1
      (rw one_pair n_at.1) differ
