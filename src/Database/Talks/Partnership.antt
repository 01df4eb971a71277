-- ===== src/Database/Talks/Partnership.antt =====
-- Whom the listings of matches and of conversations show.
use match_camp.Base.{
  ◌≤◌, ◌≡◌, refl, sym, ◌∙◌, ◌≢◌, ◌⊎◌, inl, inr, true, false, List, [], ◌∷◌, arith, filter, All, Any,
  All-map_of, All-append, filter-All, All-both, All-map, Any-map_of, In, All-In_self, All-filter_of,
  sort_by, All-sort_by, Pairwise, Pairwise-sort_by, Pairwise-map_of, ◌==◌, ==_iff,
}
use match_camp.Database.Match.{is_member}
use match_camp.Database.Models.{Uuid, User, Swipe, Match, Conversation, ConversationMember, Db}
use match_camp.Database.Mutual.{Liked, IsMutual, InMatch, HasSide, IsSound, IsListed}
use match_camp.Database.Mutual.Partners.{members_mutual}
use match_camp.Database.Talks.{
  flat_map, TalkRow, talk_row, activity, latest_talk_first, is_partner, match_rows,
  list_matches_for_user, is_other_member, conversation_rows, list_conversations_for_user,
}
use match_camp.World.Ensures.{Yields}

-- `a` and `b` have liked each other.
abbrev pub BothLiked : Uuid → Uuid → List Swipe → Type 0
BothLiked a b swipes = Liked a b swipes × Liked b a swipes

All-flat_map :
    {A B : Type 0} (P : B → Type 0) (f : A → List B) (xs : List A)
    → All (λ x. All P (f x)) xs
    → All P (flat_map f xs)
All-flat_map P f [] h = tt
All-flat_map P f (x ∷ xs) h = All-append P (f x) (flat_map f xs) h.0 (All-flat_map P f xs h.1)

-- A row of the user: another user of record, matched with the user and liked both ways, with the
-- conversation of the match.
abbrev pub IsMatchRow : Uuid → Db → TalkRow → Type 0
IsMatchRow user db row =
    (row.partner_id ≢ user)
    × BothLiked user row.partner_id db.swipes
    × Any (λ c. (c.id ≡ row.conversation_id) × (c.match_id ≡ row.match_id)) db.conversations
    × HasSide row.match_id user db.matches
    × HasSide row.match_id row.partner_id db.matches

partner_liked :
    (swipes : List Swipe) (user : Uuid) (m : Match) (u : User)
    → IsMutual swipes m
    → is_partner user m u ≡ true
    → (u.id ≢ user) × BothLiked user u.id swipes × InMatch user m × InMatch u.id m
unfolding is_partner
partner_liked swipes user m u (ordered, low_high, high_low) h =
    let side : ((m.user_low_id ≡ user) × (u.id ≡ m.user_high_id))
        ⊎ ((m.user_high_id ≡ user) × (u.id ≡ m.user_low_id)) =
      ground arith in
    elim side [
      | inl (low, high) ↦
          rw (high, sym low)
            (λ e. absurd (omega (arith, e, ordered)), (low_high, high_low), inl refl, inr refl)
      | inr (high, low) ↦
          rw (low, sym high)
            (λ e. absurd (omega (arith, e, ordered)), (high_low, low_high), inr refl, inl refl)
    ]

match_rows-All :
    (user : Uuid) (db : Db) (m : Match)
    → In m db.matches
    → IsMutual db.swipes m
    → All (IsMatchRow user db) (match_rows db user m)
match_rows-All user db m m_in likes = All-flat_map (IsMatchRow user db) _ _ (
    All-filter_of _ (λ c. In c db.conversations) _
      (λ c c_in own. All-map (IsMatchRow user db) (talk_row db m.id c m.created_at 0) _ (
        All-map_of _ _
          (λ u partner.
            let (other, both, mine, theirs) = partner_liked db.swipes user m u likes partner in
            (
              other,
              both,
              Any-map_of _ _ (λ d e. rw e (refl, (==_iff c.match_id m.id).0 own)) db.conversations
                  c_in,
              Any-map_of _ _ (λ n e. rw e (refl, mine)) db.matches m_in,
              Any-map_of _ _ (λ n e. rw e (refl, theirs)) db.matches m_in,
            ))
          (filter (is_partner user m) db.users) (filter-All (is_partner user m) db.users)))
      db.conversations (All-In_self db.conversations))

latest_total : (a b : TalkRow) → latest_talk_first a b ≡ false → latest_talk_first b a ≡ true
latest_total a b h = ground arith

latest_trans :
    (a b c : TalkRow)
    → latest_talk_first a b ≡ true
    → latest_talk_first b c ≡ true
    → latest_talk_first a c ≡ true
latest_trans a b c h k = ground arith

abbrev pub InOrder : List TalkRow → Type 0
InOrder rows = Pairwise (λ a b. activity b ≤ activity a) rows

sorted-InOrder : (rows : List TalkRow) → InOrder (sort_by latest_talk_first rows)
sorted-InOrder rows =
    Pairwise-map_of (λ a b h. ground arith) _
      (Pairwise-sort_by latest_talk_first latest_total latest_trans rows)

-- On sound tables ListMatchesForUser changes nothing, and each row shows another user, who has
-- liked the user and whom the user has liked, with the match of the two and its conversation; the
-- rows go from the latest to the oldest.
pub list_matches_for_user-rows :
    (user : Uuid) (db : Db)
    → IsSound db
    → Yields
        (λ rows after. (after ≡ db) × All (IsMatchRow user db) rows × InOrder rows)
        (list_matches_for_user user db)
unfolding list_matches_for_user
list_matches_for_user-rows user db sound = (
  refl,
  All-sort_by latest_talk_first (IsMatchRow user db) _ (
      All-flat_map (IsMatchRow user db) (match_rows db user) _ (
        All-filter_of _ (λ m. In m db.matches × IsMutual db.swipes m) _
          (λ m k side. match_rows-All user db m k.0 k.1) db.matches
          (All-both _ _ db.matches (All-In_self db.matches) sound.likes))),
  sorted-InOrder _,
)

-- A row of the user: a conversation with another of its members, and the two like each other.
abbrev pub IsTalkRow : Uuid → Db → TalkRow → Type 0
IsTalkRow user db row =
    (row.partner_id ≢ user)
    × BothLiked user row.partner_id db.swipes
    × IsListed row.conversation_id user db
    × IsListed row.conversation_id row.partner_id db
    × Any (λ c. (c.id ≡ row.conversation_id) × (c.match_id ≡ row.match_id)) db.conversations

other_member_liked :
    (user : Uuid) (db : Db) (c : Conversation) (own cm2 : ConversationMember) (u : User)
    → IsSound db
    → In c db.conversations
    → In own db.conversation_members
    → In cm2 db.conversation_members
    → is_member c.id user own ≡ true
    → is_other_member c.id user cm2 ≡ true
    → (u.id == cm2.user_id) ≡ true
    → (u.id ≢ user)
      × BothLiked user u.id db.swipes
      × IsListed c.id user db
      × IsListed c.id u.id db
      × Any (λ d. (d.id ≡ c.id) × (d.match_id ≡ c.match_id)) db.conversations
unfolding is_other_member
other_member_liked user db c own cm2 u sound c_in own_in cm2_in is_own is_other same =
    let own_talk : own.conversation_id ≡ c.id = ground arith in
    let own_user : own.user_id ≡ user = ground arith in
    let talk : cm2.conversation_id ≡ c.id = ground arith in
    let partner : u.id ≡ cm2.user_id = ground arith in
    let apart : cm2.user_id ≢ user = ground arith in
    let both =
      members_mutual db own cm2 sound own_in cm2_in (own_talk ∙ sym talk)
        (λ e. apart (sym e ∙ own_user)) in
    let liked : BothLiked user cm2.user_id db.swipes = rw own_user at both in
    rw partner (
      apart,
      liked,
      Any-map_of _ _ (λ d e. rw e (own_talk, own_user)) db.conversation_members own_in,
      Any-map_of _ _ (λ d e. rw e (talk, refl)) db.conversation_members cm2_in,
      Any-map_of _ _ (λ d e. rw e (refl, refl)) db.conversations c_in,
    )

conversation_rows-All :
    (user : Uuid) (db : Db) (c : Conversation)
    → IsSound db
    → In c db.conversations
    → All (IsTalkRow user db) (conversation_rows db user c)
conversation_rows-All user db c sound c_in = All-flat_map (IsTalkRow user db) _ _ (
    All-filter_of _ (λ cm. In cm db.conversation_members) _
      (λ own own_in is_own. All-flat_map (IsTalkRow user db) _ _ (
        All-filter_of _ (λ cm. In cm db.conversation_members) _
          (λ cm2 cm2_in is_other. All-map (IsTalkRow user db) _ _ (
            All-map_of _ _
              (λ u same.
                other_member_liked user db c own cm2 u sound c_in own_in cm2_in is_own is_other
                  same)
              (filter (λ (u : User). u.id == cm2.user_id) db.users)
              (filter-All (λ (u : User). u.id == cm2.user_id) db.users)))
          db.conversation_members (All-In_self db.conversation_members)))
      db.conversation_members (All-In_self db.conversation_members))

-- On sound tables ListConversationsForUser changes nothing, and each row shows a conversation of
-- the user and another member of it; the two have liked each other. The rows go from the latest to
-- the oldest.
pub list_conversations_for_user-rows :
    (user : Uuid) (db : Db)
    → IsSound db
    → Yields
        (λ rows after. (after ≡ db) × All (IsTalkRow user db) rows × InOrder rows)
        (list_conversations_for_user user db)
unfolding list_conversations_for_user
list_conversations_for_user-rows user db sound = (
  refl,
  All-sort_by latest_talk_first (IsTalkRow user db) _ (
      All-flat_map (IsTalkRow user db) (conversation_rows db user) db.conversations (
        All-map_of _ _ (λ c c_in. conversation_rows-All user db c sound c_in) db.conversations
          (All-In_self db.conversations))),
  sorted-InOrder _,
)
