-- ===== src/Server/Talks/Partnerships.antt =====
-- Whom the answers of `matches` and of `conversations` name as a partner.
use match_camp.Base.{
  String, ◌≡◌, refl, ◌∙◌, ◌≢◌, Bool, List, [], ◌∷◌, map, All, Any, All-map_of, All-map,
}
use match_camp.Database.Models.{Uuid, Date, Db}
use match_camp.Database.Mutual.{IsSound, IsListed}
use match_camp.Database.Talks.{TalkRow, list_matches_for_user, list_conversations_for_user}
use match_camp.Database.Talks.Partnership.{
  BothLiked, IsMatchRow, list_matches_for_user-rows, IsTalkRow, list_conversations_for_user-rows,
}
use match_camp.Server.Bodies.{MatchItem, ConversationItem}
use match_camp.Server.Profiles.{local_today}
use match_camp.Server.Response.{match_list, conversation_list, write_json, CurrentUser}
use match_camp.Server.Talks.{
  match_item, is_online, conversation_item, conversation_items, matches, conversations,
}
use match_camp.World.Ends.{Ends, and_then-Ends, run_query-Ends, on_error-Ends, Ends-weaken}
use match_camp.World.Env.{Env, World}
use match_camp.World.Monad.{on_error, run_query}

local_today-Ends :
    (P : String → Db → Type 0) (env : Env) (w : World)
    → Ends (λ _ db'. db' ≡ w.db) P (local_today env w)
unfolding local_today
local_today-Ends P env w = refl

-- The partner of an item is another user; the two like each other, and the conversation of the item
-- is that of their match.
abbrev pub IsMatchItem : Uuid → Db → MatchItem → Type 0
IsMatchItem user db item =
    (item.partner.id ≢ user)
    × BothLiked user item.partner.id db.swipes
    × Any (λ c. (c.id ≡ item.conversation_id) × (c.match_id ≡ item.match_id)) db.conversations

-- GET /v1/matches changes no table. On sound tables a 200 names as partners only other users who
-- have liked the user and whom the user has liked, each with the conversation of the match; the only
-- error is matches_failed.
pub matches-Ends :
    (env : Env) (user : CurrentUser) (w : World)
    → IsSound w.db
    → Ends
        (λ resp db'.
          (db' ≡ w.db)
          × (items : List MatchItem) × (resp ≡ write_json 200 (match_list items))
          × All (IsMatchItem user.id w.db) items)
        (λ code db'. (code ≡ "matches_failed") × (db' ≡ w.db))
        (matches env user w)
unfolding matches
matches-Ends env user w sound =
    and_then-Ends (λ rows db'. (db' ≡ w.db) × All (IsMatchRow user.id w.db) rows) _ Refusal
      (on_error (run_query (list_matches_for_user user.id)) (λ _. "matches_failed") w) _
      (on_error-Ends _ Refusal (run_query (list_matches_for_user user.id)) (λ _. "matches_failed") w
        (Ends-weaken _ _ _ _ (run_query (list_matches_for_user user.id) w)
          (λ rows db' k. (k.0, k.1)) (λ e db' k. (refl, k))
          (run_query-Ends _ (list_matches_for_user user.id) w
            (list_matches_for_user-rows user.id w.db sound))))
      λ rows w₁ h₁.
        and_then-Ends (λ _ db'. db' ≡ w₁.db) _ Refusal (local_today env w₁) _
          (local_today-Ends Refusal env w₁)
          λ today w₂ h₂. (
            h₂ ∙ h₁.0,
            map (match_item user.id today) rows,
            refl,
            All-map (IsMatchItem user.id w.db) (match_item user.id today) rows
                (All-map_of _ _ (λ row k. (k.0, k.1, k.2)) rows (h₁.1)),
          )
  where
    Refusal : String → Db → Type 0
    Refusal = λ code db'. (code ≡ "matches_failed") × (db' ≡ w.db)

-- The partner of an item is another member of the user's conversation, and the two like each other.
abbrev pub IsTalkItem : Uuid → Db → ConversationItem → Type 0
IsTalkItem user db item =
    (item.partner.id ≢ user)
    × BothLiked user item.partner.id db.swipes
    × IsListed item.conversation_id user db
    × IsListed item.conversation_id item.partner.id db

conversation_items-Ends :
    (Q : ConversationItem → Type 0) (R : TalkRow → Type 0) (P : String → Db → Type 0) (user : Uuid)
    (today : Date)
    → ((online : Bool) (row : TalkRow) → R row → Q (conversation_item user today online row))
    → (rows : List TalkRow) (w : World) → All R rows
    → Ends (λ items db'. (db' ≡ w.db) × All Q items) P (conversation_items user today rows w)
unfolding conversation_items is_online
conversation_items-Ends Q R P user today f [] w h = (refl, tt)
conversation_items-Ends Q R P user today f (row ∷ rows) w h =
    let read : World = (is_online row.partner_id w).1 in
    and_then-Ends (λ items db'. (db' ≡ w.db) × All Q items) _ P
      (conversation_items user today rows read) _
      (conversation_items-Ends Q R P user today f rows read h.1)
      λ items w₁ h₁. (h₁.0, (f _ row h.0, h₁.1))

-- GET /v1/conversations changes no table. On sound tables a 200 lists only conversations of the
-- user with another member who has liked the user and whom the user has liked; the only error is
-- conversations_failed.
pub conversations-Ends :
    (env : Env) (user : CurrentUser) (w : World)
    → IsSound w.db
    → Ends
        (λ resp db'.
          (db' ≡ w.db)
          × (items : List ConversationItem) × (resp ≡ write_json 200 (conversation_list items))
          × All (IsTalkItem user.id w.db) items)
        (λ code db'. (code ≡ "conversations_failed") × (db' ≡ w.db))
        (conversations env user w)
unfolding conversations
conversations-Ends env user w sound =
    and_then-Ends (λ rows db'. (db' ≡ w.db) × All (IsTalkRow user.id w.db) rows) _ Refusal
      (on_error (run_query (list_conversations_for_user user.id)) (λ _. "conversations_failed") w) _
      (on_error-Ends _ Refusal (run_query (list_conversations_for_user user.id))
        (λ _. "conversations_failed") w
        (Ends-weaken _ _ _ _ (run_query (list_conversations_for_user user.id) w)
          (λ rows db' k. (k.0, k.1)) (λ e db' k. (refl, k))
          (run_query-Ends _ (list_conversations_for_user user.id) w
            (list_conversations_for_user-rows user.id w.db sound))))
      λ rows w₁ h₁.
        and_then-Ends (λ _ db'. db' ≡ w₁.db) _ Refusal (local_today env w₁) _
          (local_today-Ends Refusal env w₁)
          λ today w₂ h₂.
            and_then-Ends (λ items db'. (db' ≡ w₂.db) × All (IsTalkItem user.id w.db) items) _
              Refusal (conversation_items user.id today rows w₂) _
              (conversation_items-Ends (IsTalkItem user.id w.db) (IsTalkRow user.id w.db) Refusal
                user.id today (λ online row k. (k.0, k.1, k.2, k.3)) rows w₂ h₁.1)
              λ items w₃ h₃. (h₃.0 ∙ h₂ ∙ h₁.0, items, refl, h₃.1)
  where
    Refusal : String → Db → Type 0
    Refusal = λ code db'. (code ≡ "conversations_failed") × (db' ≡ w.db)
