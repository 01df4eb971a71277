-- ===== src/Server/Socket/Typing.antt =====
-- Whom the typing of a user is told.
use match_camp.Base.{
  ◌≡◌, refl, sym, ap, ◌∙◌, inl, inr, not, some, List, [], ◌∷◌, ◌++◌, map, append_assoc, any, filter,
  ◌==◌, if◌then◌else◌, Bool-cases,
}
use match_camp.Database.Chat.{conversation_member_exists, list_conversation_members}
use match_camp.Database.Match.{is_member}
use match_camp.Database.Models.{Uuid, ConversationMember, Db}
use match_camp.Database.Result.{ok}
use match_camp.Server.Chat.{is_conversation_member}
use match_camp.Server.Chat.Delivery.{copies}
use match_camp.Server.Socket.{publish_others, tell_typing, typing}
use match_camp.World.Env.{Env, Event, typing_event, World}
use match_camp.World.Monad.{attempt, run_query, publish, all_calm}

published-publish_others :
    {E : Type 0} (user : Uuid) (members : List Uuid) (event : Event) (w : World)
    → publish_others {E = E} user members event (record w { redis_faults = [] }) ≡ (
      ok tt,
      record w {
        redis_faults = [];
        published = copies (filter (λ m. not (m == user)) members) event ++ w.published;
      },
    )
unfolding publish_others publish
published-publish_others user [] event w = refl
published-publish_others user (m ∷ members) event w = elim (Bool-cases (m == user)) [
  | inl own ↦ rw own (published-publish_others user members event w)
  | inr other ↦ rw other (
      published-publish_others user members event
        (record w { published = (m, event) ∷ w.published })
      ∙ ap (λ p. (ok tt, record w { redis_faults = []; published = p }))
          (sym (
            append_assoc (copies (filter (λ m. not (m == user)) members) event) ((m, event) ∷ [])
              w.published)))
]

-- The members of the conversation other than the user, where the user is a member; else nobody.
abbrev pub told : Uuid → Uuid → Db → List Uuid
told user id db =
    if any (is_member id user) db.conversation_members
    then filter (λ m. not (m == user))
        (map (λ (m : ConversationMember). m.user_id)
          (filter (λ m. m.conversation_id == id) db.conversation_members))
    else []

-- Where no call of PostgreSQL or Redis fails, the typing of a member is told once to each other member of
-- the conversation, and to nobody else; that of a stranger to the conversation is told to nobody.
pub typing_tells :
    (E : Type 0) (env : Env) (user id : Uuid) (w : World)
    → typing env user {E = E} (some id) (all_calm w) ≡ (
      ok tt,
      record (all_calm w) {
        published = copies (told user id w.db) (typing_event id user) ++ w.published;
      },
    )
unfolding typing tell_typing is_conversation_member attempt run_query conversation_member_exists
    list_conversation_members
typing_tells E env user id w =
    elim (Bool-cases (any (is_member id user) w.db.conversation_members)) [
      | inl member ↦ rw member (published-publish_others user _ (typing_event id user) (all_calm w))
      | inr stranger ↦ rw stranger refl
    ]
