-- ===== src/Server/Socket/Stored.antt =====
-- What a connection writes to the tables.
use match_camp.Base.{
  ◌≡◌, refl, sym, subst, ◌∙◌, inl, inr, Bool, true, false, Option, none, some, List, [], ◌∷◌, ◌==◌,
  if◌then◌else◌, Bool-cases,
}
use match_camp.Database.Chat.{list_conversation_members}
use match_camp.Database.Models.{Uuid, Db}
use match_camp.Database.Mutual.{IsListed}
use match_camp.Database.Result.{DbError, Result, ok, err}
use match_camp.Server.Chat.{ChatError, is_conversation_member, create_message}
use match_camp.Server.Chat.Sending.{IsSent, is_conversation_member-Ends, create_message-Ends}
use match_camp.Server.Payload.{ChatMessageRequest, validate_chat_payload}
use match_camp.Server.Socket.{
  Frame, Reply, SocketTurn, read_frame, renew, is_typing, publish_others, or_nobody, known_id,
  tell_typing, typing, chat_request, send_or_refuse, on_kind, on_frame, set_presence,
  delete_presence, on_turn, read_loop, websocket,
}
use match_camp.World.Ends.{
  Ends, and_then-Ends, run_query-Ends, Ends-weaken, Found, observe-Ends, attempt-Ends,
}
use match_camp.World.Env.{Env, ChatMessageResponse, Event, typing_event, World}
use match_camp.World.Monad.{◌>>◌, pure, attempt, run_query, publish, observe}

-- A series of messages of one user, each accepted, sent to a conversation of which the user is a
-- member then, and stored as createMessage stores it.
pub data Sends (env : Env) (user : Uuid) : Db → Db → Type 0 where
  quiet : {db : Db} → Sends env user db db
  sends_one :
      {db after : Db} (req : ChatMessageRequest) (msg : ChatMessageResponse)
      → validate_chat_payload env.unicode_lower req ≡ ok tt
      → IsListed req.conversation_id user db
      → IsSent user req db msg after
      → {final : Db} → Sends env user after final
      → Sends env user db final

Sends-append :
    (env : Env) (user : Uuid) {a b c : Db}
    → Sends env user a b
    → Sends env user b c
    → Sends env user a c
Sends-append env user quiet k = k
Sends-append env user (sends_one req msg valid listed sent rest) k =
    sends_one req msg valid listed sent (Sends-append env user rest k)

module _ (env : Env) (user : Uuid) where
  publish_others-Ends :
      {E : Type 0} (Q : Db → Type 0) (P : E → Db → Type 0) (members : List Uuid) (event : Event)
      (w : World)
      → Q w.db
      → Ends (λ _. Q) P (publish_others user members event w)
  unfolding publish_others publish
  publish_others-Ends Q P [] event w h = h
  publish_others-Ends {E} Q P (m ∷ members) event w h = elim (Bool-cases (m == user)) [
    | inl own ↦ rw own (publish_others-Ends Q P members event w h)
    | inr other ↦ rw other (publish_others-Ends Q P members event (publish {E = E} m event w).1 h)
  ]

  tell_typing-Ends :
      {E : Type 0} (P : E → Db → Type 0) (id : Uuid) (member : Bool) (w : World)
      → Ends (λ _ db'. db' ≡ w.db) P (tell_typing env user id member w)
  unfolding tell_typing
  tell_typing-Ends P id false w = refl
  tell_typing-Ends P id true w =
      and_then-Ends (λ _ db'. db' ≡ w.db) _ P
        (attempt {E = DbError} (run_query (list_conversation_members id)) w) _
        (attempt-Ends _ P (run_query (list_conversation_members id)) w (
          run_query-Ends (λ _ db'. db' ≡ w.db) (list_conversation_members id) w
            (unfold list_conversation_members in refl)))
        λ members w₁ h₁. publish_others-Ends _ P (or_nobody members) (typing_event id user) w₁ h₁

  typing-Ends :
      {E : Type 0} (P : E → Db → Type 0) (id : Option Uuid) (w : World)
      → Ends (λ _ db'. db' ≡ w.db) P (typing env user id w)
  unfolding typing
  typing-Ends P none w = refl
  typing-Ends P (some id) w =
      and_then-Ends (λ _ db'. db' ≡ w.db) _ P (is_conversation_member id user w) _
        (Ends-weaken _ _ _ _ (is_conversation_member id user w) (λ _ _ k. k.0) (λ _ _ k. k)
          (is_conversation_member-Ends P id user w))
        λ member w₁ h₁.
          Ends-weaken _ _ _ _ (tell_typing env user id member w₁) (λ _ _ k. k ∙ h₁) (λ _ _ k. k)
            (tell_typing-Ends P id member w₁)

  Sends-of_sent :
      (req : ChatMessageRequest) (before : Db) (r : Result ChatError ChatMessageResponse) (db : Db)
      → Found
          (λ msg db'.
            (validate_chat_payload env.unicode_lower req ≡ ok tt)
            × IsListed req.conversation_id user before
            × IsSent user req before msg db')
          (λ _ db'. db' ≡ before)
          r
          db
      → Sends env user before db
  Sends-of_sent req before (ok msg) db h = sends_one req msg h.0 h.1 h.2 quiet
  Sends-of_sent req before (err e) db h = subst (Sends env user before) (sym h) quiet

  on_kind-Ends :
      {E : Type 0} (P : E → Db → Type 0) (types : Bool) (frame : Frame) (w : World)
      → Ends (λ _ db'. Sends env user w.db db') P (on_kind env user types frame w)
  unfolding on_kind
  on_kind-Ends P true frame w =
      and_then-Ends (λ _ db'. db' ≡ w.db) _ P (typing env user (known_id frame.typing_id) w) _
        (typing-Ends P (known_id frame.typing_id) w)
        λ _ w₁ h₁. subst (Sends env user w.db) (sym h₁) quiet
  on_kind-Ends P false frame w = request_Ends (chat_request env user frame.payload)
    where
      request_Ends :
          (r : Result ChatError ChatMessageRequest)
          → Ends (λ _ db'. Sends env user w.db db') P (send_or_refuse env user r w)
      request_Ends (err e) = unfold send_or_refuse in quiet
      request_Ends (ok req) =
          unfold send_or_refuse in
          and_then-Ends _ _ P (observe (create_message env user req) w) _
            (observe-Ends _ _ P (create_message env user req) w
              (create_message-Ends env user req w))
            λ r w₁ h₁. Sends-of_sent req w.db r w₁.db h₁

  set_presence-Ends :
      {E : Type 0} (P : E → Db → Type 0) (Q : Db → Type 0) (w : World)
      → Q w.db
      → Ends (λ _. Q) P (set_presence env user w)
  unfolding set_presence
  set_presence-Ends P Q w h = h

  on_turn-Ends :
      {E : Type 0} (P : E → Db → Type 0) (turn : SocketTurn) (w : World)
      → Ends (λ _ db'. Sends env user w.db db') P (on_turn env user turn w)
  unfolding on_turn on_frame
  on_turn-Ends P (read_frame frame) w = on_kind-Ends P (is_typing frame) frame w
  on_turn-Ends P renew w =
      and_then-Ends (λ _ db'. Sends env user w.db db') _ P (set_presence env user w) _
        (set_presence-Ends P (Sends env user w.db) w quiet) λ _ w₁ h₁. h₁

  read_loop-Ends :
      {E : Type 0} (P : E → Db → Type 0) (turns : List SocketTurn) (w : World)
      → Ends (λ _ db'. Sends env user w.db db') P (read_loop env user turns w)
  unfolding read_loop
  read_loop-Ends P [] w = quiet
  read_loop-Ends P (turn ∷ turns) w =
      and_then-Ends _ _ P (on_turn env user turn w) _ (on_turn-Ends P turn w) λ reply w₁ h₁.
        and_then-Ends (λ _ db'. Sends env user w.db db') _ P (read_loop env user turns w₁) _
          (Ends-weaken _ _ _ _ (read_loop env user turns w₁) (λ _ _ k. Sends-append env user h₁ k)
            (λ _ _ k. k) (read_loop-Ends P turns w₁))
          λ replies w₂ h₂. h₂

  -- Whatever frames a connection reads, whenever its ticker runs and whatever calls of PostgreSQL
  -- or Redis fail meanwhile, the tables change only by a series of messages of its user, each with
  -- an accepted text, to a conversation of which the user is a member at that moment, and stored as
  -- createMessage stores it; the loop over the frames comes to its end.
  pub websocket-Ends :
      (E : Type 0) (turns : List SocketTurn) (late : Bool) (w : World)
      → Ends (λ _ db'. Sends env user w.db db') (λ (_ : E) _. ⊥) (websocket env user turns late w)
  unfolding websocket set_presence delete_presence
  websocket-Ends E turns late w =
      let start : World = (set_presence env user {E = E} w).1 in
      and_then-Ends (λ _ db'. Sends env user w.db db') _ (λ _ _. ⊥) (read_loop env user turns start)
        _ (read_loop-Ends (λ _ _. ⊥) turns start) λ replies w₁ h₁. ended replies w₁ h₁ late
    where
      ended :
          (replies : List Reply) (w₁ : World)
          → Sends env user w.db w₁.db
          → (again : Bool)
          → Ends
              (λ _ db'. Sends env user w.db db')
              (λ (_ : E) _. ⊥)
              ((delete_presence env user {E = E}
                  >> ((if again then set_presence env user {E = E} else pure tt) >> pure replies))
                w₁)
      ended replies w₁ h true = unfold delete_presence in unfold set_presence in h
      ended replies w₁ h false = unfold delete_presence in h
