-- ===== src/Server/Chat/Handler.antt =====
-- POST /v1/conversations/{id}/messages as a whole.
use match_camp.Base.{
  ℕ, String, ◌≡◌, refl, sym, ap, ◌∙◌, inl, inr, not, Option, none, some, List, [], ◌∷◌, arith,
  str_eq, eq_iff, In, ◌==◌, ==_iff, Bool-cases,
}
use match_camp.Database.Models.{Uuid, Db}
use match_camp.Database.Mutual.{IsListed}
use match_camp.Database.Result.{Result, ok, err}
use match_camp.Server.Chat.{
  ChatError, invalid_payload, not_conversation_member, statement_failed, chat_error_code,
  create_message, message_allowed, create_message_http,
}
use match_camp.Server.Chat.Sending.{IsSent, create_message-Ends}
use match_camp.Server.Payload.{
  ChatMessageRequest, Fields, parse_chat_payload_bytes, validate_chat_payload, passed, then_check,
  decode_chat_payload,
}
use match_camp.Server.Response.{
  sent_message, Response, write_json, CurrentUser, lift, parse_route_uuid,
}
use match_camp.Server.Response.Laws.{lift-Ends, parse_route_uuid-Ends}
use match_camp.Text.{Text}
use match_camp.World.Ends.{Ends, and_then-Ends, on_error-Ends, Ends-weaken, raise_if-Ends}
use match_camp.World.Env.{Env, ChatMessageResponse, World}
use match_camp.World.Monad.{raise_if, on_error}

-- What the decoder of the payload answers where it refuses it.
abbrev pub payload_codes : List String
payload_codes =
    "invalid_json" ∷ "chat_payload_text_only" ∷ "invalid_chat_payload"
    ∷ "links_and_media_are_not_allowed" ∷ []

checked-In :
    (table : ℕ → ℕ) (req : ChatMessageRequest) (code : String)
    → validate_chat_payload table req ≡ err code
    → In code payload_codes
unfolding validate_chat_payload
checked-In table req code h = ground arith

parsed-In :
    (parse : Text → Option Uuid) (body : Option Fields) (code : String)
    → parse_chat_payload_bytes parse body ≡ err code
    → In code payload_codes
unfolding parse_chat_payload_bytes
parsed-In parse none code h = ground arith
parsed-In parse (some fields) code h = ground arith

decoded-In :
    (parse : Text → Option Uuid) (table : ℕ → ℕ) (body : Option (Option Fields)) (code : String)
    → decode_chat_payload parse table body ≡ err code
    → In code payload_codes
unfolding decode_chat_payload
decoded-In parse table none code h = ground arith
decoded-In parse table (some body) code h = go (parse_chat_payload_bytes parse body) refl h
  where
    checked :
        (req : ChatMessageRequest) (r : Result String Unit)
        → validate_chat_payload table req ≡ r
        → passed req r ≡ err code
        → In code payload_codes
    checked req (ok u) e k = absurd (cc k)
    checked req (err c) e k = checked-In table req code (e ∙ ground (arith, k))

    go :
        (r : Result String ChatMessageRequest)
        → parse_chat_payload_bytes parse body ≡ r
        → then_check r (validate_chat_payload table) ≡ err code
        → In code payload_codes
    go (err c) e k = parsed-In parse body code (e ∙ k)
    go (ok req) e k = checked req (validate_chat_payload table req) refl k

-- The errors of the endpoint.
abbrev pub message_codes : List String
message_codes =
    "rate_limit_exceeded" ∷ "invalid_uuid" ∷ "conversation_id_mismatch" ∷ "not_conversation_member"
    ∷ "message_create_failed" ∷ payload_codes

chat_error_code-In : (e : ChatError) → In (chat_error_code e) message_codes
chat_error_code-In (invalid_payload code) = elim (Bool-cases (str_eq code "invalid_chat_payload")) [
  | inl same ↦
      let code_is = (eq_iff code "invalid_chat_payload").0 same in
      rw same (inr (inr (inr (inr (inr (inr (inr (inl (sym code_is)))))))))
  | inr differs ↦ rw differs (inr (inr (inr (inr (inl refl)))))
]
chat_error_code-In not_conversation_member = inr (inr (inr (inl refl)))
chat_error_code-In (statement_failed e) = inr (inr (inr (inr (inl refl))))

abbrev pub MessageRefused : Db → String → Db → Type 0
MessageRefused before code after = In code message_codes × (after ≡ before)

-- What a 201 answers.
abbrev pub Posted : Env → Uuid → Text → Option (Option Fields) → Db → Response → Db → Type 0
Posted env sender id_param body before resp after =
    (req : ChatMessageRequest) × (msg : ChatMessageResponse) × (env.uuid_parse id_param
      ≡ some req.conversation_id)
    × (decode_chat_payload env.uuid_parse env.unicode_lower body ≡ ok req)
    × IsListed req.conversation_id sender before
    × (resp ≡ write_json 201 (sent_message msg))
    × IsSent sender req before msg after

-- POST /v1/conversations/{id}/messages answers 201 only to a payload that the decoder accepts,
-- for the conversation of the route, of which the user is a member; the message is stored as
-- createMessage stores it, and is the answer. Any error is one of nine codes and leaves the tables
-- as they were.
pub create_message_http-Ends :
    (env : Env) (user : CurrentUser) (id_param : Text) (body : Option (Option Fields)) (w : World)
    → Ends
        (Posted env user.id id_param body w.db)
        (MessageRefused w.db)
        (create_message_http env user id_param body w)
unfolding create_message_http
create_message_http-Ends env user id_param body w =
    and_then-Ends (λ _ db'. db' ≡ w.db) _ Refusal (message_allowed env user.id w) _
      (unfold message_allowed in refl)
      λ passed w₁ h₁.
        and_then-Ends (λ _ db'. db' ≡ w.db) _ Refusal
          (raise_if (not passed) "rate_limit_exceeded" w₁) _
          (raise_if-Ends _ Refusal (not passed) _ w₁ (λ _. h₁) (inl refl, h₁))
          λ _ w₂ h₂.
            and_then-Ends (λ id db'. (db' ≡ w.db) × (env.uuid_parse id_param ≡ some id)) _ Refusal
              (parse_route_uuid env.uuid_parse id_param w₂) _
              (Ends-weaken _ _ _ _ (parse_route_uuid env.uuid_parse id_param w₂)
                (λ id db' k. (k.0 ∙ h₂, k.1)) (λ _ _ k. k)
                (parse_route_uuid-Ends Refusal env.uuid_parse id_param w₂ (inr (inl refl), h₂)))
              λ id w₃ h₃.
                and_then-Ends
                  (λ req db'.
                    (db' ≡ w.db)
                    × (decode_chat_payload env.uuid_parse env.unicode_lower body ≡ ok req))
                  _ Refusal (lift (decode_chat_payload env.uuid_parse env.unicode_lower body) w₃) _
                  (Ends-weaken _ _ _ _
                    (lift (decode_chat_payload env.uuid_parse env.unicode_lower body) w₃)
                    (λ req db' k. (k.0 ∙ h₃.0, k.1)) (λ _ _ k. k)
                    (lift-Ends Refusal (decode_chat_payload env.uuid_parse env.unicode_lower body)
                      w₃ (λ code e. (decode_code code e, h₃.0))))
                  λ req w₄ h₄.
                    and_then-Ends (λ _ db'. (db' ≡ w.db) × (req.conversation_id ≡ id)) _ Refusal
                      (raise_if (not (req.conversation_id == id)) "conversation_id_mismatch" w₄) _
                      (raise_if-Ends _ Refusal (not (req.conversation_id == id)) _ w₄
                        (λ same. (h₄.0, (==_iff req.conversation_id id).0 (ground (arith, same))))
                        (inr (inr (inl refl)), h₄.0))
                      λ _ w₅ h₅.
                        and_then-Ends
                          (λ msg db'.
                            IsListed req.conversation_id user.id w.db
                            × IsSent user.id req w.db msg db')
                          _ Refusal (on_error (create_message env user.id req) chat_error_code w₅) _
                          (on_error-Ends _ Refusal (create_message env user.id req) chat_error_code
                            w₅
                            (Ends-weaken _ _ _ _ (create_message env user.id req w₅)
                              (λ msg db' k. (rw h₅.0 at k.1, rw h₅.0 at k.2))
                              (λ e db' k. (chat_error_code-In e, k ∙ h₅.0))
                              (create_message-Ends env user.id req w₅)))
                          λ msg w₆ h₆. (req, msg, h₃.1 ∙ ap some (sym h₅.1), h₄.1, h₆.0, refl, h₆.1)
  where
    Refusal : String → Db → Type 0
    Refusal = MessageRefused w.db

    decode_code :
        (code : String)
        → decode_chat_payload env.uuid_parse env.unicode_lower body ≡ err code
        → In code message_codes
    decode_code code e =
        inr (inr (inr (inr (inr (decoded-In env.uuid_parse env.unicode_lower body code e)))))
