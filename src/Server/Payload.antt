-- ===== src/Server/Payload.antt =====
-- internal/server/server.go: `parseChatPayloadBytes`, `validateChatPayload`, `decodeChatPayload`.
pub mod Laws
use match_camp.Base.{
  ℕ, String, Bool, true, false, not, ◌&&◌, ◌||◌, Option, none, some, List, [], ◌∷◌, str_eq, length,
  any, ltb, ◌==◌, if◌then◌else◌,
}
use match_camp.Database.Models.{Uuid, uuid_nil}
use match_camp.Database.Result.{Result, ok, err}
use match_camp.Server.Response.{or_error}
use match_camp.Text.{Text, codes, trim_space, to_lower, contains}

pub record ChatMessageRequest : Type 0 where
  pub conversation_id : Uuid
  pub text : Text

-- A value of a JSON object, as far as the two fields of the request tell values apart.
pub data JsonValue : Type 0 where
  null_value : JsonValue
  string_value : Text → JsonValue
  other_value : JsonValue

abbrev pub Fields : Type 0
Fields = List (String × JsonValue)

-- json.Unmarshal into `conversation_id` and into `text`; null leaves a field alone.
abbrev pub read_id :
    (Text → Option Uuid) → JsonValue → ChatMessageRequest → Option ChatMessageRequest
read_id parse null_value req = some req
read_id parse (string_value s) req = elim (parse s) [
  | none ↦ none
  | some id ↦ some (record req { conversation_id = id })
]
read_id parse other_value req = none

abbrev pub read_text : JsonValue → ChatMessageRequest → Option ChatMessageRequest
read_text null_value req = some req
read_text (string_value s) req = some (record req { text = s })
read_text other_value req = none

abbrev pub read_field :
    (Text → Option Uuid) → String → JsonValue → ChatMessageRequest → Option ChatMessageRequest
read_field parse key v req =
    if str_eq key "conversation_id"
    then read_id parse v req
    else if str_eq key "text"
    then read_text v req
    else some req

abbrev pub bind_option : {A B : Type 0} → Option A → (A → Option B) → Option B
bind_option none f = none
bind_option (some a) f = f a

unfoldable pub read_fields :
    (Text → Option Uuid) → Fields → ChatMessageRequest → Option ChatMessageRequest
read_fields parse [] req = some req
read_fields parse ((key, v) ∷ fields) req =
    bind_option (read_field parse key v req) (read_fields parse fields)

abbrev pub zero_request : ChatMessageRequest
zero_request = record { conversation_id = uuid_nil; text = [] }

abbrev pub unknown_key : String × JsonValue → Bool
unknown_key (key, _) = not (str_eq key "conversation_id") && not (str_eq key "text")

-- parseChatPayloadBytes: the fields of the object, or `none` where the bytes are no JSON object
unfoldable pub parse_chat_payload_bytes :
    (Text → Option Uuid) → Option Fields → Result String ChatMessageRequest
parse_chat_payload_bytes parse none = err "invalid_json"
parse_chat_payload_bytes parse (some fields) =
    if any unknown_key fields
    then err "chat_payload_text_only"
    else or_error (read_fields parse fields zero_request) "invalid_chat_payload"

unfoldable pub has_link : Text → Bool
has_link lower =
    contains lower (codes "http://")
    || contains lower (codes "https://")
    || contains lower (codes "data:")

abbrev pub is_empty : Text → Bool
is_empty [] = true
is_empty (c ∷ s) = false

-- validateChatPayload
unfoldable pub validate_chat_payload : (ℕ → ℕ) → ChatMessageRequest → Result String (Unit {0})
validate_chat_payload table req =
    let text = trim_space req.text in
    if req.conversation_id == uuid_nil || is_empty text || ltb 1000 (length text)
    then err "invalid_chat_payload"
    else if has_link (to_lower table text)
    then err "links_and_media_are_not_allowed"
    else ok tt

abbrev pub passed : {A : Type 0} → A → Result String (Unit {0}) → Result String A
passed a (ok _) = ok a
passed a (err code) = err code

abbrev pub then_check :
    {A : Type 0} → Result String A → (A → Result String (Unit {0})) → Result String A
then_check (err code) check = err code
then_check (ok a) check = passed a (check a)

-- decodeChatPayload; `none` for the whole body is a body that could not be read
unfoldable pub decode_chat_payload :
    (Text → Option Uuid) → (ℕ → ℕ) → Option (Option Fields) → Result String ChatMessageRequest
decode_chat_payload parse table none = err "invalid_chat_payload"
decode_chat_payload parse table (some body) =
    then_check (parse_chat_payload_bytes parse body) (validate_chat_payload table)
