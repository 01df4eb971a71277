-- ===== src/Server/Response.antt =====
-- internal/server/server.go: responses, errors, and what the handlers share.
pub mod Laws
use Prim.Native.Nat.{Ordering}
use Prim.Native.String.{compare}
use match_camp.Base.{ℕ, String, Bool, true, false, Option, none, some, List, [], ◌∷◌, ℤ}
use match_camp.Apperror.{ErrorBody, lookup}
use match_camp.Database.Models.{Uuid, Time}
use match_camp.Database.Result.{DbError, no_rows, unique_violation, Result, ok, err}
use match_camp.Server.Bodies.{
  PhotoPayload, MyProfileBody, ProfileBody, PublicProfileBody, MatchItem, ConversationItem,
}
use match_camp.Text.{Text}
use match_camp.World.Env.{ChatMessageResponse, World}
use match_camp.World.Monad.{M, pure, raise}

-- What a handler writes: a status, a JSON body, and the cookies that it sets.
pub data Lifetime : Type 0 where
  until : Time → Lifetime
  for_seconds : ℕ → Lifetime
  removed : Lifetime

pub record Cookie : Type 0 where
  pub name : String
  pub value : Text
  pub lifetime : Lifetime
  pub http_only : Bool
  pub secure : Bool

pub data Body : Type 0 where
  no_body : Body
  error_body : ErrorBody → Body
  user_session : Uuid → Text → Text → Text → Body
  swipe_result : Bool → Uuid → Uuid → Body
  sent_message : ChatMessageResponse → Body
  message_list : List ChatMessageResponse → Body
  saved_status : Body
  my_profile : MyProfileBody → Body
  public_profile_body : PublicProfileBody → Body
  visibility : Bool → Body
  preferences : String → ℤ → ℤ → Body
  one_photo : PhotoPayload → Body
  photo_list : List PhotoPayload → Body
  profile_list : List ProfileBody → Body
  match_list : List MatchItem → Body
  conversation_list : List ConversationItem → Body

pub record Response : Type 0 where
  pub status : ℕ
  pub body : Body
  pub cookies : List Cookie

-- writeJSON
abbrev pub write_json : ℕ → Body → Response
write_json status body = record { status = status; body = body; cookies = [] }

-- writeError
unfoldable pub write_error : String → String → Response
write_error request_id code =
    let def = lookup code in
    write_json def.status
      (error_body (record { code = def.code; message = def.message; request_id = request_id }))

-- What the client gets from a handler that ends in a response, or in the code of an error.
abbrev pub written : String → Result String Response × World → Response × World
written request_id (ok r, w) = (r, w)
written request_id (err code, w) = (write_error request_id code, w)

unfoldable pub serve : String → M String Response → World → Response × World
unfolding write_error
serve request_id handler w = written request_id (handler w)

-- currentUser
pub record CurrentUser : Type 0 where
  pub id : Uuid
  pub email : Text
  pub name : Text

-- isUniqueViolation
abbrev pub is_unique_violation : DbError → Bool
is_unique_violation unique_violation = true
is_unique_violation _ = false

-- errors.Is(err, pgx.ErrNoRows)
abbrev pub is_no_rows : DbError → Bool
is_no_rows no_rows = true
is_no_rows _ = false

-- decodeJSON: what the decoder made of the body, or `none` where it refused it
unfoldable pub decode_json : {A : Type 0} → Option A → M String A
decode_json none = raise "invalid_json"
decode_json (some a) = pure a

-- normalizePair
unfoldable pub normalize_pair : (Uuid → String) → Uuid → Uuid → Uuid × Uuid
normalize_pair uuid_string a b = elim (compare (uuid_string a) (uuid_string b)) [
  | Ordering.lt ↦ (a, b)
  | _ ↦ (b, a)
]

-- nilIfEmpty
unfoldable pub nil_if_empty : Text → Option Text
nil_if_empty [] = none
nil_if_empty (c ∷ s) = some (c ∷ s)

abbrev pub or_error : {A : Type 0} → Option A → String → Result String A
or_error none code = err code
or_error (some a) code = ok a

-- The answer of a validator, as the error of a handler.
unfoldable pub lift : {A : Type 0} → Result String A → M String A
lift (ok a) = pure a
lift (err code) = raise code

-- parseRouteUUID
unfoldable pub parse_route_uuid : (Text → Option Uuid) → Text → M String Uuid
parse_route_uuid parse param = lift (or_error (parse param) "invalid_uuid")
