-- ===== src/World/Env.antt =====
-- The packages that the server calls, as functions, and the settings of `type Server`.
use match_camp.Base.{ℕ, String, Bool, Option, List}
use match_camp.Database.Models.{Uuid, Time, Date, Db}
use match_camp.Ratelimit.{Allows, KeyedLimiter}
use match_camp.Storage.{ObjectStore}
use match_camp.Text.{Text}

pub record Env : Type 0 where
  -- gen_random_uuid() of PostgreSQL, at its n-th draw
  pub gen_random_uuid : ℕ → Uuid
  -- google/uuid: `String` and `Parse`
  pub uuid_string : Uuid → String
  pub uuid_parse : Text → Option Uuid
  -- unicode.ToLower beyond ASCII
  pub unicode_lower : ℕ → ℕ
  -- bcrypt.GenerateFromPassword with the n-th salt, and whether CompareHashAndPassword is nil
  pub bcrypt_generate : ℕ → Text → Option Text
  pub bcrypt_compare : Text → Text → Bool
  -- sha256 of a text, in hexadecimal
  pub sha256_hex : Text → Text
  -- rand.Read of 32 bytes in unpadded base64, at the n-th draw
  pub random_token : ℕ → Option Text
  -- rand.Read of 16 bytes in hexadecimal, at the n-th draw
  pub random_hex : ℕ → Option Text
  -- the dates of an instant: in Go's time.Local, and in the time zone of PostgreSQL
  pub local_date : Time → Date
  pub db_date : Time → Date
  -- rate.Limiter
  pub rate_allows : Allows

-- `type Server`: what New fixes once
pub record Server : Type 0 where
  pub session_cookie_name : String
  pub session_cookie_secure : Bool
  pub allowed_domains : List Text
  pub allowed_origins : List Text
  pub google_client_id : Text
  pub google_redirect_url : Text
  pub max_profile_photo_bytes : ℕ
  pub storage : ObjectStore

-- The payload of a message on the channel "user:<id>".
pub record Partner : Type 0 where
  pub id : Uuid
  pub display_name : Text
  pub photo_url : Option Text

pub record ChatMessageResponse : Type 0 where
  pub id : Uuid
  pub conversation_id : Uuid
  pub sender_user_id : Uuid
  pub text : Text
  pub is_read : Bool
  pub created_at : Time

pub data Event : Type 0 where
  match_event : Uuid → Uuid → Partner → Event
  message_event : ChatMessageResponse → Event
  typing_event : Uuid → Uuid → Event

-- `faults` says of each coming round trip to PostgreSQL whether the connection fails; where the
-- list ends, none fails; `store_faults` says the same of the calls of the object store, whose objects
-- stand under the places that their keys name, and `redis_faults` of those of Redis. `online` holds
-- the users with the key "presence:<id>" in Redis, each with the time of its expiry. `published`
-- holds what went out through Redis, the last first.
pub record World : Type 0 where
  pub db : Db
  pub faults : List Bool
  pub clock : Time
  pub drawn : ℕ
  pub published : List (Uuid × Event)
  pub objects : List (Text × List ℕ)
  pub store_faults : List Bool
  pub redis_faults : List Bool
  pub online : List (Uuid × Time)
  pub register_limiter : KeyedLimiter
  pub login_limiter : KeyedLimiter
  pub swipe_limiter : KeyedLimiter
  pub message_limiter : KeyedLimiter
