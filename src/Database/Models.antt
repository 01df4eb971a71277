-- ===== src/Database/Models.antt =====
-- internal/database/db/models.go: the rows, and the database that holds them.
-- A UUID is the 128-bit number that it stands for; PostgreSQL orders UUIDs as those numbers.
-- A time stamp counts from a fixed instant; a column that may be NULL is an Option.
use match_camp.Base.{ℕ, String, Bool, Option, List, any, ◌==◌}
use match_camp.Text.{Text}

abbrev pub Uuid : Type 0
Uuid = ℕ

abbrev pub uuid_nil : Uuid
uuid_nil = 0

abbrev pub Time : Type 0
Time = ℕ

pub record Date : Type 0 where
  pub year : ℕ
  pub month : ℕ
  pub day : ℕ

pub record User : Type 0 where
  pub id : Uuid
  pub email : Text
  pub display_name : Text
  pub password_hash : Option Text
  pub created_at : Time
  pub updated_at : Time

pub record AuthIdentity : Type 0 where
  pub id : Uuid
  pub user_id : Uuid
  pub provider : String
  pub provider_subject : Text
  pub email : Text
  pub created_at : Time

pub record Session : Type 0 where
  pub id : Uuid
  pub user_id : Uuid
  pub token_hash : Text
  pub expires_at : Time
  pub created_at : Time

pub record Profile : Type 0 where
  pub user_id : Uuid
  pub bio : Text
  pub course : Text
  pub campus : Text
  pub birth_date : Option Date
  pub visible : Bool
  pub created_at : Time
  pub updated_at : Time

pub record ProfilePhoto : Type 0 where
  pub id : Uuid
  pub user_id : Uuid
  pub url : Text
  pub position : ℕ
  pub created_at : Time

pub record ProfilePreference : Type 0 where
  pub user_id : Uuid
  pub interested_in : String
  pub min_age : ℕ
  pub max_age : ℕ
  pub updated_at : Time

pub record Swipe : Type 0 where
  pub id : Uuid
  pub actor_user_id : Uuid
  pub target_user_id : Uuid
  pub action : String
  pub created_at : Time

pub record Match : Type 0 where
  pub id : Uuid
  pub user_low_id : Uuid
  pub user_high_id : Uuid
  pub created_at : Time

pub record Conversation : Type 0 where
  pub id : Uuid
  pub match_id : Uuid
  pub created_at : Time
  pub last_message_at : Option Time

pub record ConversationMember : Type 0 where
  pub conversation_id : Uuid
  pub user_id : Uuid
  pub created_at : Time

pub record Message : Type 0 where
  pub id : Uuid
  pub conversation_id : Uuid
  pub sender_user_id : Uuid
  pub body : Text
  pub created_at : Time
  pub is_read : Bool

pub record Block : Type 0 where
  pub blocker_id : Uuid
  pub blocked_id : Uuid
  pub created_at : Time

-- The tables; the row that was inserted last stands first. `now` is the database's clock.
pub record Db : Type 0 where
  pub now : Time
  pub users : List User
  pub auth_identities : List AuthIdentity
  pub sessions : List Session
  pub profiles : List Profile
  pub profile_photos : List ProfilePhoto
  pub profile_preferences : List ProfilePreference
  pub swipes : List Swipe
  pub matches : List Match
  pub conversations : List Conversation
  pub conversation_members : List ConversationMember
  pub messages : List Message
  pub blocks : List Block

abbrev pub has_user : Uuid → Db → Bool
has_user id db = any (λ u. u.id == id) db.users
