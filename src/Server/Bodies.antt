-- ===== src/Server/Bodies.antt =====
-- internal/server/server.go: the JSON objects of the responses on profiles, photos and partners.
use match_camp.Base.{ℕ, Bool, Option, List, ℤ}
use match_camp.Database.Models.{Uuid, Time, ProfilePhoto}
use match_camp.Text.{Text}

pub record PhotoPayload : Type 0 where
  pub id : Uuid
  pub user_id : Uuid
  pub url : Text
  pub position : ℕ
  pub created_at : Time

-- profilePhotoResponse
abbrev pub profile_photo_response : ProfilePhoto → PhotoPayload
profile_photo_response p = record {
  id = p.id;
  user_id = p.user_id;
  url = p.url;
  position = p.position;
  created_at = p.created_at;
}

-- the object of `me`
pub record MyProfileBody : Type 0 where
  pub id : Uuid
  pub email : Text
  pub display_name : Text
  pub bio : Text
  pub course : Text
  pub campus : Text
  pub age : Option ℤ
  pub visible : Bool
  pub photos : List PhotoPayload

-- an object of `discovery`
pub record ProfileBody : Type 0 where
  pub id : Uuid
  pub display_name : Text
  pub age : Option ℤ
  pub bio : Text
  pub course : Text
  pub campus : Text
  pub photos : List PhotoPayload

-- the photos of `publicProfile` show less
pub record PublicPhoto : Type 0 where
  pub id : Uuid
  pub url : Text
  pub position : ℕ

abbrev pub public_photo : ProfilePhoto → PublicPhoto
public_photo p = record { id = p.id; url = p.url; position = p.position }

pub record PublicProfileBody : Type 0 where
  pub id : Uuid
  pub display_name : Text
  pub age : Option ℤ
  pub bio : Text
  pub course : Text
  pub campus : Text
  pub photos : List PublicPhoto

pub record PartnerBody : Type 0 where
  pub id : Uuid
  pub display_name : Text
  pub age : Option ℤ
  pub photo_url : Option Text

pub record LastMessage : Type 0 where
  pub text : Text
  pub created_at : Time
  pub from_me : Bool

-- an item of `matches`
pub record MatchItem : Type 0 where
  pub match_id : Uuid
  pub conversation_id : Uuid
  pub created_at : Time
  pub partner : PartnerBody
  pub last_message : Option LastMessage

-- an item of `conversations`
pub record ConversationItem : Type 0 where
  pub conversation_id : Uuid
  pub match_id : Uuid
  pub created_at : Time
  pub partner : PartnerBody
  pub online : Bool
  pub last_message : Option LastMessage
  pub unread_count : ℕ
