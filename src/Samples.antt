-- ===== src/Samples.antt =====
-- Concrete data on which the theorems are applied.
use match_camp.Base.{ℕ, ◌+◌, true, none, some, [], ◌∷◌, length, ltb, ◌==◌, if◌then◌else◌}
use match_camp.Database.Models.{User, Db}
use match_camp.Ratelimit.{new_keyed_limiter}
use match_camp.Server.Auth.{Request}
use match_camp.Server.Payload.{ChatMessageRequest}
use match_camp.Server.Response.{CurrentUser}
use match_camp.Storage.{ObjectStore}
use match_camp.Text.{Text, codes, text_eq}
use match_camp.World.Env.{Env, Server, World}

-- An environment: identity hashes, UUIDs drawn from 100 on, limiters that always allow.
abbrev pub sample_env : Env
sample_env = record {
  gen_random_uuid = λ n. 100 + n;
  uuid_string = λ id. if id == 1 then "01" else if id == 2 then "02" else "03";
  uuid_parse = λ t. if text_eq t (codes "70") then some 70 else none;
  unicode_lower = λ c. c;
  bcrypt_generate = λ salt password. some password;
  bcrypt_compare = text_eq;
  sha256_hex = λ t. t;
  random_token = λ n. some (n ∷ []);
  random_hex = λ n. some (n ∷ []);
  local_date = λ t. record { year = 2026; month = 2; day = 28 };
  db_date = λ t. record { year = 2026; month = 2; day = 28 };
  rate_allows = λ r b calls now. ltb (length calls) b;
}

abbrev pub sample_user : ℕ → Text → User
sample_user id email = record {
  id = id;
  email = email;
  display_name = codes "Ana";
  password_hash = some (codes "senha1234");
  created_at = 0;
  updated_at = 0;
}

-- User 2 has liked user 1.
abbrev pub sample_tables : Db
sample_tables = record {
  now = 10;
  users = sample_user 1 (codes "ana@uni.br") ∷ sample_user 2 (codes "bia@uni.br") ∷ [];
  auth_identities = [];
  sessions = [];
  profiles = [];
  profile_photos = [];
  profile_preferences = [];
  swipes =
      record { id = 50; actor_user_id = 2; target_user_id = 1; action = "like"; created_at = 5 }
      ∷ [];
  matches = [];
  conversations = [];
  conversation_members = [];
  messages = [];
  blocks = [];
}

abbrev pub sample_world : World
sample_world = record {
  db = sample_tables;
  faults = [];
  clock = 10;
  drawn = 0;
  published = [];
  objects = [];
  store_faults = [];
  redis_faults = [];
  online = [];
  register_limiter = new_keyed_limiter 12 10;
  login_limiter = new_keyed_limiter 6 20;
  swipe_limiter = new_keyed_limiter 1 60;
  message_limiter = new_keyed_limiter 2 60;
}

abbrev pub sample_ana : CurrentUser
sample_ana = record { id = 1; email = codes "ana@uni.br"; name = codes "Ana" }

abbrev pub paired_tables : Db
paired_tables = record sample_tables {
  swipes =
      record { id = 51; actor_user_id = 1; target_user_id = 2; action = "like"; created_at = 6 }
      ∷ sample_tables.swipes;
  matches = record { id = 60; user_low_id = 1; user_high_id = 2; created_at = 6 } ∷ [];
  conversations = record { id = 70; match_id = 60; created_at = 6; last_message_at = none } ∷ [];
  conversation_members =
      record { conversation_id = 70; user_id = 2; created_at = 6 }
      ∷ record { conversation_id = 70; user_id = 1; created_at = 6 }
      ∷ [];
}

abbrev pub greeting : ChatMessageRequest
greeting = record { conversation_id = 70; text = codes " oi " }

abbrev pub paired_world : World
paired_world = record sample_world { db = paired_tables }

-- A store whose objects stand under their keys.
abbrev pub sample_store : ObjectStore
sample_store = record { place = some; url = λ key. key; key_from_url = some }

abbrev pub sample_server : Server
sample_server = record {
  session_cookie_name = "matchcamp_session";
  session_cookie_secure = true;
  allowed_domains = codes "uni.br" ∷ [];
  allowed_origins = [];
  google_client_id = [];
  google_redirect_url = [];
  max_profile_photo_bytes = 8;
  storage = sample_store;
}

-- A request with the token "t" in its cookie, and one with the token as a bearer.
abbrev pub cookie_request : Request
cookie_request = record {
  remote_ip = "10.0.0.1";
  cookies = ("matchcamp_session", codes "t") ∷ [];
  authorization = [];
}

abbrev pub bearer_request : Request
bearer_request = record { remote_ip = "10.0.0.1"; cookies = []; authorization = codes "Bearer t" }

-- User 1 has a session with the token "t" until 99.
abbrev pub session_world : World
session_world = record sample_world {
  db = record sample_tables {
    sessions =
        record { id = 80; user_id = 1; token_hash = codes "t"; expires_at = 99; created_at = 1 }
        ∷ [];
  };
}
