-- ===== src/Database/Auth.antt =====
-- internal/database/db/auth.sql.go: users, Google identities and sessions.
use mathlib.Core.Option
use match_camp.Base.{
  Bool, false, not, ◌&&◌, ◌||◌, Option, none, some, [], ◌∷◌, str_eq, any, filter, find?, ltb, ◌==◌,
  if◌then◌else◌,
}
use match_camp.Database.Models.{Uuid, Time, User, AuthIdentity, Session, Db, has_user}
use match_camp.Database.Result.{no_rows, unique_violation, failed, ok, err, Query}
use match_camp.Text.{Text, text_eq}

pub record UserRow : Type 0 where
  pub id : Uuid
  pub email : Text
  pub display_name : Text

pub record UserForLoginRow : Type 0 where
  pub id : Uuid
  pub email : Text
  pub display_name : Text
  pub password_hash : Option Text

abbrev pub user_row : User → UserRow
user_row u = record { id = u.id; email = u.email; display_name = u.display_name }

-- CHECK (position('@' in email) > 1)
unfoldable pub email_check : Text → Bool
email_check [] = false
email_check (c ∷ s) = not (c == b'@') && any (λ d. d == b'@') s

abbrev pub has_email : Text → User → Bool
has_email email u = text_eq u.email email

abbrev pub new_user : Uuid → Text → Text → Option Text → Db → User
new_user id email name hash db = record {
  id = id;
  email = email;
  display_name = name;
  password_hash = hash;
  created_at = db.now;
  updated_at = db.now;
}

abbrev pub insert_user : Uuid → Text → Text → Option Text → Query UserRow
insert_user id email name hash db =
    let u = new_user id email name hash db in ok (user_row u, record db { users = u ∷ db.users })

-- CreatePasswordUser
unfoldable pub create_password_user : Uuid → Text → Text → Option Text → Query UserRow
create_password_user id email name hash db =
    if not (email_check email)
    then err failed
    else if any (λ u. u.id == id || has_email email u) db.users
    then err unique_violation
    else insert_user id email name hash db

abbrev pub one_row : {A : Type 0} → Option A → Query A
one_row none db = err no_rows
one_row (some a) db = ok (a, db)

abbrev pub login_row_of : User → UserForLoginRow
login_row_of u = record {
  id = u.id;
  email = u.email;
  display_name = u.display_name;
  password_hash = u.password_hash;
}

-- GetUserForLogin
unfoldable pub get_user_for_login : Text → Query UserForLoginRow
get_user_for_login email db =
    one_row (Option.map login_row_of (find? (has_email email) db.users)) db

abbrev pub has_token : Text → Session → Bool
has_token hash s = text_eq s.token_hash hash

-- CreateSession
unfoldable pub create_session_row : Uuid → Uuid → Text → Time → Query (Unit {0})
create_session_row id user_id hash expires_at db =
    if any (λ s. s.id == id || has_token hash s) db.sessions
    then err unique_violation
    else if not (has_user user_id db)
    then err failed
    else ok (
      tt,
      record db {
        sessions =
            record {
              id = id;
              user_id = user_id;
              token_hash = hash;
              expires_at = expires_at;
              created_at = db.now;
            }
            ∷ db.sessions;
      },
    )

-- DeleteSessionByTokenHash
unfoldable pub delete_session_by_token_hash : Text → Query (Unit {0})
delete_session_by_token_hash hash db =
    ok (tt, record db { sessions = filter (λ s. not (has_token hash s)) db.sessions })

-- JOIN users u ON u.id = user_id
abbrev pub join_user : Option Uuid → Db → Option UserRow
join_user none db = none
join_user (some id) db = Option.map user_row (find? (λ u. u.id == id) db.users)

abbrev pub is_live : Text → Db → Session → Bool
is_live hash db s = has_token hash s && ltb db.now s.expires_at

-- GetUserBySessionTokenHash
unfoldable pub get_user_by_session_token_hash : Text → Query UserRow
get_user_by_session_token_hash hash db =
    one_row
      (join_user (Option.map (λ (s : Session). s.user_id) (find? (is_live hash db) db.sessions)) db)
      db

abbrev pub is_google : Text → AuthIdentity → Bool
is_google subject ai = str_eq ai.provider "google" && text_eq ai.provider_subject subject

-- GetGoogleUserBySubject
unfoldable pub get_google_user_by_subject : Text → Query UserRow
get_google_user_by_subject subject db =
    one_row
      (join_user
        (Option.map (λ (ai : AuthIdentity). ai.user_id)
          (find? (is_google subject) db.auth_identities))
        db)
      db

-- UpsertGoogleUserByEmail: an email that is taken keeps its user, and the user its name.
unfoldable pub upsert_google_user_by_email : Uuid → Text → Text → Query UserRow
upsert_google_user_by_email id email name db =
    if not (email_check email) then err failed else elim (find? (has_email email) db.users) [
      | some u ↦ ok (user_row u, db)
      | none ↦
          if any (λ (u : User). u.id == id) db.users
          then err unique_violation
          else insert_user id email name none db
    ]

-- LinkGoogleIdentity: ON CONFLICT (provider, provider_subject) DO NOTHING
unfoldable pub link_google_identity : Uuid → Uuid → Text → Text → Query (Unit {0})
link_google_identity id user_id subject email db =
    if any (is_google subject) db.auth_identities
    then ok (tt, db)
    else if any (λ ai. ai.id == id) db.auth_identities
    then err unique_violation
    else if not (has_user user_id db)
    then err failed
    else ok (
      tt,
      record db {
        auth_identities =
            record {
              id = id;
              user_id = user_id;
              provider = "google";
              provider_subject = subject;
              email = email;
              created_at = db.now;
            }
            ∷ db.auth_identities;
      },
    )
