-- ===== src/Server/Google.antt =====
-- internal/server/server.go: signing in with Google.
pub mod Accounts
pub mod Callback
use match_camp.Base.{
  ℕ, String, Bool, true, false, not, ◌&&◌, ◌||◌, Option, none, some, List, [], ◌∷◌, if◌then◌else◌,
}
use match_camp.Database.Auth.{
  UserRow, get_google_user_by_subject, upsert_google_user_by_email, link_google_identity,
}
use match_camp.Database.Result.{DbError, no_rows, unique_violation, failed, Result, ok, err}
use match_camp.Server.Auth.{
  Request, email_allowed, cookie_value, current_user, new_session_token, create_session,
}
use match_camp.Server.Payload.{is_empty}
use match_camp.Server.Response.{
  Lifetime, for_seconds, removed, Cookie, user_session, Response, CurrentUser, or_error, lift,
}
use match_camp.Text.{Text, text_eq, trim_space, to_lower, split}
use match_camp.World.Env.{Env, Server}
use match_camp.World.Monad.{
  M, ◌>>=◌, ◌>>◌, pure, raise, raise_if, on_error, run_query, run_insert, transaction, observe,
}

-- what the endpoint `userinfo` of Google answers for a code: the JSON fields that are read
pub record GoogleAnswer : Type 0 where
  pub sub : Text
  pub answered_email : Text
  pub email_verified : Bool
  pub answered_name : Text

-- googleProfile
pub record GoogleProfile : Type 0 where
  pub subject : Text
  pub email : Text
  pub verified : Bool
  pub name : Text

abbrev pub oauth_state_cookie_name : String
oauth_state_cookie_name = "matchcamp_oauth_state"

-- fetchGoogleProfile, from the answer on
unfoldable pub read_answer : (ℕ → ℕ) → Option GoogleAnswer → Option GoogleProfile
read_answer unicode_lower none = none
read_answer unicode_lower (some raw) =
    if is_empty raw.sub || is_empty raw.answered_email
    then none
    else some (record {
      subject = raw.sub;
      email = to_lower unicode_lower raw.answered_email;
      verified = raw.email_verified;
      name = trim_space raw.answered_name;
    })

-- strings.Split(email, "@")[0]
abbrev pub first_part : List Text → Text
first_part [] = []
first_part (p ∷ ps) = p

unfoldable pub display_name_of : GoogleProfile → Text
display_name_of profile =
    if is_empty profile.name then first_part (split b'@' profile.email) else profile.name

-- the state of the request is that of the cookie, and not empty
abbrev pub state_matches : Option Text → Text → Bool
state_matches none state = false
state_matches (some cookie) state = not (is_empty cookie) && text_eq cookie state

abbrev pub state_cookie : Server → Text → Lifetime → Cookie
state_cookie srv value lifetime = record {
  name = oauth_state_cookie_name;
  value = value;
  lifetime = lifetime;
  http_only = true;
  secure = srv.session_cookie_secure;
}

abbrev pub google_response : Server → CurrentUser → Text × Cookie → Response
google_response srv user (token, cookie) = record {
  status = 200;
  body = user_session user.id user.email user.name token;
  cookies = cookie ∷ state_cookie srv [] removed ∷ [];
}

module _ (env : Env) (srv : Server) where
  -- the user of the email, and the link of the subject to the user
  unfoldable pub create_and_link : GoogleProfile → M DbError CurrentUser
  create_and_link profile = do
    created ←
        run_insert env.gen_random_uuid
          (λ id. upsert_google_user_by_email id profile.email (display_name_of profile))
    run_insert env.gen_random_uuid
        (λ id. link_google_identity id created.id profile.subject profile.email)
    pure (current_user created)

  unfoldable pub known_or_created : GoogleProfile → Result DbError UserRow → M DbError CurrentUser
  known_or_created profile (ok row) = pure (current_user row)
  known_or_created profile (err no_rows) = create_and_link profile
  known_or_created profile (err unique_violation) = raise unique_violation
  known_or_created profile (err failed) = raise failed

  unfoldable pub google_statements : GoogleProfile → M DbError CurrentUser
  google_statements profile = do
    row ← observe (run_query (get_google_user_by_subject profile.subject))
    known_or_created profile row

  -- upsertGoogleUser
  unfoldable pub upsert_google_user : GoogleProfile → M DbError CurrentUser
  upsert_google_user profile = transaction (google_statements profile)

  -- GET /v1/auth/google/start: the URL of Google is `authorize` of the state.
  unfoldable pub google_start : (Text → Text) → M String (Text × Cookie)
  google_start authorize = do
    raise_if (is_empty srv.google_client_id || is_empty srv.google_redirect_url)
        "google_oauth_not_configured"
    state ← on_error (new_session_token env srv) (λ _. "oauth_state_failed")
    pure (authorize state, state_cookie srv state (for_seconds 600))

  -- googleCallback, from the test of the address on
  unfoldable pub sign_in : GoogleProfile → M String Response
  sign_in profile = do
    raise_if (not profile.verified) "google_email_not_verified"
    raise_if (not (email_allowed env.unicode_lower srv.allowed_domains profile.email))
        "email_domain_not_allowed"
    user ← on_error (upsert_google_user profile) (λ _. "google_user_save_failed")
    session ← on_error (create_session env srv user.id) (λ _. "session_create_failed")
    pure (google_response srv user session)

  -- GET /v1/auth/google/callback: `google` is what Google answers for a code, `none` for any
  -- failure on the way.
  unfoldable pub google_callback :
      (Text → Option GoogleAnswer) → Request → Text → Text → M String Response
  google_callback google r state code = do
    raise_if (not (state_matches (cookie_value oauth_state_cookie_name r.cookies) state))
        "invalid_oauth_state"
    raise_if (is_empty code) "missing_oauth_code"
    profile ← lift (or_error (read_answer env.unicode_lower (google code)) "google_oauth_failed")
    sign_in profile
