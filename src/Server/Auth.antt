-- ===== src/Server/Auth.antt =====
-- internal/server/server.go: registration, login, logout and sessions, with internal/auth.
pub mod Tokens
pub mod Lifecycle
pub mod Opening
pub mod Login
pub mod Account
pub mod Registration
pub mod Domains
use match_camp.Base.{
  ℕ, ◌+◌, ◌*◌, ◌/◌, String, Bool, true, false, not, ◌||◌, Option, none, some, List, [], ◌∷◌, str_eq,
  ltb, if◌then◌else◌,
}
use match_camp.Database.Auth.{
  UserRow, UserForLoginRow, create_password_user, get_user_for_login, create_session_row,
  delete_session_by_token_hash, get_user_by_session_token_hash,
}
use match_camp.Database.Models.{Uuid, uuid_nil, Time}
use match_camp.Database.Result.{DbError, no_rows, unique_violation, failed, Result, ok, err}
use match_camp.Ratelimit.{allow}
use match_camp.Server.Payload.{is_empty, passed}
use match_camp.Server.Response.{
  Lifetime, until, removed, Cookie, no_body, user_session, Response, CurrentUser, is_no_rows,
  decode_json,
}
use match_camp.Text.{
  Text, codes, text_eq, byte_len, trim_space, to_lower, has_prefix, split, trim_prefix,
}
use match_camp.World.Env.{Env, Server}
use match_camp.World.Monad.{
  M, ◌>>=◌, ◌>>◌, pure, raise_if, on_error, ignore, run_query, run_insert, observe,
}

-- The parts of an HTTP request that these handlers read.
pub record Request : Type 0 where
  pub remote_ip : String
  pub cookies : List (String × Text)
  pub authorization : Text

pub record RegisterRequest : Type 0 where
  pub email : Text
  pub display_name : Text
  pub password : Text

pub record LoginRequest : Type 0 where
  pub email : Text
  pub password : Text

-- sessionTTL: 30 days, in nanoseconds
abbrev pub session_ttl : ℕ
session_ttl = 30 * 24 * 3600 * 1000000000

-- What pgx sends of a time for a TIMESTAMPTZ: whole microseconds.
abbrev pub whole_micros : ℕ → ℕ
whole_micros t = t / 1000 * 1000

abbrev pub password_min_len : ℕ
password_min_len = 8

-- a key in a set of domains
unfoldable pub in_domains : Text → List Text → Bool
in_domains d [] = false
in_domains d (e ∷ es) = text_eq e d || in_domains d es

abbrev pub has_domain : (ℕ → ℕ) → List Text → List Text → Bool
has_domain table domains (name ∷ domain ∷ []) = in_domains (to_lower table domain) domains
has_domain table domains _ = false

-- emailAllowed
unfoldable pub email_allowed : (ℕ → ℕ) → List Text → Text → Bool
unfolding in_domains
email_allowed table [] email = true
email_allowed table (d ∷ ds) email = has_domain table (d ∷ ds) (split b'@' email)

-- r.Cookie
unfoldable pub cookie_value : String → List (String × Text) → Option Text
cookie_value name [] = none
cookie_value name ((k, v) ∷ cookies) = if str_eq k name then some v else cookie_value name cookies

abbrev pub bearer : Text
bearer = codes "Bearer "

abbrev pub bearer_token : Text → Text
bearer_token header = if has_prefix header bearer then trim_prefix header bearer else []

abbrev pub non_empty_or : Option Text → Text → Text
non_empty_or (some (c ∷ s)) other = c ∷ s
non_empty_or (some []) other = other
non_empty_or none other = other

-- extractSessionToken
unfoldable pub extract_session_token : Server → Request → Text
extract_session_token srv req =
    non_empty_or (cookie_value srv.session_cookie_name req.cookies) (bearer_token req.authorization)

abbrev pub session_cookie : Server → Text → Lifetime → Cookie
session_cookie srv value lifetime = record {
  name = srv.session_cookie_name;
  value = value;
  lifetime = lifetime;
  http_only = true;
  secure = srv.session_cookie_secure;
}

abbrev pub or_failed : {A : Type 0} → Option A → Result DbError A
or_failed none = err failed
or_failed (some a) = ok a

abbrev pub session_error : DbError → String
session_error no_rows = "invalid_session"
session_error _ = "session_lookup_failed"

abbrev pub current_user : UserRow → CurrentUser
current_user row = record { id = row.id; email = row.email; name = row.display_name }

module _ (env : Env) (srv : Server) where
  -- NewSessionToken: the token; its hash is `sha256_hex` of it.
  unfoldable pub new_session_token : M DbError Text
  new_session_token w = (or_failed (env.random_token w.drawn), record w { drawn = w.drawn + 1 })

  -- HashPassword
  unfoldable pub hash_password : Text → M DbError Text
  hash_password password w =
      (or_failed (env.bcrypt_generate w.drawn password), record w { drawn = w.drawn + 1 })

  -- time.Now()
  unfoldable pub time_now : M DbError Time
  time_now w = (ok w.clock, w)

  -- createSession
  unfoldable pub create_session : Uuid → M DbError (Text × Cookie)
  create_session user_id = do
    token ← new_session_token
    started ← time_now
    run_insert env.gen_random_uuid (λ id.
        create_session_row id user_id (env.sha256_hex token) (whole_micros (started + session_ttl)))
    pure (token, session_cookie srv token (until (started + session_ttl)))

  -- registerLimiter.allow and loginLimiter.allow
  unfoldable pub register_allowed : String → M String Bool
  register_allowed ip w =
      let (passed, kl) = allow env.rate_allows w.register_limiter ip w.clock in
      (ok passed, record w { register_limiter = kl })

  unfoldable pub login_allowed : String → M String Bool
  login_allowed ip w =
      let (passed, kl) = allow env.rate_allows w.login_limiter ip w.clock in
      (ok passed, record w { login_limiter = kl })

  unfoldable pub clean_email : Text → Text
  clean_email email = to_lower env.unicode_lower (trim_space email)

  unfoldable pub invalid_register : RegisterRequest → Bool
  invalid_register req =
      is_empty (clean_email req.email)
      || is_empty (trim_space req.display_name)
      || ltb (byte_len req.password) password_min_len

  abbrev pub register_error : DbError → String
  register_error unique_violation = "email_already_registered"
  register_error _ = "register_failed"

  abbrev pub session_response : ℕ → Uuid → Text → Text → Text × Cookie → Response
  session_response status id email name (token, cookie) = record {
    status = status;
    body = user_session id email name token;
    cookies = cookie ∷ [];
  }

  -- register, from HashPassword on
  unfoldable pub open_account : RegisterRequest → M String Response
  open_account req = do
    hash ← on_error (hash_password req.password) (λ _. "password_hash_failed")
    created ←
        on_error
          (run_insert env.gen_random_uuid (λ id.
            create_password_user id (clean_email req.email) (trim_space req.display_name)
              (some hash)))
          register_error
    session ← on_error (create_session created.id) (λ _. "session_create_failed")
    pure (session_response 201 created.id created.email created.display_name session)

  -- POST /v1/auth/register
  unfoldable pub register : Request → Option RegisterRequest → M String Response
  register r payload = do
    allowed ← register_allowed r.remote_ip
    raise_if (not allowed) "rate_limit_exceeded"
    req ← decode_json payload
    raise_if (invalid_register req) "invalid_register_payload"
    raise_if (not (email_allowed env.unicode_lower srv.allowed_domains (clean_email req.email)))
        "email_domain_not_allowed"
    open_account req

  abbrev pub zero_login_row : UserForLoginRow
  zero_login_row = record { id = uuid_nil; email = []; display_name = []; password_hash = none }

  -- `row, err :=`: the row is zero where there is an error.
  abbrev pub login_row : Result DbError UserForLoginRow → UserForLoginRow
  login_row (ok row) = row
  login_row (err e) = zero_login_row

  abbrev pub is_error : Result DbError UserForLoginRow → Bool
  is_error (ok row) = false
  is_error (err e) = true

  abbrev pub found_no_rows : Result DbError UserForLoginRow → Bool
  found_no_rows (ok row) = false
  found_no_rows (err e) = is_no_rows e

  -- !row.PasswordHash.Valid || !auth.VerifyPassword(…)
  abbrev pub wrong_password : Option Text → Text → Bool
  wrong_password none password = true
  wrong_password (some hash) password = not (env.bcrypt_compare hash password)

  -- the two tests after the query, in their order
  unfoldable pub check_login : Text → Result DbError UserForLoginRow → M String UserForLoginRow
  check_login password r w =
      if found_no_rows r || wrong_password (login_row r).password_hash password
      then (err "invalid_credentials", w)
      else if is_error r
      then (err "login_failed", w)
      else (ok (login_row r), w)

  -- POST /v1/auth/login
  unfoldable pub login : Request → Option LoginRequest → M String Response
  login r payload = do
    allowed ← login_allowed r.remote_ip
    raise_if (not allowed) "rate_limit_exceeded"
    req ← decode_json payload
    found ← observe (run_query (get_user_for_login (clean_email req.email)))
    row ← check_login req.password found
    session ← on_error (create_session row.id) (λ _. "session_create_failed")
    pure (session_response 200 row.id row.email row.display_name session)

  abbrev pub delete_session : Option Text → M String (Unit {0})
  delete_session none = pure tt
  delete_session (some token) =
      ignore {E = DbError} (run_query (delete_session_by_token_hash (env.sha256_hex token)))

  -- POST /v1/auth/logout
  unfoldable pub logout : Request → M String Response
  logout r = do
    delete_session (cookie_value srv.session_cookie_name r.cookies)
    pure (record { status = 204; body = no_body; cookies = session_cookie srv [] removed ∷ [] })

  -- requireAuth, up to the handler behind it
  unfoldable pub require_auth : Request → M String CurrentUser
  require_auth r = do
    raise_if (is_empty (extract_session_token srv r)) "missing_session"
    row ←
        on_error
          (run_query
            (get_user_by_session_token_hash (env.sha256_hex (extract_session_token srv r))))
          session_error
    pure (current_user row)
