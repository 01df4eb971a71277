-- ===== src/Tests/Auth.antt =====
-- Witnesses about accounts and sessions.
use match_camp.Base.{◌+◌, ◌≡◌, refl, ◌≢◌, ◌↔◌, ◌⊎◌, true, some, [], ◌∷◌, ltb, if◌then◌else◌}
use match_camp.Database.Auth.{
  user_row, get_user_for_login, create_session_row, get_user_by_session_token_hash,
}
use match_camp.Database.Result.{ok, err}
use match_camp.Ratelimit.{allow}
use match_camp.Samples.{
  sample_env, sample_user, sample_world, sample_server, cookie_request, bearer_request,
  session_world,
}
use match_camp.Server.Auth.{
  Request, RegisterRequest, LoginRequest, session_ttl, whole_micros, email_allowed, cookie_value,
  extract_session_token, session_cookie, current_user, new_session_token, time_now, create_session,
  login_allowed, clean_email, session_response, register, check_login, login, logout, require_auth,
}
use match_camp.Server.Auth.Domains.{HasListedDomain, email_allowed_iff}
use match_camp.Server.Auth.Lifecycle.{at, logout_revokes, create_session_authenticates}
use match_camp.Server.Auth.Login.{LoginRefused, LoggedIn, login-Ends}
use match_camp.Server.Auth.Registration.{Registered, RegisterFailed, register-Ends}
use match_camp.Server.Auth.Tokens.{IsLoggedIn, Denied, require_auth-Ends}
use match_camp.Server.Response.{until, decode_json}
use match_camp.Text.{codes, text_eq, trim_space, to_lower, has_prefix, trim_prefix}
use match_camp.World.Ends.{Ends}
use match_camp.World.Monad.{raise_if, on_error, run_query, run_insert, observe, calm}

bearer_token_found : extract_session_token sample_server bearer_request ≡ codes "t"
unfolding extract_session_token cookie_value has_prefix trim_prefix
bearer_token_found = refl

cookie_found :
    cookie_value sample_server.session_cookie_name cookie_request.cookies ≡ some (codes "t")
unfolding cookie_value
cookie_found = refl

require_auth-Ends_example :
    Ends
      (λ user db'.
        (db' ≡ session_world.db)
        × (extract_session_token sample_server bearer_request ≢ [])
        × IsLoggedIn
            (sample_env.sha256_hex (extract_session_token sample_server bearer_request))
            user
            session_world.db)
      (Denied session_world.db)
      (require_auth sample_env sample_server bearer_request session_world)
require_auth-Ends_example = require_auth-Ends sample_env sample_server bearer_request session_world

-- The session of user 1 lets its bearer through.
bearer_let_through :
    (require_auth sample_env sample_server bearer_request session_world).0
    ≡ ok (record { id = 1; email = codes "ana@uni.br"; name = codes "Ana" })
unfolding require_auth raise_if on_error run_query get_user_by_session_token_hash
    extract_session_token cookie_value has_prefix trim_prefix text_eq
bearer_let_through = refl

logout_revokes_example :
    (require_auth sample_env sample_server bearer_request
      (logout sample_env sample_server cookie_request (calm session_world)).1).0
    ≡ err "invalid_session"
logout_revokes_example =
    logout_revokes sample_env sample_server cookie_request bearer_request (codes "t") session_world
      cookie_found bearer_token_found (λ e. absurd (cc e))

abbrev fresh_request : Request
fresh_request = record bearer_request {
  authorization = b'B' ∷ b'e' ∷ b'a' ∷ b'r' ∷ b'e' ∷ b'r' ∷ b' ' ∷ 0 ∷ [];
}

fresh_token_found : extract_session_token sample_server fresh_request ≡ 0 ∷ []
unfolding extract_session_token cookie_value has_prefix trim_prefix
fresh_token_found = refl

create_session_authenticates_example :
    (require_auth sample_env sample_server fresh_request
      (at 500 (create_session sample_env sample_server 1 (calm sample_world)).1)).0
    ≡ (if ltb 500 (whole_micros (10 + session_ttl))
        then ok (current_user (user_row (sample_user 1 (codes "ana@uni.br"))))
        else err "invalid_session")
create_session_authenticates_example =
    create_session_authenticates sample_env sample_server fresh_request
      (sample_user 1 (codes "ana@uni.br")) (0 ∷ []) 500 sample_world refl refl refl
      fresh_token_found (λ e. absurd (cc e))

abbrev ana_login : LoginRequest
ana_login = record { email = codes " Ana@uni.br"; password = codes "senha1234" }

login-Ends_example :
    Ends
      (LoggedIn sample_env sample_server (some ana_login) sample_world.db)
      (LoginRefused sample_world.db)
      (login sample_env sample_server bearer_request (some ana_login) sample_world)
login-Ends_example =
    login-Ends sample_env sample_server bearer_request (some ana_login) sample_world

-- The login of user 1 succeeds.
ana_logs_in :
    (login sample_env sample_server bearer_request (some ana_login) sample_world).0
    ≡ ok (
        session_response sample_env sample_server 200 1
          (codes "ana@uni.br")
          (codes "Ana")
          (0 ∷ [], session_cookie sample_server (0 ∷ []) (until (10 + session_ttl))))
unfolding login login_allowed allow raise_if decode_json observe run_query get_user_for_login
    check_login on_error create_session new_session_token time_now run_insert create_session_row
    clean_email trim_space to_lower text_eq
ana_logs_in = refl

abbrev new_account : RegisterRequest
new_account = record {
  email = codes "Caio@UNI.br";
  display_name = codes "Caio";
  password = codes "12345678";
}

register-Ends_example :
    Ends
      (Registered sample_env sample_server (some new_account) sample_world.db)
      (RegisterFailed sample_env sample_server (some new_account) sample_world.db)
      (register sample_env sample_server bearer_request (some new_account) sample_world)
register-Ends_example =
    register-Ends sample_env sample_server bearer_request (some new_account) sample_world

email_allowed_iff_example :
    (email_allowed (λ c. c) (codes "uni.br" ∷ []) (codes "ana@uni.br") ≡ true) ↔ (
      (codes "uni.br" ∷ [] ≡ [])
      ⊎ HasListedDomain (λ c. c) (codes "uni.br" ∷ []) (codes "ana@uni.br"))
email_allowed_iff_example = email_allowed_iff (λ c. c) (codes "uni.br" ∷ []) (codes "ana@uni.br")
