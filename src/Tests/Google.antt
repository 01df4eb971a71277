-- ===== src/Tests/Google.antt =====
-- Witnesses about signing in with Google.
use match_camp.Base.{◌≡◌, refl, true, Option, none, some, [], ◌∷◌, if◌then◌else◌}
use match_camp.Database.Auth.{
  email_check, create_session_row, get_google_user_by_subject, upsert_google_user_by_email,
  link_google_identity,
}
use match_camp.Samples.{sample_env, sample_tables, sample_world, sample_server}
use match_camp.Server.Auth.{
  Request, in_domains, email_allowed, cookie_value, new_session_token, time_now, create_session,
}
use match_camp.Server.Google.{
  GoogleAnswer, read_answer, display_name_of, create_and_link, known_or_created, google_statements,
  upsert_google_user, sign_in, google_callback,
}
use match_camp.Server.Google.Callback.{CallbackRefused, SignedIn, google_callback-Ends}
use match_camp.Server.Response.{lift}
use match_camp.Text.{Text, codes, text_eq, trim_space, lower_rune, to_lower, split}
use match_camp.World.Ends.{Ends}
use match_camp.World.Monad.{raise_if, on_error, run_query, run_insert, transaction, observe}

abbrev state_request : Request
state_request = record {
  remote_ip = "10.0.0.1";
  cookies = ("matchcamp_oauth_state", codes "s") ∷ [];
  authorization = [];
}

-- Google knows the code "c".
abbrev google_knows : Text → Option GoogleAnswer
google_knows code =
    if text_eq code (codes "c")
    then some (record {
      sub = codes "g-1";
      answered_email = codes "Caio@uni.br";
      email_verified = true;
      answered_name = [];
    })
    else none

google_callback-Ends_example :
    Ends
      (SignedIn sample_env sample_server google_knows state_request
        (codes "s")
        (codes "c")
        sample_tables)
      (CallbackRefused
        (read_answer sample_env.unicode_lower (google_knows (codes "c")))
        sample_tables)
      (google_callback sample_env sample_server google_knows state_request
        (codes "s")
        (codes "c")
        sample_world)
google_callback-Ends_example =
    google_callback-Ends sample_env sample_server google_knows state_request (codes "s") (codes "c")
      sample_world tt

-- A first sign-in makes an account with the part of the address before "@" as its name.
first_sign_in :
    (google_callback sample_env sample_server google_knows state_request
      (codes "s")
      (codes "c")
      sample_world).1.db.users
    ≡ record {
      id = 100;
      email = codes "caio@uni.br";
      display_name = codes "caio";
      password_hash = none;
      created_at = 10;
      updated_at = 10;
    }
      ∷ sample_tables.users
unfolding google_callback sign_in upsert_google_user google_statements known_or_created
    create_and_link read_answer raise_if lift on_error observe run_query run_insert transaction
    get_google_user_by_subject upsert_google_user_by_email link_google_identity cookie_value
    email_allowed in_domains split to_lower trim_space display_name_of create_session
    new_session_token time_now create_session_row text_eq email_check lower_rune
first_sign_in = refl
