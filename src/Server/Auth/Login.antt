-- ===== src/Server/Auth/Login.antt =====
-- POST /v1/auth/login: who gets a session, and what the errors are.
use match_camp.Base.{
  String, ◌≡◌, refl, ◌∙◌, inl, inr, true, false, not, Option, none, some, [], ◌∷◌, arith, find?,
  Any, find?-Any, Any-map_of, In, Bool-cases, Option-cases,
}
use match_camp.Database.Auth.{UserForLoginRow, has_email, get_user_for_login}
use match_camp.Database.Models.{Db}
use match_camp.Database.Result.{DbError, Result, ok, err}
use match_camp.Server.Auth.{
  Request, LoginRequest, create_session, login_allowed, clean_email, session_response,
  wrong_password, check_login, login,
}
use match_camp.Server.Auth.Opening.{OpensSession, create_session-Ends}
use match_camp.Server.Response.{Cookie, Response, is_no_rows, decode_json}
use match_camp.Server.Response.Laws.{decode_json-Ends}
use match_camp.Text.{Text}
use match_camp.Text.Laws.{text_eq_iff}
use match_camp.World.Ends.{
  Ends, and_then-Ends, run_query-Ends, on_error-Ends, Ends-weaken, raise_if-Ends, Found,
  observe-Ends,
}
use match_camp.World.Ensures.{Yields}
use match_camp.World.Env.{Env, Server, World}
use match_camp.World.Monad.{raise_if, on_error, run_query, observe}

-- A user on record, as the query for a login returns it.
abbrev pub IsAccount : Text → UserForLoginRow → Db → Type 0
IsAccount email row db =
    Any
      (λ u.
        (u.email ≡ email)
        × (u.id ≡ row.id)
        × (u.email ≡ row.email)
        × (u.display_name ≡ row.display_name)
        × (u.password_hash ≡ row.password_hash))
      db.users

get_user_for_login-Yields :
    (email : Text) (db : Db)
    → Yields (λ row db'. (db' ≡ db) × IsAccount email row db) (get_user_for_login email db)
unfolding get_user_for_login
get_user_for_login-Yields email db = elim (Option-cases (find? (has_email email) db.users)) [
  | inl missing ↦ rw missing tt
  | inr (u, found) ↦
      let known = find?-Any (has_email email) db.users u found in
      rw found (
        refl,
        Any-map_of (λ v. v ≡ u) _
            (λ v e. rw e ((text_eq_iff u.email email).0 known.0, refl, refl, refl, refl)) db.users
            known.1,
      )
]

-- The errors of the endpoint. "login_failed" is not one of them.
abbrev pub LoginRefused : Db → String → Db → Type 0
LoginRefused before code after =
    In code (
      "rate_limit_exceeded" ∷ "invalid_json" ∷ "invalid_credentials" ∷ "session_create_failed" ∷ [])
    × (after ≡ before)

abbrev pub HasPassword : Env → Text → UserForLoginRow → Type 0
HasPassword env password row =
    (hash : Text) × (row.password_hash ≡ some hash) × (env.bcrypt_compare hash password ≡ true)

-- What a 200 answers: an account with this email and password, and its new session.
abbrev pub LoggedIn : Env → Server → Option LoginRequest → Db → Response → Db → Type 0
LoggedIn env srv payload before resp after =
    (req : LoginRequest) × (row : UserForLoginRow) × (token : Text) × (cookie : Cookie) × (payload
      ≡ some req)
    × IsAccount (clean_email env srv req.email) row before
    × HasPassword env req.password row
    × (resp ≡ session_response env srv 200 row.id row.email row.display_name (token, cookie))
    × OpensSession env row.id token cookie before after

right_password :
    (env : Env) (srv : Server) (password : Text) (stored : Option Text)
    → wrong_password env srv stored password ≡ false
    → (hash : Text) × (stored ≡ some hash) × (env.bcrypt_compare hash password ≡ true)
right_password env srv password none h = absurd (cc h)
right_password env srv password (some hash) h = (hash, refl, ground arith)

check_login-Ends :
    (env : Env) (srv : Server) (before : Db) (email password : Text)
    (found : Result DbError UserForLoginRow) (w : World)
    → Found
        (λ row db'. (db' ≡ before) × IsAccount email row before)
        (λ _ db'. db' ≡ before)
        found
        w.db
    → Ends
        (λ row db'. (db' ≡ before) × IsAccount email row before × HasPassword env password row)
        (LoginRefused before)
        (check_login env srv password found w)
unfolding check_login
check_login-Ends env srv before email password (err e) w h = elim (Bool-cases (is_no_rows e)) [
  | inl b ↦ rw b (inr (inr (inl refl)), h)
  | inr b ↦ rw b (inr (inr (inl refl)), h)
]
check_login-Ends env srv before email password (ok row) w h =
    elim (Bool-cases (wrong_password env srv row.password_hash password)) [
      | inl wrong ↦ rw wrong (inr (inr (inl refl)), h.0)
      | inr right ↦ rw right (h.0, h.1, right_password env srv password row.password_hash right)
    ]

-- POST /v1/auth/login answers 200 only to a decoded request whose email, trimmed and in lower case,
-- is that of an account with a password hash that bcrypt accepts for the password; the answer is
-- this account's, its cookie and token are of a session opened for it, and no other table changes.
-- Any error is one of four codes and leaves the tables as they were; a failed query of the account
-- is answered as "invalid_credentials", never as "login_failed".
pub login-Ends :
    (env : Env) (srv : Server) (r : Request) (payload : Option LoginRequest) (w : World)
    → Ends (LoggedIn env srv payload w.db) (LoginRefused w.db) (login env srv r payload w)
unfolding login
login-Ends env srv r payload w =
    and_then-Ends (λ _ db'. db' ≡ w.db) _ (LoginRefused w.db) (login_allowed env srv r.remote_ip w)
      _ (unfold login_allowed in refl)
      λ passed w₁ h₁.
        and_then-Ends (λ _ db'. db' ≡ w.db) _ (LoginRefused w.db)
          (raise_if (not passed) "rate_limit_exceeded" w₁) _
          (raise_if-Ends _ (LoginRefused w.db) (not passed) _ w₁ (λ _. h₁) (inl refl, h₁))
          λ _ w₂ h₂.
            and_then-Ends (λ req db'. (db' ≡ w.db) × (payload ≡ some req)) _ (LoginRefused w.db)
              (decode_json payload w₂) _ (decode_ends w₂ h₂)
              λ req w₃ h₃.
                let email : Text = clean_email env srv req.email in
                and_then-Ends
                  (Found (λ row db'. (db' ≡ w.db) × IsAccount email row w.db) (λ _ db'. db' ≡ w.db))
                  _ (LoginRefused w.db) (observe (run_query (get_user_for_login email)) w₃) _
                  (observe-Ends _ _ _ (run_query (get_user_for_login email)) w₃ (
                    Ends-weaken _ _ _ _ (run_query (get_user_for_login email) w₃)
                      (λ row db' k. (k.0 ∙ h₃.0, rw h₃.0 at k.1)) (λ e db' k. k ∙ h₃.0)
                      (run_query-Ends _ (get_user_for_login email) w₃
                        (get_user_for_login-Yields email w₃.db))))
                  λ found w₄ h₄.
                    and_then-Ends
                      (λ row db'.
                        (db' ≡ w.db) × IsAccount email row w.db × HasPassword env req.password row)
                      _ (LoginRefused w.db) (check_login env srv req.password found w₄) _
                      (check_login-Ends env srv w.db email req.password found w₄ h₄)
                      λ row w₅ h₅.
                        and_then-Ends
                          (λ session db'. OpensSession env row.id session.0 session.1 w.db db') _
                          (LoginRefused w.db)
                          (on_error (create_session env srv row.id) (λ _. "session_create_failed")
                            w₅)
                          _
                          (on_error-Ends _ (LoginRefused w.db) (create_session env srv row.id)
                            (λ _. "session_create_failed") w₅
                            (Ends-weaken _ _ _ _ (create_session env srv row.id w₅)
                              (λ _ db' k. rw h₅.0 at k)
                              (λ e db' k. (inr (inr (inr (inl refl))), k ∙ h₅.0))
                              (create_session-Ends env srv row.id w₅)))
                          λ session w₆ h₆.
                            (req, row, session.0, session.1, h₃.1, h₅.1, h₅.2, refl, h₆)
  where
    decode_ends :
        (w₂ : World)
        → w₂.db ≡ w.db
        → Ends
            (λ req db'. (db' ≡ w.db) × (payload ≡ some req))
            (LoginRefused w.db)
            (decode_json payload w₂)
    decode_ends w₂ h =
        Ends-weaken _ _ _ _ (decode_json payload w₂) (λ req db' k. (k.0 ∙ h, k.1)) (λ _ _ k. k)
          (decode_json-Ends (LoginRefused w.db) payload w₂ (inr (inl refl), h))
