-- ===== src/Server/Auth/Registration.antt =====
-- POST /v1/auth/register: which accounts it opens, and what is left where it fails.
use match_camp.Base.{
  ℕ, ◌≤◌, String, ◌≡◌, refl, ap, subst, ◌∙◌, ◌≢◌, ◌⊎◌, inl, inr, true, false, not, Option, some,
  List, [], ◌∷◌, arith, In,
}
use match_camp.Database.Auth.{UserRow, user_row, create_password_user}
use match_camp.Database.Models.{User, Db}
use match_camp.Database.Result.{DbError, no_rows, unique_violation, failed}
use match_camp.Server.Auth.{
  Request, RegisterRequest, password_min_len, email_allowed, hash_password, create_session,
  register_allowed, clean_email, invalid_register, register_error, session_response, open_account,
  register,
}
use match_camp.Server.Auth.Account.{OpensAccount, create_password_user-Yields, hash_password-Ends}
use match_camp.Server.Auth.Opening.{OpensSession, create_session-Ends}
use match_camp.Server.Payload.{is_empty}
use match_camp.Server.Response.{Cookie, Response, decode_json}
use match_camp.Server.Response.Laws.{decode_json-Ends}
use match_camp.Text.{Text, byte_len, trim_space}
use match_camp.World.Ends.{
  Ends, and_then-Ends, run_insert-Ends, on_error-Ends, Ends-weaken, raise_if-Ends,
}
use match_camp.World.Env.{Env, Server, World}
use match_camp.World.Monad.{raise_if, on_error, run_insert}

-- The errors of the endpoint that leave the tables as they were.
abbrev pub register_codes : List String
register_codes =
    "rate_limit_exceeded" ∷ "invalid_json" ∷ "invalid_register_payload" ∷ "email_domain_not_allowed"
    ∷ "password_hash_failed" ∷ "email_already_registered" ∷ "register_failed" ∷ []

-- What the guards let through.
abbrev pub IsRegistrable : Env → Server → RegisterRequest → Type 0
IsRegistrable env srv req =
    (clean_email env srv req.email ≢ [])
    × (trim_space req.display_name ≢ [])
    × (password_min_len ≤ byte_len req.password)
    × (email_allowed env.unicode_lower srv.allowed_domains (clean_email env srv req.email) ≡ true)

-- The account of a registration, with a bcrypt hash of the password.
abbrev pub Opened : Env → Server → RegisterRequest → Db → User → Db → Type 0
Opened env srv req before user after =
    (hash : Text) × (salt : ℕ) × (env.bcrypt_generate salt req.password ≡ some hash)
    × OpensAccount (clean_email env srv req.email) (trim_space req.display_name) hash before user
        after

abbrev pub with_user : User → Db → Db
with_user user db = record db { users = user ∷ db.users }

-- What a 201 answers: a new account, and its session.
abbrev pub Registered : Env → Server → Option RegisterRequest → Db → Response → Db → Type 0
Registered env srv payload before resp after =
    (req : RegisterRequest) × (user : User) × (token : Text) × (cookie : Cookie) × (payload
      ≡ some req)
    × IsRegistrable env srv req
    × Opened env srv req before user (with_user user before)
    × (resp ≡ session_response env srv 201 user.id user.email user.display_name (token, cookie))
    × OpensSession env user.id token cookie (with_user user before) after

-- An account without a session is what a failed session leaves.
abbrev pub RegisterFailed : Env → Server → Option RegisterRequest → Db → String → Db → Type 0
RegisterFailed env srv payload before code after =
    (In code register_codes × (after ≡ before))
    ⊎ ((req : RegisterRequest) × (user : User) × (payload ≡ some req)
        × (code ≡ "session_create_failed")
        × Opened env srv req before user after)

register_error-In :
    (env : Env) (srv : Server) (e : DbError) → In (register_error env srv e) register_codes
register_error-In env srv no_rows = ground arith
register_error-In env srv unique_violation = ground arith
register_error-In env srv failed = ground arith

filled :
    (env : Env) (srv : Server) (req : RegisterRequest)
    → invalid_register env srv req ≡ false
    → (clean_email env srv req.email ≢ [])
      × (trim_space req.display_name ≢ [])
      × (password_min_len ≤ byte_len req.password)
unfolding invalid_register
filled env srv req h = (
  not_empty (clean_email env srv req.email) (ground arith),
  not_empty (trim_space req.display_name) (ground arith),
  ground arith,
)
  where
    not_empty : (t : Text) → is_empty t ≡ false → t ≢ []
    not_empty t some_rune none_left = absurd (cc (some_rune, ap is_empty none_left))

open_account-Ends :
    (env : Env) (srv : Server) (payload : Option RegisterRequest) (req : RegisterRequest)
    (before : Db) (w : World)
    → payload ≡ some req
    → IsRegistrable env srv req
    → w.db ≡ before
    → Ends
        (Registered env srv payload before)
        (RegisterFailed env srv payload before)
        (open_account env srv req w)
unfolding open_account
open_account-Ends env srv payload req before w decoded proper same =
    and_then-Ends
      (λ hash db'.
        (db' ≡ before) × (salt : ℕ) × (env.bcrypt_generate salt req.password ≡ some hash))
      _ Failed (on_error (hash_password env srv req.password) (λ _. "password_hash_failed") w) _
      (on_error-Ends _ Failed (hash_password env srv req.password) (λ _. "password_hash_failed") w
        (Ends-weaken _ _ _ _ (hash_password env srv req.password w)
          (λ hash db' k. (k.0 ∙ same, k.1, k.2))
          (λ e db' k. inl (inr (inr (inr (inr (inl refl)))), k ∙ same))
          (hash_password-Ends env srv req.password w)))
      λ hash w₁ h₁.
        and_then-Ends
          (λ row db'.
            (user : User) × (row ≡ user_row user) × OpensAccount email name hash before user db')
          _ Failed
          (on_error
            (run_insert env.gen_random_uuid (λ id. create_password_user id email name (some hash)))
            (register_error env srv) w₁)
          _
          (on_error-Ends _ Failed
            (run_insert env.gen_random_uuid (λ id. create_password_user id email name (some hash)))
            (register_error env srv) w₁
            (Ends-weaken _ _ _ _
              (run_insert env.gen_random_uuid (λ id. create_password_user id email name (some hash))
                w₁)
              (λ row db' k. rw h₁.0 at k) (λ e db' k. inl (register_error-In env srv e, k ∙ h₁.0))
              (run_insert-Ends _ env.gen_random_uuid
                (λ id. create_password_user id email name (some hash)) w₁
                (λ id. create_password_user-Yields id email name hash w₁.db))))
          λ row w₂ h₂.
            and_then-Ends (λ session db'. OpensSession env row.id session.0 session.1 w₂.db db') _
              Failed (on_error (create_session env srv row.id) (λ _. "session_create_failed") w₂) _
              (on_error-Ends _ Failed (create_session env srv row.id) (λ _. "session_create_failed")
                w₂
                (Ends-weaken _ _ _ _ (create_session env srv row.id w₂) (λ _ db' k. k)
                  (λ e db' k.
                    inr (req, h₂.0, decoded, refl, (hash, h₁.1, h₁.2, (h₂.2.0, k ∙ h₂.2.1))))
                  (create_session-Ends env srv row.id w₂)))
              λ session w₃ h₃. (
                req,
                h₂.0,
                session.0,
                session.1,
                decoded,
                proper,
                (hash, h₁.1, h₁.2, (h₂.2.0, refl)),
                rw h₂.1 refl,
                subst (λ db. OpensSession env h₂.0.id session.0 session.1 db w₃.db) h₂.2.1
                    (subst (λ (u : UserRow). OpensSession env u.id session.0 session.1 w₂.db w₃.db)
                      h₂.1 h₃),
              )
  where
    email : Text
    email = clean_email env srv req.email

    name : Text
    name = trim_space req.display_name

    Failed : String → Db → Type 0
    Failed = RegisterFailed env srv payload before

-- POST /v1/auth/register answers 201 only to a decoded request with an email and a name that are
-- not blank, a password of at least 8 bytes and an allowed domain; then one account is new, with
-- the email in lower case, which no account had, and a bcrypt hash of the password, and a session
-- of it is open. An error leaves the tables as they were, but for "session_create_failed", which
-- leaves the new account.
pub register-Ends :
    (env : Env) (srv : Server) (r : Request) (payload : Option RegisterRequest) (w : World)
    → Ends
        (Registered env srv payload w.db)
        (RegisterFailed env srv payload w.db)
        (register env srv r payload w)
unfolding register
register-Ends env srv r payload w =
    and_then-Ends (λ _ db'. db' ≡ w.db) _ Failed (register_allowed env srv r.remote_ip w) _
      (unfold register_allowed in refl)
      λ passed w₁ h₁.
        and_then-Ends (λ _ db'. db' ≡ w.db) _ Failed
          (raise_if (not passed) "rate_limit_exceeded" w₁) _
          (raise_if-Ends _ Failed (not passed) _ w₁ (λ _. h₁) (inl (inl refl, h₁)))
          λ _ w₂ h₂.
            and_then-Ends (λ req db'. (db' ≡ w.db) × (payload ≡ some req)) _ Failed
              (decode_json payload w₂) _ (decode_ends w₂ h₂)
              λ req w₃ h₃.
                and_then-Ends
                  (λ _ db'.
                    (db' ≡ w.db)
                    × (clean_email env srv req.email ≢ [])
                    × (trim_space req.display_name ≢ [])
                    × (password_min_len ≤ byte_len req.password))
                  _ Failed (raise_if (invalid_register env srv req) "invalid_register_payload" w₃) _
                  (raise_if-Ends _ Failed (invalid_register env srv req) _ w₃
                    (λ valid. let f = filled env srv req valid in (h₃.0, f.0, f.1, f.2))
                    (inl (inr (inr (inl refl)), h₃.0)))
                  λ _ w₄ h₄.
                    and_then-Ends (λ _ db'. (db' ≡ w.db) × IsRegistrable env srv req) _ Failed
                      (raise_if
                        (not (
                          email_allowed env.unicode_lower srv.allowed_domains
                            (clean_email env srv req.email)))
                        "email_domain_not_allowed" w₄)
                      _
                      (raise_if-Ends _ Failed
                        (not (
                          email_allowed env.unicode_lower srv.allowed_domains
                            (clean_email env srv req.email)))
                        _ w₄ (λ allowed. (h₄.0, (h₄.1, h₄.2, h₄.3, ground arith)))
                        (inl (inr (inr (inr (inl refl))), h₄.0)))
                      λ _ w₅ h₅. open_account-Ends env srv payload req w.db w₅ h₃.1 h₅.1 h₅.0
  where
    Failed : String → Db → Type 0
    Failed = RegisterFailed env srv payload w.db

    decode_ends :
        (w₂ : World)
        → w₂.db ≡ w.db
        → Ends (λ req db'. (db' ≡ w.db) × (payload ≡ some req)) Failed (decode_json payload w₂)
    decode_ends w₂ h =
        Ends-weaken _ _ _ _ (decode_json payload w₂) (λ req db' k. (k.0 ∙ h, k.1)) (λ _ _ k. k)
          (decode_json-Ends Failed payload w₂ (inl (inr (inl refl), h)))
