-- ===== src/Server/Google/Callback.antt =====
-- Whom the callback of Google signs in.
use match_camp.Base.{
  String, ◌≡◌, refl, sym, subst, ◌∙◌, ◌⊎◌, inl, inr, Bool, true, false, not, Option, some, [], ◌∷◌,
  In,
}
use match_camp.Database.Models.{Db}
use match_camp.Database.Result.{Result}
use match_camp.Server.Auth.{Request, email_allowed, cookie_value, create_session}
use match_camp.Server.Auth.Opening.{OpensSession, create_session-Ends}
use match_camp.Server.Google.{
  GoogleAnswer, GoogleProfile, oauth_state_cookie_name, read_answer, state_matches, google_response,
  upsert_google_user, sign_in, google_callback,
}
use match_camp.Server.Google.Accounts.{OwnersKnown, IsSignedUp, upsert_google_user-Ends}
use match_camp.Server.Payload.{is_empty}
use match_camp.Server.Response.{Cookie, Response, CurrentUser, or_error, lift}
use match_camp.Server.Response.Laws.{lift-Ends, or_error-ok, or_error-err}
use match_camp.Text.{Text}
use match_camp.World.Ends.{Ends, and_then-Ends, on_error-Ends, Ends-weaken, raise_if-Ends}
use match_camp.World.Env.{Env, Server, World}
use match_camp.World.Monad.{raise_if, on_error}

-- The errors of the endpoint, given the profile that Google answered with, if any: the last one
-- leaves the account of the profile, as a sign-in without a session.
abbrev pub CallbackRefused : Option GoogleProfile → Db → String → Db → Type 0
CallbackRefused answer before code after =
    (In code (
        "invalid_oauth_state" ∷ "missing_oauth_code" ∷ "google_oauth_failed"
        ∷ "google_email_not_verified" ∷ "email_domain_not_allowed" ∷ "google_user_save_failed" ∷ [])
      × (after ≡ before))
    ⊎ ((code ≡ "session_create_failed")
        × ((profile : GoogleProfile) × (user : CurrentUser) × (answer ≡ some profile)
            × IsSignedUp profile before user after))

not-eq-false : (c : Bool) → not c ≡ false → c ≡ true
not-eq-false true h = refl
not-eq-false false h = sym h

-- What a 200 says of the profile that Google gave.
abbrev pub Admitted : Env → Server → GoogleProfile → Db → Response → Db → Type 0
Admitted env srv profile before resp after =
    (user : CurrentUser) × (token : Text) × (cookie : Cookie) × (linked : Db) × (profile.verified
      ≡ true)
    × (email_allowed env.unicode_lower srv.allowed_domains profile.email ≡ true)
    × IsSignedUp profile before user linked
    × (resp ≡ google_response srv user (token, cookie))
    × OpensSession env user.id token cookie linked after

sign_in-Ends :
    (env : Env) (srv : Server) (profile : GoogleProfile) (before : Db) (w : World)
    → OwnersKnown before
    → w.db ≡ before
    → Ends
        (Admitted env srv profile before)
        (CallbackRefused (some profile) before)
        (sign_in env srv profile w)
unfolding sign_in
sign_in-Ends env srv profile before w owners same =
    and_then-Ends (λ _ db'. (db' ≡ before) × (profile.verified ≡ true)) _ Refusal
      (raise_if (not profile.verified) "google_email_not_verified" w) _
      (raise_if-Ends _ Refusal (not profile.verified) _ w
        (λ e. (same, not-eq-false profile.verified e)) (inl (inr (inr (inr (inl refl))), same)))
      λ _ w₄ h₄.
        and_then-Ends
          (λ _ db'.
            (db' ≡ before)
            × (email_allowed env.unicode_lower srv.allowed_domains profile.email ≡ true))
          _ Refusal
          (raise_if (not (email_allowed env.unicode_lower srv.allowed_domains profile.email))
            "email_domain_not_allowed" w₄)
          _
          (raise_if-Ends _ Refusal
            (not (email_allowed env.unicode_lower srv.allowed_domains profile.email)) _ w₄
            (λ e. (h₄.0, not-eq-false _ e)) (inl (inr (inr (inr (inr (inl refl)))), h₄.0)))
          λ _ w₅ h₅.
            and_then-Ends (λ user db'. IsSignedUp profile before user db') _ Refusal
              (on_error (upsert_google_user env srv profile) (λ _. "google_user_save_failed") w₅) _
              (on_error-Ends _ Refusal (upsert_google_user env srv profile)
                (λ _. "google_user_save_failed") w₅
                (Ends-weaken _ _ _ _ (upsert_google_user env srv profile w₅)
                  (λ user db' k. rw (h₅.0) at k)
                  (λ e db' k. inl (inr (inr (inr (inr (inr (inl refl))))), k ∙ h₅.0))
                  (upsert_google_user-Ends env srv profile w₅
                    (subst OwnersKnown (sym h₅.0) owners))))
              λ user w₆ h₆.
                and_then-Ends
                  (λ session db'. OpensSession env user.id session.0 session.1 w₆.db db') _ Refusal
                  (on_error (create_session env srv user.id) (λ _. "session_create_failed") w₆) _
                  (on_error-Ends _ Refusal (create_session env srv user.id)
                    (λ _. "session_create_failed") w₆
                    (Ends-weaken _ _ _ _ (create_session env srv user.id w₆) (λ _ _ k. k)
                      (λ e db' k. inr (
                        refl,
                        (profile, user, refl, subst (IsSignedUp profile before user) (sym k) h₆),
                      ))
                      (create_session-Ends env srv user.id w₆)))
                  λ session w₇ h₇. (user, session.0, session.1, w₆.db, h₄.1, h₅.1, h₆, refl, h₇)
  where
    Refusal : String → Db → Type 0
    Refusal = CallbackRefused (some profile) before

-- What a 200 answers: Google's word for a verified and admitted address, an account on record, and
-- its new session.
abbrev pub SignedIn :
    Env
    → Server
    → (Text → Option GoogleAnswer)
    → Request
    → Text
    → Text
    → Db
    → Response
    → Db
    → Type 0
SignedIn env srv google r state code before resp after =
    (state_matches (cookie_value oauth_state_cookie_name r.cookies) state ≡ true)
    × ((profile : GoogleProfile) × (read_answer env.unicode_lower (google code) ≡ some profile)
        × Admitted env srv profile before resp after)

-- GET /v1/auth/google/callback, where the user of each identity is on record: it answers 200 only
-- where the state of the request is that of its cookie, and Google gives for the code a profile
-- with a verified address of an allowed domain. The answer names the user to whom the subject of
-- the profile was linked, and then no account changes; or, for a subject without a link, the user
-- of the profile's email, opened if there was none, to whom one new row links the subject. Its
-- token is that of a new session of the user, and nothing else changes. Any error is one of seven
-- codes; session_create_failed leaves the same account and link as a 200, without a session, and
-- the others leave the tables as they were.
pub google_callback-Ends :
    (env : Env) (srv : Server) (google : Text → Option GoogleAnswer) (r : Request)
    (state code : Text) (w : World)
    → OwnersKnown w.db
    → Ends
        (SignedIn env srv google r state code w.db)
        (CallbackRefused (read_answer env.unicode_lower (google code)) w.db)
        (google_callback env srv google r state code w)
unfolding google_callback
google_callback-Ends env srv google r state code w owners =
    let stated : Bool = state_matches (cookie_value oauth_state_cookie_name r.cookies) state in
    and_then-Ends (λ _ db'. (db' ≡ w.db) × (stated ≡ true)) _ Refusal
      (raise_if (not stated) "invalid_oauth_state" w) _
      (raise_if-Ends _ Refusal (not stated) _ w (λ e. (refl, not-eq-false stated e))
        (inl (inl refl, refl)))
      λ _ w₁ h₁.
        and_then-Ends (λ _ db'. db' ≡ w.db) _ Refusal
          (raise_if (is_empty code) "missing_oauth_code" w₁) _
          (raise_if-Ends _ Refusal (is_empty code) _ w₁ (λ _. h₁.0) (inl (inr (inl refl), h₁.0)))
          λ _ w₂ h₂.
            and_then-Ends
              (λ profile db'.
                (db' ≡ w.db) × (read_answer env.unicode_lower (google code) ≡ some profile))
              _ Refusal (lift answer w₂) _
              (Ends-weaken _ _ _ _ (lift answer w₂)
                (λ profile db' k. (
                  k.0 ∙ h₂,
                  or_error-ok (read_answer env.unicode_lower (google code)) "google_oauth_failed"
                      profile k.1,
                ))
                (λ _ _ k. k)
                (lift-Ends Refusal answer w₂ (λ c e. inl (
                  inr (
                      inr (
                        inl (
                          or_error-err (read_answer env.unicode_lower (google code))
                            "google_oauth_failed" c e))),
                  h₂,
                ))))
              λ profile w₃ h₃.
                Ends-weaken _ _ _ _ (sign_in env srv profile w₃)
                  (λ resp db' k. (h₁.1, (profile, h₃.1, k))) (λ c db' k. rw h₃.1 k)
                  (sign_in-Ends env srv profile w.db w₃ owners h₃.0)
  where
    Refusal : String → Db → Type 0
    Refusal = CallbackRefused (read_answer env.unicode_lower (google code)) w.db

    answer : Result String GoogleProfile
    answer = or_error (read_answer env.unicode_lower (google code)) "google_oauth_failed"
