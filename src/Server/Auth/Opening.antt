-- ===== src/Server/Auth/Opening.antt =====
-- The session that createSession opens.
use match_camp.Base.{◌+◌, ◌≡◌, refl, ◌∙◌, inl, inr, ◌||◌, ◌∷◌, any, ◌==◌, Bool-cases, Option-cases}
use match_camp.Database.Auth.{has_token, create_session_row}
use match_camp.Database.Models.{Uuid, Time, Db, has_user}
use match_camp.Server.Auth.{
  session_ttl, whole_micros, session_cookie, new_session_token, time_now, create_session,
}
use match_camp.Server.Response.{until, Cookie}
use match_camp.Text.{Text}
use match_camp.World.Ends.{Ends, and_then-Ends, run_insert-Ends, Ends-weaken}
use match_camp.World.Ensures.{Yields}
use match_camp.World.Env.{Env, Server, World}
use match_camp.World.Monad.{run_insert}

-- The only table that a login changes is that of the sessions; the row expires with the cookie, up
-- to the microsecond.
abbrev pub OpensSession : Env → Uuid → Text → Cookie → Db → Db → Type 0
OpensSession env user_id token cookie before after =
    (id : Uuid) × (expires_at : Time) × (cookie.lifetime ≡ until expires_at)
    × (cookie.value ≡ token)
    × (after ≡ record before {
      sessions =
          record {
            id = id;
            user_id = user_id;
            token_hash = env.sha256_hex token;
            expires_at = whole_micros expires_at;
            created_at = before.now;
          }
          ∷ before.sessions;
    })

create_session_row-Yields :
    (env : Env) (id user_id : Uuid) (token : Text) (cookie : Cookie) (expires_at : Time) (db : Db)
    → cookie.lifetime ≡ until expires_at
    → cookie.value ≡ token
    → Yields
        (λ _ db'. OpensSession env user_id token cookie db db')
        (create_session_row id user_id (env.sha256_hex token) (whole_micros expires_at) db)
unfolding create_session_row
create_session_row-Yields env id user_id token cookie expires_at db lives holds =
    elim (Bool-cases (any (λ s. s.id == id || has_token (env.sha256_hex token) s) db.sessions)) [
      | inl taken ↦ rw taken tt
      | inr fresh ↦ elim (Bool-cases (has_user user_id db)) [
        | inl known ↦ rw fresh rw known (id, expires_at, lives, holds, refl)
        | inr unknown ↦ rw fresh rw unknown tt
      ]
    ]

pub create_session-Ends :
    (env : Env) (srv : Server) (user_id : Uuid) (w : World)
    → Ends
        (λ session db'. OpensSession env user_id session.0 session.1 w.db db')
        (λ _ db'. db' ≡ w.db)
        (create_session env srv user_id w)
unfolding create_session
create_session-Ends env srv user_id w =
    and_then-Ends (λ _ db'. db' ≡ w.db) _ (λ _ db'. db' ≡ w.db) (new_session_token env srv w) _
      token_drawn
      λ token w₁ h₁.
        and_then-Ends (λ _ db'. db' ≡ w.db) _ (λ _ db'. db' ≡ w.db) (time_now env srv w₁) _
          (unfold time_now in h₁)
          λ started w₂ h₂.
            let expires_at : Time = started + session_ttl in
            let cookie : Cookie = session_cookie srv token (until expires_at) in
            and_then-Ends (λ _ db'. OpensSession env user_id token cookie w.db db') _
              (λ _ db'. db' ≡ w.db)
              (run_insert env.gen_random_uuid
                (λ id.
                  create_session_row id user_id (env.sha256_hex token) (whole_micros expires_at))
                w₂)
              _
              (Ends-weaken _ _ _ _
                (run_insert env.gen_random_uuid
                  (λ id.
                    create_session_row id user_id (env.sha256_hex token) (whole_micros expires_at))
                  w₂)
                (λ _ db' k. rw h₂ at k) (λ _ db' k. k ∙ h₂)
                (run_insert-Ends _ env.gen_random_uuid
                  (λ id.
                    create_session_row id user_id (env.sha256_hex token) (whole_micros expires_at))
                  w₂
                  (λ id.
                    create_session_row-Yields env id user_id token cookie expires_at w₂.db refl
                      refl)))
              λ _ w₃ h₃. h₃
  where
    token_drawn : Ends (λ _ db'. db' ≡ w.db) (λ _ db'. db' ≡ w.db) (new_session_token env srv w)
    token_drawn =
        unfold new_session_token in
        elim (Option-cases (env.random_token w.drawn)) [
          | inl nothing ↦ rw nothing refl
          | inr (token, drawn) ↦ rw drawn refl
        ]
