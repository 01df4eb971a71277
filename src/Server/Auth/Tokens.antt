-- ===== src/Server/Auth/Tokens.antt =====
-- Sessions: what a token gives access to, from createSession to requireAuth and logout.
use match_camp.Base.{
  ◌<◌, String, ◌≡◌, refl, sym, ap, ◌∙◌, ◌≢◌, inl, inr, true, some, [], ◌∷◌, arith, find?, Any,
  find?-Any, Any-map_of, In, ◌==◌, ltb→lt, ==_iff, Option-cases,
}
use match_camp.Database.Auth.{one_row, join_user, is_live, get_user_by_session_token_hash}
use match_camp.Database.Models.{User, Session, Db}
use match_camp.Database.Result.{DbError, no_rows, unique_violation, failed}
use match_camp.Server.Auth.{
  Request, extract_session_token, session_error, current_user, require_auth,
}
use match_camp.Server.Payload.{is_empty}
use match_camp.Server.Response.{CurrentUser}
use match_camp.Text.{Text}
use match_camp.Text.Laws.{text_eq_iff}
use match_camp.World.Ends.{
  Ends, and_then-Ends, run_query-Ends, on_error-Ends, Ends-weaken, raise_if-Ends,
}
use match_camp.World.Ensures.{Yields}
use match_camp.World.Env.{Env, Server, World}
use match_camp.World.Monad.{raise_if, on_error, run_query}

-- `user` is on record, with a session of this hash that has not expired.
abbrev pub IsLoggedIn : Text → CurrentUser → Db → Type 0
IsLoggedIn hash user db =
    Any (λ s. (s.token_hash ≡ hash) × (db.now < s.expires_at) × (s.user_id ≡ user.id)) db.sessions
    × Any (λ u. (u.id ≡ user.id) × (u.email ≡ user.email) × (u.display_name ≡ user.name)) db.users

-- What `get_user_by_session_token_hash` returns is logged in.
session-IsLoggedIn :
    (hash : Text) (db : Db)
    → Yields
        (λ row db'. (db' ≡ db) × IsLoggedIn hash (current_user row) db)
        (get_user_by_session_token_hash hash db)
unfolding get_user_by_session_token_hash
session-IsLoggedIn hash db = elim (Option-cases (find? (is_live hash db) db.sessions)) [
  | inl missing ↦ rw missing tt
  | inr (s, found) ↦ rw found (with_user s found)
]
  where
    alive :
        (s : Session) → is_live hash db s ≡ true → (s.token_hash ≡ hash) × (db.now < s.expires_at)
    alive s e = (
      (text_eq_iff s.token_hash hash).0 (ground arith),
      ltb→lt db.now s.expires_at (ground arith),
    )

    with_user :
        (s : Session)
        → find? (is_live hash db) db.sessions ≡ some s
        → Yields
            (λ row db'. (db' ≡ db) × IsLoggedIn hash (current_user row) db)
            (one_row (join_user (some s.user_id) db) db)
    with_user s found = elim (Option-cases (find? (λ (u : User). u.id == s.user_id) db.users)) [
      | inl missing ↦ rw missing tt
      | inr (u, known) ↦
          let live = find?-Any (is_live hash db) db.sessions s found in
          let same = find?-Any (λ (v : User). v.id == s.user_id) db.users u known in
          let owner = (==_iff u.id s.user_id).0 same.0 in
          rw known (
            refl,
            (
              Any-map_of (λ z. z ≡ s) _
                  (λ z e. rw e ((alive s live.0).0, (alive s live.0).1, sym owner)) db.sessions
                  live.1,
              Any-map_of (λ z. z ≡ u) _ (λ z e. rw e (refl, refl, refl)) db.users same.1,
            ),
          )
    ]

-- The errors of the guard.
abbrev pub Denied : Db → String → Db → Type 0
Denied before code after =
    In code ("missing_session" ∷ "invalid_session" ∷ "session_lookup_failed" ∷ [])
    × (after ≡ before)

session_error-Denied :
    (before : Db) (e : DbError) (after : Db)
    → after ≡ before
    → Denied before (session_error e) after
session_error-Denied before no_rows after h = (ground arith, h)
session_error-Denied before unique_violation after h = (ground arith, h)
session_error-Denied before failed after h = (ground arith, h)

-- requireAuth lets a request through as a user only when the user is on record and has a session
-- that has not expired by the database's clock and whose hash is that of a non-empty token of the
-- request; else it answers one of its three codes. It changes no table either way.
pub require_auth-Ends :
    (env : Env) (srv : Server) (r : Request) (w : World)
    → Ends
        (λ user db'.
          (db' ≡ w.db)
          × (extract_session_token srv r ≢ [])
          × IsLoggedIn (env.sha256_hex (extract_session_token srv r)) user w.db)
        (Denied w.db)
        (require_auth env srv r w)
unfolding require_auth
require_auth-Ends env srv r w =
    and_then-Ends (λ _ db'. (db' ≡ w.db) × (extract_session_token srv r ≢ [])) _ (Denied w.db)
      (raise_if (is_empty (extract_session_token srv r)) "missing_session" w) _
      (raise_if-Ends _ (Denied w.db) (is_empty (extract_session_token srv r)) _ w
        (λ some_token. (refl, λ e. absurd (cc (some_token, ap is_empty e)))) (inl refl, refl))
      λ _ w₁ h₁.
        and_then-Ends (λ row db'. (db' ≡ w.db) × IsLoggedIn hash (current_user row) w.db) _
          (Denied w.db)
          (on_error (run_query (get_user_by_session_token_hash hash)) session_error w₁) _
          (on_error-Ends _ (Denied w.db) (run_query (get_user_by_session_token_hash hash))
            session_error w₁
            (Ends-weaken _ _ _ _ (run_query (get_user_by_session_token_hash hash) w₁)
              (λ row db' k. (k.0 ∙ h₁.0, rw h₁.0 at k.1))
              (λ e db' k. session_error-Denied w.db e db' (k ∙ h₁.0))
              (run_query-Ends _ (get_user_by_session_token_hash hash) w₁
                (session-IsLoggedIn hash w₁.db))))
          λ row w₂ h₂. (h₂.0, h₁.1, h₂.1)
  where
    hash : Text
    hash = env.sha256_hex (extract_session_token srv r)
