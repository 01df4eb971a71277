-- ===== src/Server/Auth/Lifecycle.antt =====
-- Sessions over several calls: createSession, then requireAuth; logout, then requireAuth.
use match_camp.Base.{
  ◌+◌, ◌≡◌, refl, ◌≢◌, inl, inr, true, false, not, ◌||◌, none, some, List, [], ◌∷◌, arith, any,
  filter, find?, ltb, ◌==◌, if◌then◌else◌, Bool-cases,
}
use match_camp.Database.Auth.{
  user_row, has_token, create_session_row, delete_session_by_token_hash, is_live,
  get_user_by_session_token_hash,
}
use match_camp.Database.Models.{Uuid, Time, User, Session, Db}
use match_camp.Database.Result.{ok, err}
use match_camp.Server.Auth.{
  Request, session_ttl, whole_micros, cookie_value, extract_session_token, current_user,
  new_session_token, time_now, create_session, logout, require_auth,
}
use match_camp.Text.{Text}
use match_camp.Text.Laws.{text_eq_refl}
use match_camp.World.Env.{Env, Server, World}
use match_camp.World.Monad.{raise_if, on_error, ignore, run_query, run_insert, calm}

-- The world at another time of the database's clock.
abbrev pub at : Time → World → World
at t w = record w { db = record w.db { now = t } }

unsigned :
    (hash : Text) (db : Db)
    → find? (is_live hash db) (filter (λ s. not (has_token hash s)) db.sessions) ≡ none
unsigned hash db = go db.sessions
  where
    go :
        (ss : List Session)
        → find? (is_live hash db) (filter (λ s. not (has_token hash s)) ss) ≡ none
    go [] = refl
    go (s ∷ ss) = elim (Bool-cases (has_token hash s)) [
      | inl gone ↦ ground (arith, go ss)
      | inr kept ↦ ground (arith, go ss)
    ]

-- Where no call of PostgreSQL fails, a logout ends every session of the token in its cookie: a
-- later request with this token, which is not empty, is refused with "invalid_session".
pub logout_revokes :
    (env : Env) (srv : Server) (r later : Request) (token : Text) (w : World)
    → cookie_value srv.session_cookie_name r.cookies ≡ some token
    → extract_session_token srv later ≡ token
    → token ≢ []
    → (require_auth env srv later (logout env srv r (calm w)).1).0 ≡ err "invalid_session"
unfolding logout require_auth raise_if on_error run_query ignore delete_session_by_token_hash
    get_user_by_session_token_hash
logout_revokes env srv r later [] w cookie same some_token = absurd (some_token refl)
logout_revokes env srv r later (c ∷ s) w cookie same some_token =
    rw cookie rw same rw (unsigned (env.sha256_hex (c ∷ s)) w.db) refl

-- No session has the hash of a fresh token.
untaken :
    (id : Uuid) (hash : Text) (db : Db) (ss : List Session)
    → any (λ s. s.id == id || has_token hash s) ss ≡ false
    → find? (is_live hash db) ss ≡ none
untaken id hash db [] h = refl
untaken id hash db (s ∷ ss) h = ground (arith, untaken id hash db ss)

find?-any :
    (id : Uuid) (us : List User) (u : User)
    → find? (λ v. v.id == id) us ≡ some u
    → any (λ v. v.id == id) us ≡ true
find?-any id [] u h = cc
find?-any id (v ∷ us) u h = ground (arith, find?-any id us u)

-- Where no call of PostgreSQL fails, a token is drawn, and neither it nor the id of the row is
-- taken, a user on record gets a session; a request with its token, which is not empty, is let
-- through as this user at any time before thirty days have passed, to the microsecond, and refused
-- after them.
pub create_session_authenticates :
    (env : Env) (srv : Server) (r : Request) (user : User) (token : Text) (t : Time) (w : World)
    → env.random_token w.drawn ≡ some token
    → any
        (λ s. s.id == env.gen_random_uuid (w.drawn + 1) || has_token (env.sha256_hex token) s)
        w.db.sessions
      ≡ false
    → find? (λ u. u.id == user.id) w.db.users ≡ some user
    → extract_session_token srv r ≡ token
    → token ≢ []
    → (require_auth env srv r (at t (create_session env srv user.id (calm w)).1)).0 ≡ (
        if ltb t (whole_micros (w.clock + session_ttl))
        then ok (current_user (user_row user))
        else err "invalid_session")
unfolding create_session new_session_token time_now require_auth raise_if on_error run_query
    run_insert create_session_row get_user_by_session_token_hash
create_session_authenticates env srv r user [] t w drawn fresh known same some_token =
    absurd (some_token refl)
create_session_authenticates env srv r user (c ∷ s) t w drawn fresh known same some_token =
    rw drawn rw fresh rw (find?-any user.id w.db.users user known) rw same rw
      (text_eq_refl (env.sha256_hex (c ∷ s)))
      elim (Bool-cases (ltb t (whole_micros (w.clock + session_ttl)))) [
        | inl live ↦ rw live rw known refl
        | inr expired ↦
            rw expired rw (untaken _ _ (record w.db { now = t }) w.db.sessions fresh) refl
      ]
