-- ===== src/Server/Swipe/Handler.antt =====
-- POST /v1/swipes as a whole: its guards, its errors, and what it answers.
use match_camp.Base.{
  String, ◌≡◌, refl, ◌∙◌, ◌≢◌, ◌⊎◌, inl, inr, false, not, Option, some, List, [], ◌∷◌, arith,
  eq_iff, All, In,
}
use match_camp.Apperror.{lookup}
use match_camp.Apperror.Laws.{IsKnown}
use match_camp.Database.Models.{Uuid, uuid_nil, Db}
use match_camp.Database.Mutual.{IsSound}
use match_camp.Database.Result.{DbError, no_rows, unique_violation, failed}
use match_camp.Server.Response.{Response, CurrentUser, decode_json}
use match_camp.Server.Response.Laws.{decode_json-Ends}
use match_camp.Server.Swipe.{
  SwipeRequest, Made, record_swipe, swipe_error, swipe_allowed, invalid_swipe, swipe_response,
  swipe,
}
use match_camp.Server.Swipe.Mutual.{Recorded, record_swipe-Ends}
use match_camp.World.Ends.{Ends, and_then-Ends, on_error-Ends, Ends-weaken, raise_if-Ends}
use match_camp.World.Env.{Env, World}
use match_camp.World.Monad.{raise_if, on_error}

-- What the guard lets through.
pub record IsProper (user : Uuid) (req : SwipeRequest) : Type 0 where
  pub somebody : req.target_user_id ≢ uuid_nil
  pub other : req.target_user_id ≢ user
  pub known_action : (req.action ≡ "like") ⊎ (req.action ≡ "pass")

IsProper-of_guard :
    (user : Uuid) (req : SwipeRequest) (env : Env)
    → invalid_swipe env user req ≡ false
    → IsProper user req
unfolding invalid_swipe
IsProper-of_guard user req env h =
    ground (arith, eq_iff req.action "like", eq_iff req.action "pass")

-- The errors of the endpoint.
abbrev pub swipe_codes : List String
swipe_codes =
    "rate_limit_exceeded" ∷ "invalid_json" ∷ "invalid_swipe" ∷ "swipe_already_exists"
    ∷ "swipe_failed" ∷ []

swipe_codes-IsKnown : All IsKnown swipe_codes
unfolding lookup
swipe_codes-IsKnown = (refl, (refl, (refl, (refl, (refl, tt)))))

abbrev pub Refused : Db → String → Db → Type 0
Refused before code after = In code swipe_codes × (after ≡ before)

-- What a 201 answers.
abbrev pub Answered : Env → CurrentUser → Option SwipeRequest → Response → Db → Type 0
Answered env user payload resp db =
    (req : SwipeRequest) × (made : Made) × (payload ≡ some req)
    × IsProper user.id req
    × (resp ≡ swipe_response env made)
    × Recorded env user.id req.target_user_id req.action made db

swipe_error-Refused :
    (env : Env) (before : Db) (e : DbError) (after : Db)
    → after ≡ before
    → Refused before (swipe_error env e) after
swipe_error-Refused env before no_rows after h = (ground arith, h)
swipe_error-Refused env before unique_violation after h = (ground arith, h)
swipe_error-Refused env before failed after h = (ground arith, h)

-- On sound tables POST /v1/swipes answers 201 only to a decoded request for another user with the
-- action "like" or "pass"; the tables stay sound, and a like is answered with the match and its
-- conversation, on record with both members, exactly where the target had liked the user. Any
-- error is one of the five codes of the endpoint, and leaves the tables as they were.
pub swipe-Ends :
    (env : Env) (user : CurrentUser) (payload : Option SwipeRequest) (w : World)
    → IsSound w.db
    → Ends (Answered env user payload) (Refused w.db) (swipe env user payload w)
unfolding swipe
swipe-Ends env user payload w s =
    and_then-Ends (λ _ db'. db' ≡ w.db) (Answered env user payload) (Refused w.db)
      (swipe_allowed env user.id w) _ (unfold swipe_allowed in refl)
      λ passed w₁ h₁.
        and_then-Ends (λ _ db'. db' ≡ w.db) (Answered env user payload) (Refused w.db)
          (raise_if (not passed) "rate_limit_exceeded" w₁) _
          (raise_if-Ends _ (Refused w.db) (not passed) _ w₁ (λ _. h₁) (inl refl, h₁))
          λ _ w₂ h₂.
            and_then-Ends (λ req db'. (db' ≡ w.db) × (payload ≡ some req))
              (Answered env user payload) (Refused w.db) (decode_json payload w₂) _
              (decode_ends w₂ h₂)
              λ req w₃ h₃.
                and_then-Ends (λ _ db'. (db' ≡ w.db) × IsProper user.id req)
                  (Answered env user payload) (Refused w.db)
                  (raise_if (invalid_swipe env user.id req) "invalid_swipe" w₃) _
                  (raise_if-Ends _ (Refused w.db) (invalid_swipe env user.id req) _ w₃
                    (λ proper. (h₃.0, IsProper-of_guard user.id req env proper))
                    (inr (inr (inl refl)), h₃.0))
                  λ _ w₄ h₄.
                    and_then-Ends
                      (λ made db'. Recorded env user.id req.target_user_id req.action made db')
                      (Answered env user payload) (Refused w.db)
                      (on_error (record_swipe env user.id req.target_user_id req.action)
                        (swipe_error env) w₄)
                      _
                      (on_error-Ends _ (Refused w.db)
                        (record_swipe env user.id req.target_user_id req.action) (swipe_error env)
                        w₄
                        (Ends-weaken _ _ _ _
                          (record_swipe env user.id req.target_user_id req.action w₄)
                          (λ made db' k. k)
                          (λ e db' k. swipe_error-Refused env w.db e db' (k ∙ h₄.0))
                          (record_swipe-Ends env user.id req.target_user_id req.action w₄
                            (rw h₄.0 s))))
                      λ made w₅ h₅. (req, made, h₃.1, h₄.1, refl, h₅)
  where
    decode_ends :
        (w₂ : World)
        → w₂.db ≡ w.db
        → Ends
            (λ req db'. (db' ≡ w.db) × (payload ≡ some req))
            (Refused w.db)
            (decode_json payload w₂)
    decode_ends w₂ h =
        Ends-weaken _ _ _ _ (decode_json payload w₂) (λ req db' k. (k.0 ∙ h, k.1)) (λ _ _ k. k)
          (decode_json-Ends (Refused w.db) payload w₂ (inr (inl refl), h))
