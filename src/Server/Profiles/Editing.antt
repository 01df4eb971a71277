-- ===== src/Server/Profiles/Editing.antt =====
-- What an edit of a profile leaves.
use match_camp.Base.{
  ◌≤◌, String, ◌≡◌, refl, sym, ap, ◌∙◌, ◌⊎◌, inl, inr, true, false, Option, none, some, [], ◌∷◌,
  arith, any, All, Any, any-eq-false, Any-map_of, In, All-In_self, ◌==◌, ==_iff, Bool-cases,
  Option-cases,
}
use match_camp.Database.Models.{Uuid, Date, Profile, Db, has_user}
use match_camp.Database.Profile.{profile_of, profile_check, upsert_profile}
use match_camp.Database.Result.{ok, err, Query}
use match_camp.Server.Payload.{is_empty}
use match_camp.Server.Profiles.{
  ProfileRequest, request_date, profile_too_large, upsert_profile_handler,
}
use match_camp.Server.Profiles.Saving.{update_where-stored}
use match_camp.Server.Profiles.Visibility.{update_where-In, OthersKept}
use match_camp.Server.Response.{saved_status, write_json, CurrentUser, decode_json, lift}
use match_camp.Server.Response.Laws.{decode_json-Ends, lift-Ends}
use match_camp.Text.{Text, byte_len, trim_space}
use match_camp.Text.Dates.{parse_date}
use match_camp.World.Ends.{
  Ends, and_then-Ends, run_query-Ends, on_error-Ends, Ends-weaken, raise_if-Ends,
}
use match_camp.World.Ensures.{Yields}
use match_camp.World.Env.{Env, World}
use match_camp.World.Monad.{raise_if, on_error, run_query}

-- The profile is as visible as that of the user was; a new one is hidden.
abbrev pub VisibleAsBefore : Uuid → Db → Profile → Type 0
VisibleAsBefore user before p =
    Any (λ q. (q.user_id ≡ user) × (q.visible ≡ p.visible)) before.profiles
    ⊎ (All (λ q. (q.user_id == user) ≡ false) before.profiles × (p.visible ≡ false))

-- The user has a profile with these fields.
abbrev pub IsEdited : Uuid → Text → Text → Text → Option Date → Db → Db → Type 0
IsEdited user bio course campus birth before after =
    Any
      (λ p.
        (p.user_id ≡ user)
        × (p.bio ≡ bio)
        × (p.course ≡ course)
        × (p.campus ≡ campus)
        × (p.birth_date ≡ birth)
        × VisibleAsBefore user before p)
      after.profiles
    × OthersKept user before after
    × (after ≡ record before { profiles = after.profiles })

upsert_profile-Yields :
    (user : Uuid) (bio course campus : Text) (birth : Option Date) (db : Db)
    → Yields
        (λ _ after. IsEdited user bio course campus birth db after)
        (upsert_profile user bio course campus birth db)
unfolding upsert_profile
upsert_profile-Yields user bio course campus birth db =
    elim (Bool-cases (profile_check bio course campus)) [
      | inr bad ↦ rw bad tt
      | inl good ↦ elim (Bool-cases (any (profile_of user) db.profiles)) [
        | inl old ↦ rw good rw old (
          update_where-stored _ _ _ _
              (λ p own_in own. (
                (==_iff p.user_id user).0 own,
                refl,
                refl,
                refl,
                refl,
                inl (
                    Any-map_of _ _ (λ q e. rw e ((==_iff p.user_id user).0 own, refl)) db.profiles
                      own_in),
              ))
              db.profiles (All-In_self db.profiles) old,
          (λ p other.
              update_where-In _ _ p (ground (arith, other))
                (λ x own e. other (ap (λ q. q.user_id) (sym e) ∙ (==_iff x.user_id user).0 own))
                db.profiles),
          refl,
        )
        | inr new ↦ elim (Bool-cases (has_user user db)) [
          | inl known ↦ rw good rw new rw known (
            inl (refl, refl, refl, refl, refl, inr (any-eq-false _ db.profiles new, refl)),
            (λ p other. (
              λ h. inr h,
              λ h. elim h [
                | inl e ↦ absurd (other (ap (λ q. q.user_id) (sym e)))
                | inr there ↦ there
              ],
            )),
            refl,
          )
          | inr unknown ↦ rw good rw new rw unknown tt
        ]
      ]
    ]

-- The sizes of a request, in bytes of its trimmed texts.
abbrev pub IsSized : ProfileRequest → Type 0
IsSized req =
    (byte_len (trim_space req.bio) ≤ 500)
    × (byte_len (trim_space req.course) ≤ 120)
    × (byte_len (trim_space req.campus) ≤ 120)

sized : (req : ProfileRequest) → profile_too_large req ≡ false → IsSized req
unfolding profile_too_large
sized req h = ground arith

-- The errors of the endpoint.
abbrev pub EditRefused : Db → String → Db → Type 0
EditRefused before code after =
    In code
      ("invalid_json" ∷ "profile_too_large" ∷ "invalid_birth_date" ∷ "profile_save_failed" ∷ [])
    × (after ≡ before)

request_date_err :
    (s : Text) (code : String) → request_date s ≡ err code → code ≡ "invalid_birth_date"
unfolding request_date
request_date_err s code h = elim (Bool-cases (is_empty (trim_space s))) [
  | inl blank ↦ absurd (ground arith)
  | inr date ↦ elim (Option-cases (parse_date s)) [
    | inl no_date ↦ ground arith
    | inr (d, parsed) ↦ absurd (ground arith)
  ]
]

-- What a birth date of a request means: nothing where it is blank, else the date that it spells.
abbrev pub IsBirth : Text → Option Date → Type 0
IsBirth s birth =
    ((trim_space s ≡ []) × (birth ≡ none))
    ⊎ ((d : Date) × (parse_date s ≡ some d) × (birth ≡ some d))

is_empty_lem : (s : Text) → is_empty s ≡ true → s ≡ []
is_empty_lem [] h = refl
is_empty_lem (c ∷ s) h = absurd (cc h)

request_date_ok : (s : Text) (birth : Option Date) → request_date s ≡ ok birth → IsBirth s birth
unfolding request_date
request_date_ok s birth h = elim (Bool-cases (is_empty (trim_space s))) [
  | inl blank ↦ inl (is_empty_lem (trim_space s) blank, ground (arith, blank, h))
  | inr date ↦ elim (Option-cases (parse_date s)) [
    | inl no_date ↦ absurd (ground (arith, date, no_date, h))
    | inr (d, parsed) ↦ inr (d, parsed, ground (arith, date, parsed, h))
  ]
]

-- PUT /v1/profile answers 200 only for trimmed texts of at most 500, 120 and 120 bytes and a birth
-- date that is blank or a date; the user then has a profile with exactly these, as visible as
-- before, and hidden where it is new; the profiles of everyone else are kept, and only the table of
-- profiles changes. Any error is one of four codes and leaves the tables as they were.
pub upsert_profile_handler-Ends :
    (env : Env) (user : CurrentUser) (payload : Option ProfileRequest) (w : World)
    → Ends
        (λ resp db'.
          (req : ProfileRequest) × (birth : Option Date) × (payload ≡ some req)
          × IsSized req
          × IsBirth req.birth_date birth
          × (resp ≡ write_json 200 saved_status)
          × IsEdited user.id
              (trim_space req.bio)
              (trim_space req.course)
              (trim_space req.campus)
              birth
              w.db
              db')
        (EditRefused w.db)
        (upsert_profile_handler env user payload w)
unfolding upsert_profile_handler
upsert_profile_handler-Ends env user payload w =
    and_then-Ends (λ req db'. (db' ≡ w.db) × (payload ≡ some req)) _ Refusal (decode_json payload w)
      _ (decode_json-Ends Refusal payload w (inl refl, refl))
      λ req w₁ h₁.
        and_then-Ends (λ _ db'. (db' ≡ w.db) × IsSized req) _ Refusal
          (raise_if (profile_too_large req) "profile_too_large" w₁) _
          (raise_if-Ends _ Refusal (profile_too_large req) _ w₁ (λ e. (h₁.0, sized req e))
            (inr (inl refl), h₁.0))
          λ _ w₂ h₂.
            and_then-Ends (λ birth db'. (db' ≡ w.db) × (request_date req.birth_date ≡ ok birth)) _
              Refusal (lift (request_date req.birth_date) w₂) _
              (Ends-weaken _ _ _ _ (lift (request_date req.birth_date) w₂)
                (λ birth db' k. (k.0 ∙ h₂.0, k.1)) (λ _ _ k. k)
                (lift-Ends Refusal (request_date req.birth_date) w₂ (λ code e.
                  (inr (inr (inl (sym (request_date_err req.birth_date code e)))), h₂.0))))
              λ birth w₃ h₃.
                let save : Query (Unit {0}) =
                  upsert_profile user.id (trim_space req.bio) (trim_space req.course)
                    (trim_space req.campus) birth in
                and_then-Ends
                  (λ _ db'.
                    IsEdited user.id (trim_space req.bio) (trim_space req.course)
                      (trim_space req.campus) birth w.db db')
                  _ Refusal (on_error (run_query save) (λ _. "profile_save_failed") w₃) _
                  (on_error-Ends _ Refusal (run_query save) (λ _. "profile_save_failed") w₃
                    (Ends-weaken _ _ _ _ (run_query save w₃) (λ _ db' k. rw (h₃.0) at k)
                      (λ e db' k. (inr (inr (inr (inl refl))), k ∙ h₃.0))
                      (run_query-Ends _ save w₃ (
                        upsert_profile-Yields user.id (trim_space req.bio) (trim_space req.course)
                          (trim_space req.campus) birth w₃.db))))
                  λ _ w₄ h₄.
                    (req, birth, h₁.1, h₂.1, request_date_ok req.birth_date birth h₃.1, refl, h₄)
  where
    Refusal : String → Db → Type 0
    Refusal = EditRefused w.db
