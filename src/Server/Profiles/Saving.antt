-- ===== src/Server/Profiles/Saving.antt =====
-- What the save of preferences leaves.
use match_camp.Base.{
  ℕ, String, ◌≡◌, refl, ap, ◌∙◌, inl, inr, Bool, true, false, ◌&&◌, Option, some, List, [], ◌∷◌,
  pos, any, All, Any, Any-map_of, In, All-In_self, leb, Bool-cases,
}
use match_camp.Database.Models.{Uuid, Db, has_user}
use match_camp.Database.Profile.{update_where, preference_of, upsert_preferences}
use match_camp.Database.Result.{Query}
use match_camp.Server.Profiles.{
  PreferencesRequest, magnitude_of, invalid_preferences, upsert_preferences_handler,
}
use match_camp.Server.Profiles.Preferences.{IsPreference, invalid_preferences_iff}
use match_camp.Server.Response.{preferences, write_json, CurrentUser, decode_json}
use match_camp.Server.Response.Laws.{decode_json-Ends}
use match_camp.World.Ends.{
  Ends, and_then-Ends, run_query-Ends, on_error-Ends, Ends-weaken, raise_if-Ends,
}
use match_camp.World.Ensures.{Yields}
use match_camp.World.Env.{Env, World}
use match_camp.World.Monad.{raise_if, on_error, run_query}

-- Where a row passes, the update leaves a row of which Q holds, from what held of the old rows.
pub update_where-stored :
    {A : Type 0} (p : A → Bool) (f : A → A) (P Q : A → Type 0)
    → ((x : A) → P x → p x ≡ true → Q (f x))
    → (xs : List A) → All P xs
    → any p xs ≡ true
    → Any Q (update_where p f xs)
update_where-stored p f P Q k [] a h = cc
update_where-stored p f P Q k (x ∷ xs) a h = elim (Bool-cases (p x)) [
  | inl here ↦ rw here (inl (k x a.0 here))
  | inr other ↦ rw other (inr (update_where-stored p f P Q k xs a.1 (rw other at h)))
]

-- The preferences of the user as the next page of discovery reads them.
abbrev pub HasPreferences : Uuid → String → ℕ → ℕ → Db → Type 0
HasPreferences user interest lo hi db =
    Any
      (λ p. (p.user_id ≡ user) × (p.interested_in ≡ interest) × (p.min_age ≡ lo) × (p.max_age ≡ hi))
      db.profile_preferences

upsert_preferences-Yields :
    (user : Uuid) (interest : String) (lo hi : ℕ) (db : Db)
    → Yields
        (λ _ db'.
          HasPreferences user interest lo hi db'
          × (db' ≡ record db { profile_preferences = db'.profile_preferences }))
        (upsert_preferences user interest lo hi db)
unfolding upsert_preferences
upsert_preferences-Yields user interest lo hi db = elim (Bool-cases (leb 18 lo && leb lo hi)) [
  | inr bad ↦ rw bad tt
  | inl good ↦ elim (Bool-cases (any (preference_of user) db.profile_preferences)) [
    | inl old ↦ rw good rw old (
      update_where-stored _ _ (λ x. In x db.profile_preferences) _
          (λ x _ _. (refl, refl, refl, refl)) db.profile_preferences
          (All-In_self db.profile_preferences) old,
      refl,
    )
    | inr new ↦ elim (Bool-cases (has_user user db)) [
      | inl known ↦ rw good rw new rw known (inl (refl, refl, refl, refl), refl)
      | inr unknown ↦ rw good rw new rw unknown tt
    ]
  ]
]

-- The errors of the endpoint.
abbrev pub PreferencesRefused : Db → String → Db → Type 0
PreferencesRefused before code after =
    In code ("invalid_json" ∷ "invalid_preferences_payload" ∷ "preferences_save_failed" ∷ [])
    × (after ≡ before)

-- PUT /v1/profile/preferences answers 200 only for an interest that is "everyone", "men" or "women" with
-- ages from 18 to 99 in order; these are then the user's preferences on record, and only the table
-- of preferences changes. Any error is one of three codes and leaves the tables as they were.
pub upsert_preferences_handler-Ends :
    (env : Env) (user : CurrentUser) (payload : Option PreferencesRequest) (w : World)
    → Ends
        (λ resp db'.
          (req : PreferencesRequest) × (lo : ℕ) × (hi : ℕ) × (payload ≡ some req)
          × IsPreference req lo hi
          × (resp ≡ write_json 200 (preferences req.interested_in (pos lo) (pos hi)))
          × HasPreferences user.id req.interested_in lo hi db'
          × (db' ≡ record w.db { profile_preferences = db'.profile_preferences }))
        (PreferencesRefused w.db)
        (upsert_preferences_handler env user payload w)
unfolding upsert_preferences_handler
upsert_preferences_handler-Ends env user payload w =
    and_then-Ends (λ req db'. (db' ≡ w.db) × (payload ≡ some req)) _ Refusal (decode_json payload w)
      _ (decode_json-Ends Refusal payload w (inl refl, refl))
      λ req w₁ h₁.
        and_then-Ends (λ _ db'. (db' ≡ w.db) × (invalid_preferences req ≡ false)) _ Refusal
          (raise_if (invalid_preferences req) "invalid_preferences_payload" w₁) _
          (raise_if-Ends _ Refusal (invalid_preferences req) _ w₁ (λ e. (h₁.0, e))
            (inr (inl refl), h₁.0))
          λ _ w₂ h₂.
            let fits = (invalid_preferences_iff req).0 h₂.1 in
            let lo : ℕ = fits.0 in
            let hi : ℕ = fits.1 in
            let save : Query (Unit {0}) =
              upsert_preferences user.id req.interested_in (magnitude_of req.min_age)
                (magnitude_of req.max_age) in
            and_then-Ends
              (λ _ db'.
                HasPreferences user.id req.interested_in (magnitude_of req.min_age)
                  (magnitude_of req.max_age) db'
                × (db' ≡ record w.db { profile_preferences = db'.profile_preferences }))
              _ Refusal (on_error (run_query save) (λ _. "preferences_save_failed") w₂) _
              (on_error-Ends _ Refusal (run_query save) (λ _. "preferences_save_failed") w₂
                (Ends-weaken _ _ _ _ (run_query save w₂) (λ _ db' k. (k.0, rw (h₂.0) at k.1))
                  (λ e db' k. (inr (inr (inl refl)), k ∙ h₂.0))
                  (run_query-Ends _ save w₂ (
                    upsert_preferences-Yields user.id req.interested_in (magnitude_of req.min_age)
                      (magnitude_of req.max_age) w₂.db))))
              λ _ w₃ h₃. (
                req,
                lo,
                hi,
                h₁.1,
                fits.2,
                shown req lo hi fits.2,
                kept req lo hi w₃.db fits.2 h₃.0,
                h₃.1,
              )
  where
    Refusal : String → Db → Type 0
    Refusal = PreferencesRefused w.db

    shown :
        (req : PreferencesRequest) (lo hi : ℕ)
        → IsPreference req lo hi
        → write_json 200 (preferences req.interested_in req.min_age req.max_age)
          ≡ write_json 200 (preferences req.interested_in (pos lo) (pos hi))
    shown req lo hi fits = rw (fits.1) rw (fits.2) refl

    kept :
        (req : PreferencesRequest) (lo hi : ℕ) (db : Db)
        → IsPreference req lo hi
        → HasPreferences user.id req.interested_in
            (magnitude_of req.min_age)
            (magnitude_of req.max_age)
            db
        → HasPreferences user.id req.interested_in lo hi db
    kept req lo hi db fits h =
        Any-map_of _ _
          (λ p k. (k.0, k.1, k.2 ∙ ap magnitude_of fits.1, k.3 ∙ ap magnitude_of fits.2))
          db.profile_preferences h
