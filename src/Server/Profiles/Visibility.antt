-- ===== src/Server/Profiles/Visibility.antt =====
-- What the change of visibility does to the profiles.
use match_camp.Base.{
  ℕ, String, ◌≡◌, refl, sym, ap, ◌∙◌, ◌≢◌, ◌↔◌, inl, inr, Bool, true, false, Option, some, List, [],
  ◌∷◌, arith, length, filter, Any, In, ltb, ◌==◌, ==_iff, Bool-cases,
}
use match_camp.Database.Models.{Uuid, Profile, Db}
use match_camp.Database.Profile.{update_where, is_complete, update_profile_visibility}
use match_camp.Server.Profiles.{update_visibility}
use match_camp.Server.Response.{visibility, write_json, CurrentUser, decode_json}
use match_camp.Server.Response.Laws.{decode_json-Ends}
use match_camp.Text.{Text}
use match_camp.World.Ends.{
  Ends, and_then-Ends, run_query-Ends, on_error-Ends, Ends-weaken, raise_if_so-Ends,
}
use match_camp.World.Ensures.{Yields}
use match_camp.World.Env.{Env, World}
use match_camp.World.Monad.{raise_if, on_error, run_query}

update_where-none :
    {A : Type 0} (p : A → Bool) (f : A → A) (xs : List A)
    → length (filter p xs) ≡ 0
    → update_where p f xs ≡ xs
update_where-none p f [] h = refl
update_where-none p f (x ∷ xs) h = elim (Bool-cases (p x)) [
  | inl here ↦ absurd (ground arith)
  | inr other ↦ rw other (ap (λ t. x ∷ t) (update_where-none p f xs (rw other at h)))
]

update_where-Any :
    {A : Type 0} (p : A → Bool) (f : A → A) (Q : A → Type 0)
    → ((x : A) → p x ≡ true → Q (f x))
    → (xs : List A) → length (filter p xs) ≢ 0
    → Any Q (update_where p f xs)
update_where-Any p f Q k [] h = absurd (h refl)
update_where-Any p f Q k (x ∷ xs) h = elim (Bool-cases (p x)) [
  | inl here ↦ rw here (inl (k x here))
  | inr other ↦ rw other (inr (update_where-Any p f Q k xs (rw other at h)))
]

-- A row that the update does not touch, and that is not the image of one, is there before and after.
pub update_where-In :
    {A : Type 0} (p : A → Bool) (f : A → A) (y : A)
    → p y ≡ false
    → ((x : A) → p x ≡ true → f x ≢ y)
    → (xs : List A) → In y xs ↔ In y (update_where p f xs)
update_where-In p f y away apart [] = (λ h. h, λ h. h)
update_where-In p f y away apart (x ∷ xs) =
    let rest = update_where-In p f y away apart xs in
    elim (Bool-cases (p x)) [
      | inl here ↦ rw here (
        λ h. elim h [ inl e ↦ absurd (cc (here, away, e)) | inr there ↦ inr (rest.0 there) ],
        λ h. elim h [ inl e ↦ absurd (apart x here e) | inr there ↦ inr (rest.1 there) ],
      )
      | inr other ↦ rw other (
        λ h. elim h [ inl e ↦ inl e | inr there ↦ inr (rest.0 there) ],
        λ h. elim h [ inl e ↦ inl e | inr there ↦ inr (rest.1 there) ],
      )
    ]

-- A profile of the user that has a course and a campus, and this visibility.
abbrev pub IsShown : Uuid → Bool → Profile → Type 0
IsShown user_id visible p =
    (p.user_id ≡ user_id) × (p.course ≢ []) × (p.campus ≢ []) × (p.visible ≡ visible)

-- The profiles of everyone else are the same ones.
abbrev pub OthersKept : Uuid → Db → Db → Type 0
OthersKept user_id before after =
    (p : Profile) → p.user_id ≢ user_id → In p before.profiles ↔ In p after.profiles

filled : (s : Text) → ltb 0 (length s) ≡ true → s ≢ []
filled [] h = cc
filled (c ∷ s) h = λ e. cc

incomplete_of_other :
    (user_id : Uuid) (p : Profile) → p.user_id ≢ user_id → is_complete user_id p ≡ false
unfolding is_complete
incomplete_of_other user_id p other =
    let away : (p.user_id == user_id) ≡ false = ground (arith, other) in rw away refl

complete_of_user :
    (user_id : Uuid) (p : Profile) → is_complete user_id p ≡ true → p.user_id ≡ user_id
unfolding is_complete
complete_of_user user_id p h = (==_iff p.user_id user_id).0 (ground arith)

complete-IsShown :
    (user_id : Uuid) (visible : Bool) (now : ℕ) (p : Profile)
    → is_complete user_id p ≡ true
    → IsShown user_id visible (record p { visible = visible; updated_at = now })
unfolding is_complete
complete-IsShown user_id visible now p h =
    (ground arith, filled p.course (ground arith), filled p.campus (ground arith), refl)

update_profile_visibility-Yields :
    (user_id : Uuid) (visible : Bool) (db : Db)
    → Yields
        (λ rows db'.
          OthersKept user_id db db'
          × (db' ≡ record db { profiles = db'.profiles })
          × (rows ≡ 0 → db' ≡ db)
          × (rows ≢ 0 → Any (IsShown user_id visible) db'.profiles))
        (update_profile_visibility user_id visible db)
unfolding update_profile_visibility
update_profile_visibility-Yields user_id visible db = (
  λ p other.
      update_where-In _ _ p (incomplete_of_other user_id p other)
        (λ x own e. other (ap (λ q. q.user_id) (sym e) ∙ complete_of_user user_id x own))
        db.profiles,
  refl,
  λ z. ap (λ ps. record db { profiles = ps }) (update_where-none _ _ db.profiles z),
  λ nz. update_where-Any _ _ _ (complete-IsShown user_id visible db.now) db.profiles nz,
)

-- The errors of the endpoint.
abbrev pub VisibilityRefused : Db → String → Db → Type 0
VisibilityRefused before code after =
    In code ("invalid_json" ∷ "visibility_update_failed" ∷ "profile_incomplete" ∷ [])
    × (after ≡ before)

-- PATCH /v1/profile/visibility answers with the visibility asked for only where the user now has a
-- profile with a course, a campus and that visibility; the profiles of everyone else are kept, and
-- only the table of profiles changes. Any error is one of three codes, profile_incomplete among
-- them, and leaves the tables as they were.
pub update_visibility-Ends :
    (env : Env) (user : CurrentUser) (payload : Option Bool) (w : World)
    → Ends
        (λ resp db'.
          (visible : Bool) × (payload ≡ some visible)
          × (resp ≡ write_json 200 (visibility visible))
          × Any (IsShown user.id visible) db'.profiles
          × OthersKept user.id w.db db'
          × (db' ≡ record w.db { profiles = db'.profiles }))
        (VisibilityRefused w.db)
        (update_visibility env user payload w)
unfolding update_visibility
update_visibility-Ends env user payload w =
    and_then-Ends (λ visible db'. (db' ≡ w.db) × (payload ≡ some visible)) _ Refusal
      (decode_json payload w) _ (decode_json-Ends Refusal payload w (inl refl, refl))
      λ visible w₁ h₁.
        and_then-Ends
          (λ rows db'.
            OthersKept user.id w.db db'
            × (db' ≡ record w.db { profiles = db'.profiles })
            × (rows ≡ 0 → db' ≡ w.db)
            × (rows ≢ 0 → Any (IsShown user.id visible) db'.profiles))
          _ Refusal
          (on_error (run_query (update_profile_visibility user.id visible))
            (λ _. "visibility_update_failed") w₁)
          _
          (on_error-Ends _ Refusal (run_query (update_profile_visibility user.id visible))
            (λ _. "visibility_update_failed") w₁
            (Ends-weaken _ _ _ _ (run_query (update_profile_visibility user.id visible) w₁)
              (λ _ db' k. rw (h₁.0) at k) (λ e db' k. (inr (inl refl), k ∙ h₁.0))
              (run_query-Ends _ (update_profile_visibility user.id visible) w₁
                (update_profile_visibility-Yields user.id visible w₁.db))))
          λ rows w₂ h₂.
            and_then-Ends (λ _ db'. (db' ≡ w₂.db) × (rows ≢ 0)) _ Refusal
              (raise_if (rows == 0) "profile_incomplete" w₂) _
              (raise_if_so-Ends _ Refusal (rows == 0) _ w₂ (λ k. (refl, λ z. ground (arith, k, z)))
                (λ z. (inr (inr (inl refl)), h₂.2 ((==_iff rows 0).0 z))))
              λ _ w₃ h₃. rw (h₃.0) (visible, h₁.1, refl, h₂.3 (h₃.1), h₂.0, h₂.1)
  where
    Refusal : String → Db → Type 0
    Refusal = VisibilityRefused w.db
