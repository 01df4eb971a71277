-- ===== src/Server/Photos/Removal.antt =====
-- DELETE /v1/profile/photos/{position}: what it leaves of the table of photos.
use match_camp.Base.{
  ℕ, ◌≤◌, String, ◌≡◌, refl, sym, subst, ◌⊎◌, inl, inr, true, false, not, some, [], ◌∷◌, arith,
  filter, find?, All, Any, All-map_of, find?-Any, find?-none, Any-map_of, In, In-filter,
  All-In_self, All-filter_of, Bool-cases, Option-cases,
}
use match_camp.Database.Models.{Uuid, ProfilePhoto, Db}
use match_camp.Database.Photos.{at_position, delete_profile_photo_by_position}
use match_camp.Database.Photos.Album.{IsAlbum, remove-IsAlbum}
use match_camp.Server.Blocks.{no_content}
use match_camp.Server.Photos.{
  position_of, parse_photo_position, delete_photo_error, remove_profile_photo_object,
  delete_profile_photo,
}
use match_camp.Server.Photos.Keeping.{remove_profile_photo_object-Ends, parse_photo_position-Ends}
use match_camp.Server.Photos.Upload.{position_of-le}
use match_camp.Server.Response.{CurrentUser}
use match_camp.Text.{Text}
use match_camp.Text.Atoi.{atoi}
use match_camp.World.Ends.{Ends, and_then-Ends}
use match_camp.World.Env.{Env, Server, World}
use match_camp.World.Monad.{on_error, lost, run_query}

-- The photo is the user's at the position.
abbrev pub AtPlace : Uuid → ℕ → ProfilePhoto → Type 0
AtPlace user position p = (p.user_id ≡ user) × (p.position ≡ position)

-- The user had a photo at the position; now there is none, and the others are those that were.
abbrev pub IsRemoved : Uuid → ℕ → Db → Db → Type 0
IsRemoved user position before after =
    Any (AtPlace user position) before.profile_photos
    × All (λ q. (¬ AtPlace user position q) × In q before.profile_photos) after.profile_photos
    × All (λ q. AtPlace user position q ⊎ In q after.profile_photos) before.profile_photos
    × IsAlbum after.profile_photos
    × (after ≡ record before { profile_photos = after.profile_photos })

-- The errors: profile_photo_not_found only where the user has no photo at a position from 0 to 2.
abbrev pub RemovalRefused : Uuid → Text → Db → String → Db → Type 0
RemovalRefused user param before code after =
    (after ≡ before)
    × (In code ("invalid_profile_photo_position" ∷ "profile_photo_delete_failed" ∷ [])
        ⊎ ((code ≡ "profile_photo_not_found")
            × ((position : ℕ) × (position_of (atoi param) ≡ some position)
                × All (λ q. ¬ AtPlace user position q) before.profile_photos)))

at_position-AtPlace :
    (user : Uuid) (position : ℕ) (q : ProfilePhoto)
    → at_position user position q ≡ true
    → AtPlace user position q
at_position-AtPlace user position q h = (ground (arith, h), ground (arith, h))

at_position-elsewhere :
    (user : Uuid) (position : ℕ) (q : ProfilePhoto)
    → at_position user position q ≡ false
    → ¬ AtPlace user position q
at_position-elsewhere user position q h (own, same) = ground (arith, h, own, same)

removed :
    (user : Uuid) (position : ℕ) (p : ProfilePhoto) (db : Db)
    → IsAlbum db.profile_photos
    → find? (at_position user position) db.profile_photos ≡ some p
    → IsRemoved user position db (record db {
      profile_photos = filter (λ q. not (at_position user position q)) db.profile_photos;
    })
removed user position p db album found =
    let (hit, there) = find?-Any _ db.profile_photos p found in
    (
      Any-map_of _ _
          (λ q e. subst (AtPlace user position) (sym e) (at_position-AtPlace user position p hit))
          db.profile_photos there,
      All-filter_of _ (λ q. In q db.profile_photos) _
          (λ q among other. (at_position-elsewhere user position q (ground (arith, other)), among))
          db.profile_photos (All-In_self db.profile_photos),
      All-map_of (λ q. In q db.profile_photos) _
          (λ q among. elim (Bool-cases (at_position user position q)) [
            | inl here ↦ inl (at_position-AtPlace user position q here)
            | inr other ↦ inr (
                In-filter (λ r. not (at_position user position r)) q db.profile_photos
                  (ground (arith, other)) among)
          ])
          db.profile_photos (All-In_self db.profile_photos),
      remove-IsAlbum _ db.profile_photos album,
      refl,
    )

deleted-Ends :
    (user : Uuid) (param : Text) (position : ℕ) (w : World)
    → position_of (atoi param) ≡ some position
    → IsAlbum w.db.profile_photos
    → Ends
        (λ _ db'. IsRemoved user position w.db db')
        (RemovalRefused user param w.db)
        (on_error (run_query (delete_profile_photo_by_position user position)) delete_photo_error w)
unfolding on_error run_query delete_profile_photo_by_position
deleted-Ends user param position w place album = elim (Bool-cases (lost w.faults)) [
  | inl fault ↦ rw fault (refl, inl (inr (inl refl)))
  | inr fine ↦ elim (Option-cases (find? (at_position user position) w.db.profile_photos)) [
    | inl nothing ↦ rw fine rw nothing (
      refl,
      inr (
        refl,
        (
          position,
          place,
          All-map_of _ _ (at_position-elsewhere user position) w.db.profile_photos
              (find?-none _ w.db.profile_photos nothing),
        ),
      ),
    )
    | inr (p, found) ↦ rw fine rw found (removed user position p w.db album found)
  ]
]

-- On photos that keep their constraints, DELETE /v1/profile/photos/{position} answers 204 only for a
-- position from 0 to 2 at which the user had a photo; then there is none at this position, every
-- other photo is as it was, the constraints hold, and no other table changes. Any error is one of
-- three codes and leaves the tables as they were; profile_photo_not_found comes only where the user
-- has no photo at the position.
pub delete_profile_photo-Ends :
    (env : Env) (srv : Server) (user : CurrentUser) (param : Text) (w : World)
    → IsAlbum w.db.profile_photos
    → Ends
        (λ resp db'.
          (resp ≡ no_content)
          × ((position : ℕ) × (position_of (atoi param) ≡ some position)
              × (position ≤ 2)
              × IsRemoved user.id position w.db db'))
        (RemovalRefused user.id param w.db)
        (delete_profile_photo env srv user param w)
unfolding delete_profile_photo
delete_profile_photo-Ends env srv user param w album =
    and_then-Ends (λ position db'. (db' ≡ w.db) × (position_of (atoi param) ≡ some position)) _
      Refusal (parse_photo_position param w) _
      (parse_photo_position-Ends Refusal param w (refl, inl (inl refl)))
      λ position w₁ h₁.
        and_then-Ends (λ _ db'. IsRemoved user.id position w.db db') _ Refusal
          (on_error (run_query (delete_profile_photo_by_position user.id position))
            delete_photo_error w₁)
          _
          (subst
            (λ d.
              Ends (λ _ db'. IsRemoved user.id position d db') (RemovalRefused user.id param d)
                (on_error (run_query (delete_profile_photo_by_position user.id position))
                  delete_photo_error w₁))
            h₁.0
            (deleted-Ends user.id param position w₁ h₁.1
              (subst (λ d. IsAlbum d.profile_photos) (sym h₁.0) album)))
          λ photo w₂ h₂.
            and_then-Ends (λ _ db'. IsRemoved user.id position w.db db') _ Refusal
              (remove_profile_photo_object env srv photo.url w₂) _
              (remove_profile_photo_object-Ends Refusal _ env srv photo.url w₂ h₂)
              λ _ w₃ h₃. (refl, (position, h₁.1, position_of-le (atoi param) position h₁.1, h₃))
  where
    Refusal : String → Db → Type 0
    Refusal = RemovalRefused user.id param w.db
