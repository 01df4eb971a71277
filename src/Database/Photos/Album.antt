-- ===== src/Database/Photos/Album.antt =====
-- The photos as their constraints keep them: positions 0 to 2, one photo at each.
use match_camp.Base.{
  ℕ, ◌≤◌, ◌≡◌, refl, ap, ◌≢◌, inl, inr, Bool, true, false, not, Option, none, some, List, [], ◌∷◌,
  arith, any, filter, find?, All, All-map_of, All-filter, any-eq-false, find?-Any, find?-none, In,
  Pairwise, ◌==◌, ==_refl, Bool-cases,
}
use match_camp.Database.Models.{Uuid, Time, ProfilePhoto, Db, has_user}
use match_camp.Database.Photos.{
  at_position, photo_check, replace_photo, insert_or_replace, upsert_profile_photo,
}
use match_camp.Database.Profile.{update_where}
use match_camp.Text.{Text}
use match_camp.World.Ensures.{Yields}

abbrev pub SamePlace : ProfilePhoto → ProfilePhoto → Type 0
SamePlace p q = (p.user_id ≡ q.user_id) × (p.position ≡ q.position)

pub record IsAlbum (photos : List ProfilePhoto) : Type 0 where
  pub in_range : All (λ p. p.position ≤ 2) photos
  pub one_each : Pairwise (λ p q. ¬ SamePlace p q) photos
  pub photo_ids : Pairwise (λ p q. p.id ≢ q.id) photos

-- the photos but that of one place
abbrev pub elsewhere : Uuid → ℕ → List ProfilePhoto → List ProfilePhoto
elsewhere user_id position photos = filter (λ q. not (at_position user_id position q)) photos

module _ {A : Type 0} where
  pub All-update_where :
      (P : A → Type 0) (p : A → Bool) (f : A → A)
      → ((x : A) → P x → P (f x))
      → (xs : List A) → All P xs
      → All P (update_where p f xs)
  All-update_where P p f keep [] h = tt
  All-update_where P p f keep (x ∷ xs) h = elim (Bool-cases (p x)) [
    | inl hit ↦ rw hit (keep x h.0, All-update_where P p f keep xs h.1)
    | inr miss ↦ rw miss (h.0, All-update_where P p f keep xs h.1)
  ]

  -- A relation that a change on either side keeps.
  pub Pairwise-update_where :
      (R : A → A → Type 0) (p : A → Bool) (f : A → A)
      → ((x y : A) → R x y → R (f x) y)
      → ((x y : A) → R x y → R x (f y))
      → (xs : List A) → Pairwise R xs
      → Pairwise R (update_where p f xs)
  Pairwise-update_where R p f left right [] h = tt
  Pairwise-update_where R p f left right (x ∷ xs) h = elim (Bool-cases (p x)) [
    | inl hit ↦ rw hit (
      All-update_where (R (f x)) p f (right (f x)) xs (All-map_of (R x) (R (f x)) (left x) xs h.0),
      Pairwise-update_where R p f left right xs h.1,
    )
    | inr miss ↦
        rw miss (
          All-update_where (R x) p f (right x) xs h.0,
          Pairwise-update_where R p f left right xs h.1,
        )
  ]

  pub In-update_where :
      (p : A → Bool) (f : A → A) (x : A) (xs : List A)
      → p x ≡ true
      → In x xs
      → In (f x) (update_where p f xs)
  In-update_where p f x [] hit h = elim h [ ]
  In-update_where p f x (y ∷ ys) hit (inl e) = inl (rw e rw hit refl)
  In-update_where p f x (y ∷ ys) hit (inr h) = inr (In-update_where p f x ys hit h)

  pub Pairwise-filter :
      (R : A → A → Type 0) (p : A → Bool) (xs : List A) → Pairwise R xs → Pairwise R (filter p xs)
  Pairwise-filter R p [] h = tt
  Pairwise-filter R p (x ∷ xs) h = elim (Bool-cases (p x)) [
    | inl kept ↦ rw kept (All-filter (R x) p xs h.0, Pairwise-filter R p xs h.1)
    | inr dropped ↦ rw dropped (Pairwise-filter R p xs h.1)
  ]

replace-IsAlbum :
    (user_id : Uuid) (position : ℕ) (url : Text) (now : Time) (photos : List ProfilePhoto)
    → IsAlbum photos
    → IsAlbum (update_where (at_position user_id position) (replace_photo url now) photos)
unfolding replace_photo
replace-IsAlbum user_id position url now photos h = record {
  in_range = All-update_where _ _ (replace_photo url now) (λ x k. k) photos h.in_range;
  one_each =
      Pairwise-update_where _ _ (replace_photo url now) (λ x y k. k) (λ x y k. k) photos h.one_each;
  photo_ids =
      Pairwise-update_where _ _ (replace_photo url now) (λ x y k. k) (λ x y k. k) photos
        h.photo_ids;
}

insert-IsAlbum :
    (row : ProfilePhoto) (photos : List ProfilePhoto)
    → row.position ≤ 2
    → any (λ (p : ProfilePhoto). p.id == row.id) photos ≡ false
    → find? (at_position row.user_id row.position) photos ≡ none
    → IsAlbum photos
    → IsAlbum (row ∷ photos)
insert-IsAlbum row photos low fresh free h = record {
  in_range = (low, h.in_range);
  one_each = (
    All-map_of (λ p. at_position row.user_id row.position p ≡ false) (λ p. ¬ SamePlace row p)
        (λ p e same. ground arith) photos (find?-none _ photos free),
    h.one_each,
  );
  photo_ids = (
    All-map_of (λ p. (p.id == row.id) ≡ false) (λ p. row.id ≢ p.id) (λ p e. ground arith) photos
        (any-eq-false _ photos fresh),
    h.photo_ids,
  );
}

pub remove-IsAlbum :
    (p : ProfilePhoto → Bool) (photos : List ProfilePhoto)
    → IsAlbum photos
    → IsAlbum (filter p photos)
remove-IsAlbum p photos h = record {
  in_range = All-filter _ p photos h.in_range;
  one_each = Pairwise-filter _ p photos h.one_each;
  photo_ids = Pairwise-filter _ p photos h.photo_ids;
}

elsewhere-replaced :
    (user_id : Uuid) (position : ℕ) (url : Text) (now : Time) (photos : List ProfilePhoto)
    → elsewhere user_id position
        (update_where (at_position user_id position) (replace_photo url now) photos)
      ≡ elsewhere user_id position photos
unfolding replace_photo
elsewhere-replaced user_id position url now [] = refl
elsewhere-replaced user_id position url now (p ∷ ps) =
    elim (Bool-cases (at_position user_id position p)) [
      | inl hit ↦ rw hit rw hit (elsewhere-replaced user_id position url now ps)
      | inr miss ↦
          rw miss rw miss (ap (λ l. p ∷ l) (elsewhere-replaced user_id position url now ps))
    ]

-- A row at a place, and the table after it was saved.
abbrev pub IsSaved : Uuid → ℕ → Text → Db → ProfilePhoto → Db → Type 0
IsSaved user_id position url before photo after =
    (photo.user_id ≡ user_id)
    × (photo.position ≡ position)
    × (photo.url ≡ url)
    × In photo after.profile_photos
    × (elsewhere user_id position after.profile_photos
        ≡ elsewhere user_id position before.profile_photos)
    × IsAlbum after.profile_photos
    × (after ≡ record before { profile_photos = after.profile_photos })

insert_or_replace-Yields :
    (id user_id : Uuid) (url : Text) (position : ℕ) (db : Db) (o : Option ProfilePhoto)
    → find? (at_position user_id position) db.profile_photos ≡ o
    → position ≤ 2
    → IsAlbum db.profile_photos
    → Yields (IsSaved user_id position url db) (insert_or_replace id user_id url position o db)
unfolding replace_photo
insert_or_replace-Yields id user_id url position db (some p) found low h =
    let (hit, there) = find?-Any (at_position user_id position) db.profile_photos p found in
    (
      ground (arith, hit),
      ground (arith, hit),
      refl,
      In-update_where (at_position user_id position) (replace_photo url db.now) p db.profile_photos
          hit there,
      elsewhere-replaced user_id position url db.now db.profile_photos,
      replace-IsAlbum user_id position url db.now db.profile_photos h,
      refl,
    )
insert_or_replace-Yields id user_id url position db none found low h =
    elim (Bool-cases (any (λ (p : ProfilePhoto). p.id == id) db.profile_photos)) [
      | inl taken ↦ rw taken tt
      | inr fresh ↦ elim (Bool-cases (has_user user_id db)) [
        | inr unknown ↦ rw fresh rw unknown tt
        | inl known ↦ rw fresh rw known rw (==_refl user_id) rw (==_refl position) (
          refl,
          refl,
          refl,
          inl refl,
          refl,
          insert-IsAlbum _ db.profile_photos low fresh found h,
          refl,
        )
      ]
    ]

-- A photo that is saved is the one at its place, the others are as they were, and the constraints
-- hold.
pub upsert_profile_photo-Yields :
    (id user_id : Uuid) (url : Text) (position : ℕ) (db : Db)
    → IsAlbum db.profile_photos
    → Yields (IsSaved user_id position url db) (upsert_profile_photo id user_id url position db)
unfolding upsert_profile_photo
upsert_profile_photo-Yields id user_id url position db h =
    elim (Bool-cases (photo_check url position)) [
      | inr bad ↦ rw bad tt
      | inl good ↦
          rw good
            (insert_or_replace-Yields id user_id url position db _ refl (ground (arith, good)) h)
    ]
