-- ===== src/World/Objects/Laws.antt =====
-- The object store and the tables do not touch each other.
use match_camp.Base.{ℕ, ◌≡◌, refl, inl, inr, Option, none, some, List, Bool-cases}
use match_camp.Storage.{ObjectStore}
use match_camp.Text.{Text}
use match_camp.World.Ends.{Ends}
use match_camp.World.Env.{World}
use match_camp.World.Monad.{lost}
use match_camp.World.Objects.{put_at, put_object, delete_at, delete_object}

put_at-Ends :
    (store : ObjectStore) (key : Text) (content : List ℕ) (place : Option Text) (w : World)
    → Ends
        (λ url db'. (db' ≡ w.db) × (url ≡ store.url key))
        (λ _ db'. db' ≡ w.db)
        (put_at store key content place w)
put_at-Ends store key content none w = refl
put_at-Ends store key content (some place) w = (refl, refl)

pub put_object-Ends :
    (store : ObjectStore) (key : Text) (content : List ℕ) (w : World)
    → Ends
        (λ url db'. (db' ≡ w.db) × (url ≡ store.url key))
        (λ _ db'. db' ≡ w.db)
        (put_object store key content w)
unfolding put_object
put_object-Ends store key content w = elim (Bool-cases (lost w.store_faults)) [
  | inl fault ↦ rw fault refl
  | inr fine ↦ rw fine (put_at-Ends store key content (store.place key) _)
]

delete_at-Ends :
    (place : Option Text) (w : World)
    → Ends (λ _ db'. db' ≡ w.db) (λ _ db'. db' ≡ w.db) (delete_at place w)
delete_at-Ends none w = refl
delete_at-Ends (some place) w = refl

pub delete_object-Ends :
    (store : ObjectStore) (key : Text) (w : World)
    → Ends (λ _ db'. db' ≡ w.db) (λ _ db'. db' ≡ w.db) (delete_object store key w)
unfolding delete_object
delete_object-Ends store key w = elim (Bool-cases (lost w.store_faults)) [
  | inl fault ↦ rw fault refl
  | inr fine ↦ rw fine (delete_at-Ends (store.place key) _)
]
