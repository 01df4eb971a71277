-- ===== src/World/Objects.antt =====
-- The calls of the object store, which keep or lose an object at the place that a key names.
pub mod Laws
use match_camp.Base.{ℕ, Option, none, some, List, [], ◌∷◌, if◌then◌else◌}
use match_camp.Database.Result.{Result, ok, err}
use match_camp.Storage.{ObjectStore}
use match_camp.Text.{Text, text_eq}
use match_camp.World.Env.{World}
use match_camp.World.Monad.{M, lost, rest_faults}

abbrev pub without : Text → List (Text × List ℕ) → List (Text × List ℕ)
without place [] = []
without place ((p, content) ∷ objects) =
    let rest = without place objects in if text_eq p place then rest else (p, content) ∷ rest

abbrev pub found_object : Text → List (Text × List ℕ) → Option (List ℕ)
found_object place [] = none
found_object place ((p, content) ∷ objects) =
    if text_eq p place then some content else found_object place objects

abbrev pub put_at :
    ObjectStore → Text → List ℕ → Option Text → World → Result (Unit {0}) Text × World
put_at store key content none w = (err tt, w)
put_at store key content (some place) w =
    (ok (store.url key), record w { objects = (place, content) ∷ without place w.objects })

-- ObjectStore.Put: its error does not say what happened.
unfoldable pub put_object : ObjectStore → Text → List ℕ → M (Unit {0}) Text
put_object store key content w =
    let w' = record w { store_faults = rest_faults w.store_faults } in
    if lost w.store_faults then (err tt, w') else put_at store key content (store.place key) w'

abbrev pub delete_at : Option Text → World → Result (Unit {0}) (Unit {0}) × World
delete_at none w = (err tt, w)
delete_at (some place) w = (ok tt, record w { objects = without place w.objects })

-- ObjectStore.Delete
unfoldable pub delete_object : ObjectStore → Text → M (Unit {0}) (Unit {0})
delete_object store key w =
    let w' = record w { store_faults = rest_faults w.store_faults } in
    if lost w.store_faults then (err tt, w') else delete_at (store.place key) w'
