-- ===== src/World/Monad.antt =====
-- A Go function that returns a value or an error, and works on the world.
use match_camp.Base.{ℕ, ◌+◌, Bool, false, Option, none, some, List, [], ◌∷◌, if◌then◌else◌}
use match_camp.Database.Models.{Uuid, Db}
use match_camp.Database.Result.{DbError, failed, Result, ok, err, Query}
use match_camp.World.Env.{Event, World}

abbrev pub M : Type 0 → Type 0 → Type 0
M E A = World → Result E A × World

module _ {E A B : Type 0} where
  abbrev pub and_then : Result E A × World → (A → M E B) → Result E B × World
  and_then (ok a, w) f = f a w
  and_then (err e, w) f = (err e, w)

  infixl 5 ◌>>=◌ ◌>>◌
  abbrev pub ◌>>=◌ : M E A → (A → M E B) → M E B
  ◌>>=◌ m f w = and_then (m w) f

  abbrev pub ◌>>◌ : M E A → M E B → M E B
  ◌>>◌ m k w = and_then (m w) (λ _. k)

module _ {E A : Type 0} where
  abbrev pub pure : A → M E A
  pure a w = (ok a, w)

  abbrev pub raise : E → M E A
  raise e w = (err e, w)

-- `if c { return err }`
unfoldable pub raise_if : {E : Type 0} → Bool → E → M E (Unit {0})
raise_if c e w = (if c then err e else ok tt, w)

-- `if err != nil { … }` around a call
abbrev pub convert : {E F A : Type 0} → (E → F) → Result E A × World → Result F A × World
convert f (ok a, w) = (ok a, w)
convert f (err e, w) = (err (f e), w)

unfoldable pub on_error : {E F A : Type 0} → M E A → (E → F) → M F A
on_error m f w = convert f (m w)

-- `_ =` before a call: its error is dropped.
abbrev pub forget : {E F A : Type 0} → Result E A × World → Result F (Unit {0}) × World
forget (_, w) = (ok tt, w)

unfoldable pub ignore : {E F A : Type 0} → M E A → M F (Unit {0})
ignore m w = forget (m w)

-- The value, or `none` where the call fails.
abbrev pub outcome : {E F A : Type 0} → Result E A × World → Result F (Option A) × World
outcome (ok a, w) = (ok (some a), w)
outcome (err _, w) = (ok none, w)

unfoldable pub attempt : {E F A : Type 0} → M E A → M F (Option A)
attempt m w = outcome (m w)

abbrev pub lost : List Bool → Bool
lost [] = false
lost (b ∷ bs) = b

abbrev pub rest_faults : List Bool → List Bool
rest_faults [] = []
rest_faults (b ∷ bs) = bs

abbrev pub answered : {A : Type 0} → Result DbError (A × Db) → World → Result DbError A × World
answered (ok (a, db)) w = (ok a, record w { db = db })
answered (err e) w = (err e, w)

-- One statement outside a transaction, or inside one.
unfoldable pub run_query : {A : Type 0} → Query A → M DbError A
run_query q w =
    let w' = record w { faults = rest_faults w.faults } in
    if lost w.faults then (err failed, w') else answered (q w.db) w'

-- A statement that inserts a row draws the row's id.
unfoldable pub run_insert : {A : Type 0} → (ℕ → Uuid) → (Uuid → Query A) → M DbError A
unfolding run_query
run_insert gen q w = run_query (q (gen w.drawn)) (record w { drawn = w.drawn + 1 })

abbrev pub commit_or_rollback :
    {A : Type 0} → Db → Result DbError A × World → Result DbError A × World
commit_or_rollback before (ok a, w) =
    let w' = record w { faults = rest_faults w.faults } in
    if lost w.faults then (err failed, record w' { db = before }) else (ok a, w')
commit_or_rollback before (err e, w) = (err e, record w { db = before })

-- BeginTx, the body, and Commit, or the deferred Rollback where the body or the commit fails.
unfoldable pub transaction : {A : Type 0} → M DbError A → M DbError A
transaction body w =
    let w' = record w { faults = rest_faults w.faults } in
    if lost w.faults then (err failed, w') else commit_or_rollback w.db (body w')

-- redis.Publish on the channel of a user; its error is ignored everywhere.
unfoldable pub publish : {E : Type 0} → Uuid → Event → M E (Unit {0})
publish recipient event w = (
  ok tt,
  record w {
    redis_faults = rest_faults w.redis_faults;
    published = if lost w.redis_faults then w.published else (recipient, event) ∷ w.published;
  },
)

-- The value and the error of a call, both kept.
unfoldable pub observe : {E F A : Type 0} → M E A → M F (Result E A)
observe m w = let (r, w') = m w in (ok r, w')

-- The world where no round trip to PostgreSQL fails from here on.
abbrev pub calm : World → World
calm w = record w { faults = [] }

-- The same, where no call of Redis fails either.
abbrev pub all_calm : World → World
all_calm w = record w { faults = []; redis_faults = [] }
