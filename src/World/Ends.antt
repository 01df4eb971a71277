-- ===== src/World/Ends.antt =====
-- Postconditions of both results of a call, of a value and of an error.
use match_camp.Base.{
  ℕ, ◌+◌, ◌≡◌, refl, ◌≢◌, inl, inr, Bool, true, false, Option, none, some, Bool-cases,
}
use match_camp.Database.Models.{Uuid, Db}
use match_camp.Database.Result.{DbError, Result, ok, err, Query}
use match_camp.World.Ensures.{Ensures, Yields, transaction-rolls_back}
use match_camp.World.Env.{World}
use match_camp.World.Monad.{
  M, and_then, raise_if, convert, on_error, forget, ignore, outcome, attempt, lost, answered,
  run_query, run_insert, transaction, observe,
}

-- Q of a value and its database, P of an error and its database.
abbrev pub Ends :
    {E A : Type 0} → (A → Db → Type 0) → (E → Db → Type 0) → Result E A × World → Type 0
Ends Q P (ok a, w) = Q a w.db
Ends Q P (err e, w) = P e w.db

pub and_then-Ends :
    {E A B : Type 0} (Q : A → Db → Type 0) (R : B → Db → Type 0) (P : E → Db → Type 0)
    (r : Result E A × World) (f : A → M E B)
    → Ends Q P r
    → ((a : A) (w : World) → Q a w.db → Ends R P (f a w))
    → Ends R P (and_then r f)
and_then-Ends Q R P (ok a, w) f h k = k a w h
and_then-Ends Q R P (err e, w) f h k = h

answered-Ends :
    {A : Type 0} (Q : A → Db → Type 0) (r : Result DbError (A × Db)) (w : World)
    → Yields Q r
    → Ends Q (λ _ db. db ≡ w.db) (answered r w)
answered-Ends Q (ok (a, db)) w h = h
answered-Ends Q (err e) w h = refl

-- A statement that fails, for whatever reason, leaves the tables alone.
pub run_query-Ends :
    {A : Type 0} (Q : A → Db → Type 0) (q : Query A) (w : World)
    → Yields Q (q w.db)
    → Ends Q (λ _ db. db ≡ w.db) (run_query q w)
unfolding run_query
run_query-Ends Q q w h = elim (Bool-cases (lost w.faults)) [
  | inl fault ↦ rw fault refl
  | inr fine ↦ rw fine (answered-Ends Q (q w.db) _ h)
]

pub run_insert-Ends :
    {A : Type 0} (Q : A → Db → Type 0) (gen : ℕ → Uuid) (q : Uuid → Query A) (w : World)
    → ((id : Uuid) → Yields Q (q id w.db))
    → Ends Q (λ _ db. db ≡ w.db) (run_insert gen q w)
unfolding run_insert
run_insert-Ends Q gen q w h =
    run_query-Ends Q (q (gen w.drawn)) (record w { drawn = w.drawn + 1 }) (h (gen w.drawn))

-- A transaction that ensures Q, seen from outside: Q, or the tables as they were.
pub transaction-Ends :
    {A : Type 0} (Q : A → Db → Type 0) (body : M DbError A) (w : World)
    → Ensures Q (transaction body w)
    → Ends Q (λ _ db. db ≡ w.db) (transaction body w)
transaction-Ends {A} Q body w h = go (transaction body w) refl h
  where
    go :
        (r : Result DbError A × World)
        → transaction body w ≡ r
        → Ensures Q r
        → Ends Q (λ _ db. db ≡ w.db) r
    go (ok a, w') e k = k
    go (err c, w') e k = transaction-rolls_back body w e

-- The error of a call, converted.
pub on_error-Ends :
    {E F A : Type 0} (Q : A → Db → Type 0) (P : F → Db → Type 0) (m : M E A) (f : E → F) (w : World)
    → Ends Q (λ e db. P (f e) db) (m w)
    → Ends Q P (on_error m f w)
unfolding on_error
on_error-Ends {E} {F} {A} Q P m f w h = go (m w) h
  where
    go : (r : Result E A × World) → Ends Q (λ e db. P (f e) db) r → Ends Q P (convert f r)
    go (ok a, w') k = k
    go (err e, w') k = k

-- A call that cannot fail.
pub Ends-of_Ensures :
    {E A : Type 0} (Q : A → Db → Type 0) (P : E → Db → Type 0) (r : Result E A × World)
    → Ensures Q r
    → ((e : E) (w : World) → r ≢ (err e, w))
    → Ends Q P r
Ends-of_Ensures Q P (ok a, w) h never = h
Ends-of_Ensures Q P (err e, w) h never = absurd (never e w refl)

pub Ensures-of_Ends :
    {E A : Type 0} (Q : A → Db → Type 0) (P : E → Db → Type 0) (r : Result E A × World)
    → Ends Q P r
    → Ensures Q r
Ensures-of_Ends Q P (ok a, w) h = h
Ensures-of_Ends Q P (err e, w) h = tt

pub Ends-weaken :
    {E A : Type 0} (Q R : A → Db → Type 0) (O P : E → Db → Type 0) (r : Result E A × World)
    → ((a : A) (db : Db) → Q a db → R a db)
    → ((e : E) (db : Db) → O e db → P e db)
    → Ends Q O r
    → Ends R P r
Ends-weaken Q R O P (ok a, w) f g h = f a w.db h
Ends-weaken Q R O P (err e, w) f g h = g e w.db h

pub raise_if-Ends :
    {E : Type 0} (Q : Db → Type 0) (P : E → Db → Type 0) (c : Bool) (e : E) (w : World)
    → (c ≡ false → Q w.db)
    → P e w.db
    → Ends (λ _. Q) P (raise_if c e w)
unfolding raise_if
raise_if-Ends Q P true e w pass stop = stop
raise_if-Ends Q P false e w pass stop = pass refl

-- The same where the refusal needs the condition.
pub raise_if_so-Ends :
    {E : Type 0} (Q : Db → Type 0) (P : E → Db → Type 0) (c : Bool) (e : E) (w : World)
    → (c ≡ false → Q w.db)
    → (c ≡ true → P e w.db)
    → Ends (λ _. Q) P (raise_if c e w)
unfolding raise_if
raise_if_so-Ends Q P true e w pass stop = stop refl
raise_if_so-Ends Q P false e w pass stop = pass refl

-- The same of a result that is kept as a value.
abbrev pub Found : {E A : Type 0} → (A → Db → Type 0) → (E → Db → Type 0) → Result E A → Db → Type 0
Found Q P (ok a) db = Q a db
Found Q P (err e) db = P e db

pub Found-same :
    {E A : Type 0} (Q : Db → Type 0) (r : Result E A) (db : Db)
    → Found (λ _. Q) (λ _. Q) r db
    → Q db
Found-same Q (ok a) db h = h
Found-same Q (err e) db h = h

pub observe-Ends :
    {E F A : Type 0} (Q : A → Db → Type 0) (P : E → Db → Type 0) (O : F → Db → Type 0) (m : M E A)
    (w : World)
    → Ends Q P (m w)
    → Ends (Found Q P) O (observe m w)
unfolding observe
observe-Ends {E} {F} {A} Q P O m w h = go (m w) h
  where
    go : (r : Result E A × World) → Ends Q P r → Found Q P r.0 r.1.db
    go (ok a, w') k = k
    go (err e, w') k = k

-- A call whose error is dropped, with its value where it has one.
pub attempt-Ends :
    {E F A : Type 0} (R : Option A → Db → Type 0) (O : F → Db → Type 0) (m : M E A) (w : World)
    → Ends (λ a. R (some a)) (λ _. R none) (m w)
    → Ends R O (attempt m w)
unfolding attempt
attempt-Ends {E} {F} {A} R O m w h = go (m w) h
  where
    go : (r : Result E A × World) → Ends (λ a. R (some a)) (λ _. R none) r → Ends R O (outcome r)
    go (ok a, w') k = k
    go (err e, w') k = k

pub ignore-Ends :
    {E F A : Type 0} (Q : Db → Type 0) (O : F → Db → Type 0) (m : M E A) (w : World)
    → Ends (λ _. Q) (λ _. Q) (m w)
    → Ends (λ _. Q) O (ignore m w)
unfolding ignore
ignore-Ends {E} {F} {A} Q O m w h = go (m w) h
  where
    go : (r : Result E A × World) → Ends (λ _. Q) (λ _. Q) r → Ends (λ _. Q) O (forget r)
    go (ok a, w') k = k
    go (err e, w') k = k
