-- ===== src/World/Ensures.antt =====
-- Postconditions of the calls in a handler: rules for the monad, for statements and for
-- transactions.
use match_camp.Base.{ℕ, ◌+◌, ◌≡◌, refl, inl, inr, Option, none, some, arith, Bool-cases}
use match_camp.Database.Auth.{one_row}
use match_camp.Database.Models.{Uuid, Db}
use match_camp.Database.Result.{DbError, Result, ok, err, Query}
use match_camp.World.Env.{World}
use match_camp.World.Monad.{
  M, and_then, outcome, attempt, lost, answered, run_query, run_insert, commit_or_rollback,
  transaction,
}

-- A call that returns a value leaves a database that satisfies Q; one that fails says nothing.
abbrev pub Ensures : {E A : Type 0} → (A → Db → Type 0) → Result E A × World → Type 0
Ensures Q (ok a, w) = Q a w.db
Ensures Q (err e, w) = Unit

-- The same of a statement.
abbrev pub Yields : {A : Type 0} → (A → Db → Type 0) → Result DbError (A × Db) → Type 0
Yields Q (ok (a, db)) = Q a db
Yields Q (err e) = Unit

pub Yields-weaken :
    {A : Type 0} (Q R : A → Db → Type 0) (r : Result DbError (A × Db))
    → ((a : A) (db : Db) → Q a db → R a db)
    → Yields Q r
    → Yields R r
Yields-weaken Q R (ok (a, db)) f h = f a db h
Yields-weaken Q R (err e) f h = tt

pub Ensures-weaken :
    {E A : Type 0} (Q R : A → Db → Type 0) (r : Result E A × World)
    → ((a : A) (db : Db) → Q a db → R a db)
    → Ensures Q r
    → Ensures R r
Ensures-weaken Q R (ok a, w) f h = f a w.db h
Ensures-weaken Q R (err e, w) f h = tt

-- Whatever the result, the database satisfies P.
abbrev pub Leaves : {E A : Type 0} → (Db → Type 0) → Result E A × World → Type 0
Leaves P (r, w) = P w.db

module _ {E A B : Type 0} where
  pub and_then-Ensures :
      (Q : A → Db → Type 0) (R : B → Db → Type 0) (r : Result E A × World) (f : A → M E B)
      → Ensures Q r
      → ((a : A) (w : World) → Q a w.db → Ensures R (f a w))
      → Ensures R (and_then r f)
  and_then-Ensures Q R (ok a, w) f h k = k a w h
  and_then-Ensures Q R (err e, w) f h k = tt

  pub and_then-Leaves :
      (P : Db → Type 0) (r : Result E A × World) (f : A → M E B)
      → Leaves P r
      → ((a : A) (w : World) → P w.db → Leaves P (f a w))
      → Leaves P (and_then r f)
  and_then-Leaves P (ok a, w) f h k = k a w h
  and_then-Leaves P (err e, w) f h k = h

module _ {A : Type 0} where
  answered-Ensures :
      (Q : A → Db → Type 0) (r : Result DbError (A × Db)) (w : World)
      → Yields Q r
      → Ensures Q (answered r w)
  answered-Ensures Q (ok (a, db)) w h = h
  answered-Ensures Q (err e) w h = tt

  pub run_query-Ensures :
      (Q : A → Db → Type 0) (q : Query A) (w : World)
      → Yields Q (q w.db)
      → Ensures Q (run_query q w)
  unfolding run_query
  run_query-Ensures Q q w h = elim (Bool-cases (lost w.faults)) [
    | inl fault ↦ rw fault tt
    | inr fine ↦ rw fine (answered-Ensures Q (q w.db) _ h)
  ]

  pub run_insert-Ensures :
      (Q : A → Db → Type 0) (gen : ℕ → Uuid) (q : Uuid → Query A) (w : World)
      → ((id : Uuid) → Yields Q (q id w.db))
      → Ensures Q (run_insert gen q w)
  unfolding run_insert
  run_insert-Ensures Q gen q w h =
      run_query-Ensures Q (q (gen w.drawn)) (record w { drawn = w.drawn + 1 }) (h (gen w.drawn))

  answered-Leaves :
      (P : Db → Type 0) (r : Result DbError (A × Db)) (w : World)
      → P w.db
      → Yields (λ _. P) r
      → Leaves P (answered r w)
  answered-Leaves P (ok (a, db)) w p h = h
  answered-Leaves P (err e) w p h = p

  pub run_query-Leaves :
      (P : Db → Type 0) (q : Query A) (w : World)
      → P w.db
      → Yields (λ _. P) (q w.db)
      → Leaves P (run_query q w)
  unfolding run_query
  run_query-Leaves P q w p h = elim (Bool-cases (lost w.faults)) [
    | inl fault ↦ rw fault p
    | inr fine ↦ rw fine (answered-Leaves P (q w.db) _ p h)
  ]

  pub run_insert-Leaves :
      (P : Db → Type 0) (gen : ℕ → Uuid) (q : Uuid → Query A) (w : World)
      → P w.db
      → ((id : Uuid) → Yields (λ _. P) (q id w.db))
      → Leaves P (run_insert gen q w)
  unfolding run_insert
  run_insert-Leaves P gen q w p h =
      run_query-Leaves P (q (gen w.drawn)) (record w { drawn = w.drawn + 1 }) p (h (gen w.drawn))

  commit-Ensures :
      (Q : A → Db → Type 0) (before : Db) (r : Result DbError A × World)
      → Ensures Q r
      → Ensures Q (commit_or_rollback before r)
  commit-Ensures Q before (ok a, w) h = elim (Bool-cases (lost w.faults)) [
    | inl fault ↦ rw fault tt
    | inr fine ↦ rw fine h
  ]
  commit-Ensures Q before (err e, w) h = tt

  -- What the body ensures at its end holds after the commit.
  pub transaction-Ensures :
      (Q : A → Db → Type 0) (body : M DbError A) (w : World)
      → ((w' : World) → w'.db ≡ w.db → Ensures Q (body w'))
      → Ensures Q (transaction body w)
  unfolding transaction
  transaction-Ensures Q body w h = elim (Bool-cases (lost w.faults)) [
    | inl fault ↦ rw fault tt
    | inr fine ↦ rw fine (commit-Ensures Q w.db (body _) (h _ refl))
  ]

  commit-rolls_back :
      (before : Db) (r : Result DbError A × World) {e : DbError} {w : World}
      → commit_or_rollback before r ≡ (err e, w)
      → w.db ≡ before
  commit-rolls_back before (ok a, w') h = elim (Bool-cases (lost w'.faults)) [
    | inl fault ↦ ground arith
    | inr fine ↦ ground arith
  ]
  commit-rolls_back before (err e', w') h = ground arith

  -- A transaction that fails, at any statement or at its commit, leaves the tables as they were.
  pub transaction-rolls_back :
      (body : M DbError A) (w : World) {e : DbError} {w' : World}
      → transaction body w ≡ (err e, w')
      → w'.db ≡ w.db
  unfolding transaction
  transaction-rolls_back body w h = elim (Bool-cases (lost w.faults)) [
    | inl fault ↦ ground arith
    | inr fine ↦ commit-rolls_back w.db (body _) (rw fine at h)
  ]

-- A call whose error is dropped.
pub attempt-Ensures :
    {E A : Type 0} (F : Type 0) (P : Db → Type 0) (m : M E A) (w : World)
    → Leaves P (m w)
    → Ensures (λ _. P) (attempt {F = F} m w)
unfolding attempt
attempt-Ensures {E} {A} F P m w h = go (m w) h
  where
    go : (r : Result E A × World) → Leaves P r → Ensures {E = F} (λ _. P) (outcome r)
    go (ok a, w') k = k
    go (err e, w') k = k

pub one_row-Yields :
    {A : Type 0} (P : Db → Type 0) (o : Option A) (db : Db) → P db → Yields (λ _. P) (one_row o db)
one_row-Yields P none db h = tt
one_row-Yields P (some a) db h = h
