-- ===== src/Server/Swipe/Race.antt =====
-- internal/server/server.go: two transactions of `recordSwipe` at the same time, each a like of the
-- other's actor, under READ COMMITTED, the level of `pgx.TxOptions{}`. A statement sees the rows
-- that are committed when it starts, and those of its own transaction. What follows a reciprocal
-- like that was found is one step: the other transaction has then committed.
pub mod Safety
pub mod Missed
use match_camp.Base.{◌≡◌, Bool, true, false, some, ◌∷◌}
use match_camp.Database.Match.{create_swipe, has_reciprocal_like}
use match_camp.Database.Models.{Uuid, Swipe, Db}
use match_camp.Database.Result.{ok}
use match_camp.Server.Swipe.{make_match}
use match_camp.World.Env.{Env, World}

-- How far a transaction is: its own row, which nobody else sees, and the answer that it read.
pub data Phase : Type 0 where
  begun : Phase
  inserted : Swipe → Phase
  looked : Swipe → Bool → Phase
  ended : Phase

-- the tables as the transaction sees them after its insert
abbrev pub seen : Swipe → Db → Db
seen row db = record db { swipes = row ∷ db.swipes }

-- One step of the transaction in which `actor` likes `target`, on the committed world.
pub data Turn (env : Env) (actor target : Uuid) : World → Phase → World → Phase → Type 0 where
  insert_like :
      {w : World} (row : Swipe)
      → create_swipe row.id actor target "like" w.db ≡ ok (tt, seen row w.db)
      → Turn env actor target w begun w (inserted row)
  look :
      {w : World} {row : Swipe} (found : Bool)
      → has_reciprocal_like target actor (seen row w.db) ≡ ok (found, seen row w.db)
      → Turn env actor target w (inserted row) w (looked row found)
  commit_alone :
      {w : World} {row : Swipe}
      → Turn env actor target w (looked row false) (record w { db = seen row w.db }) ended
  commit_match :
      {w w' : World} {row : Swipe} (made : Uuid × Uuid)
      → make_match env actor target (record w { db = seen row w.db }) ≡ (ok (some made), w')
      → Turn env actor target w (looked row true) w' ended
  roll_back : {w : World} {p : Phase} → Turn env actor target w p w ended

-- The two transactions.
pub record Race : Type 0 where
  pub committed : World
  pub one : Phase
  pub two : Phase

pub data Step (env : Env) (a b : Uuid) : Race → Race → Type 0 where
  turn_one :
      {w w' : World} {p p' q : Phase}
      → Turn env a b w p w' p'
      → Step env a b
          (record { committed = w; one = p; two = q })
          (record { committed = w'; one = p'; two = q })
  turn_two :
      {w w' : World} {p q q' : Phase}
      → Turn env b a w q w' q'
      → Step env a b
          (record { committed = w; one = p; two = q })
          (record { committed = w'; one = p; two = q' })

pub data Reach (env : Env) (a b : Uuid) (start : World) : Race → Type 0 where
  both_begun : Reach env a b start (record { committed = start; one = begun; two = begun })
  step_on : {r r' : Race} → Reach env a b start r → Step env a b r r' → Reach env a b start r'
