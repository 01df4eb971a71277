-- ===== src/Server/Swipe/Race/Safety.antt =====
-- What no order of the two likes can break.
use match_camp.Base.{
  ◌≡◌, refl, sym, subst, ◌∙◌, ◌≢◌, inl, inr, Bool, true, false, some, List, [], ◌∷◌, arith,
}
use match_camp.Database.Match.{create_swipe, has_reciprocal_like}
use match_camp.Database.Models.{Uuid, Swipe, Db}
use match_camp.Database.Mutual.{Liked, IsSound, IsSound-swipe}
use match_camp.Database.Mutual.Statements.{has_reciprocal_like-Yields}
use match_camp.Database.Result.{ok}
use match_camp.Server.Swipe.Mutual.{Recorded, make_match-Recorded}
use match_camp.Server.Swipe.Race.{
  Phase, begun, inserted, looked, ended, seen, Turn, insert_like, look, commit_alone, commit_match,
  roll_back, Race, turn_one, turn_two, Reach, both_begun, step_on,
}
use match_camp.World.Ensures.{Ensures, Yields}
use match_camp.World.Env.{Env, World}

abbrev IsLike : Uuid → Uuid → Swipe → Type 0
IsLike actor target row =
    (row.actor_user_id ≡ actor) × (row.target_user_id ≡ target) × (row.action ≡ "like")

abbrev AtHead : (Swipe → Type 0) → List Swipe → Type 0
AtHead P [] = ⊥
AtHead P (row ∷ rows) = P row

create_swipe-AtHead :
    (id actor target : Uuid) (db : Db)
    → Yields
        (λ _ after. AtHead (IsLike actor target) after.swipes)
        (create_swipe id actor target "like" db)
unfolding create_swipe
create_swipe-AtHead id actor target db = ground arith

create_swipe-IsLike :
    (actor target : Uuid) (row : Swipe) (db : Db)
    → create_swipe row.id actor target "like" db ≡ ok (tt, seen row db)
    → IsLike actor target row
create_swipe-IsLike actor target row db h =
    subst (Yields (λ _ after. AtHead (IsLike actor target) after.swipes)) h
      (create_swipe-AtHead row.id actor target db)

-- What a transaction knows.
abbrev Knows : Uuid → Uuid → Phase → Db → Type 0
Knows actor target begun db = Unit
Knows actor target (inserted row) db = IsLike actor target row
Knows actor target (looked row found) db =
    IsLike actor target row × (found ≡ true → Liked target actor db.swipes)
Knows actor target ended db = Unit

Knows-kept :
    (actor target : Uuid) (q : Phase) (db after : Db)
    → (Liked target actor db.swipes → Liked target actor after.swipes)
    → Knows actor target q db
    → Knows actor target q after
Knows-kept actor target begun db after keep h = tt
Knows-kept actor target (inserted row) db after keep h = h
Knows-kept actor target (looked row found) db after keep h = (h.0, λ e. keep (h.1 e))
Knows-kept actor target ended db after keep h = tt

-- What a turn of one transaction leaves, for it and for the other.
abbrev KeptBy : Uuid → Uuid → World → Phase → Phase → Type 0
KeptBy actor target w p q = IsSound w.db × Knows actor target p w.db × Knows target actor q w.db

looked_up :
    (actor target : Uuid) (row : Swipe) (db : Db) (found : Bool)
    → actor ≢ target
    → IsLike actor target row
    → has_reciprocal_like target actor (seen row db) ≡ ok (found, seen row db)
    → found ≡ true
    → Liked target actor db.swipes
looked_up actor target row db found apart own h e =
    let answer =
      subst
        (Yields (λ r after.
          (after ≡ seen row db)
          × (r ≡ true → Liked target actor (row ∷ db.swipes))
          × (r ≡ false → ¬ Liked target actor (row ∷ db.swipes))))
        h (has_reciprocal_like-Yields target actor (seen row db)) in
    elim (answer.1 e) [ inl self ↦ absurd (apart (sym own.0 ∙ self.0)) | inr there ↦ there ]

Turn-keeps :
    (env : Env) (actor target : Uuid) {w w' : World} {p p' : Phase} (q : Phase)
    → actor ≢ target
    → Turn env actor target w p w' p'
    → KeptBy actor target w p q
    → KeptBy actor target w' p' q
Turn-keeps env actor target {w = w} q apart (insert_like row h) (sound, mine, theirs) =
    (sound, create_swipe-IsLike actor target row w.db h, theirs)
Turn-keeps env actor target {w = w} q apart (look {row = row} found h) (sound, mine, theirs) =
    (sound, (mine, looked_up actor target row w.db found apart mine h), theirs)
Turn-keeps env actor target {w = w} q apart (commit_alone {row = row}) (sound, mine, theirs) = (
  IsSound-swipe w.db row sound,
  tt,
  Knows-kept target actor q w.db (seen row w.db) (λ k. inr k) theirs,
)
Turn-keeps env actor target {w = w} {w' = w'} q apart (commit_match {row = row} made h)
      (sound, mine, theirs) =
    let base : World = record w { db = seen row w.db } in
    let recorded : Recorded env actor target "like" (some made) w'.db =
      subst (Ensures (Recorded env actor target "like")) h (
        make_match-Recorded env actor target "like" base (IsSound-swipe w.db row sound) (inl mine.0)
          (inr (mine.1 refl))) in
    (recorded.0, tt, Knows-kept target actor q w.db w'.db (λ _. recorded.1.0) theirs)
Turn-keeps env actor target q apart roll_back (sound, mine, theirs) = (sound, tt, theirs)

reached :
    (env : Env) (a b : Uuid) (start : World) (r : Race)
    → a ≢ b
    → IsSound start.db
    → Reach env a b start r
    → IsSound r.committed.db × Knows a b r.one r.committed.db × Knows b a r.two r.committed.db
reached env a b start r apart sound both_begun = (sound, tt, tt)
reached env a b start r apart sound (step_on before (turn_one {q = q} t)) =
    Turn-keeps env a b q apart t (reached env a b start _ apart sound before)
reached env a b start r apart sound (step_on before (turn_two {p = p} t)) =
    let (s, one, two) = reached env a b start _ apart sound before in
    let (s', two', one') = Turn-keeps env b a p (λ e. apart (sym e)) t (s, two, one) in
    (s', one', two')

-- In whatever order the steps of two users who like each other at the same time come, and whichever
-- of the two transactions rolls back, the committed tables stay sound: each match rests on both
-- likes, a pair has one match and a match one conversation, and its members are the pair.
pub race-IsSound :
    (env : Env) (a b : Uuid) (start : World) (r : Race)
    → a ≢ b
    → IsSound start.db
    → Reach env a b start r
    → IsSound r.committed.db
race-IsSound env a b start r apart sound path = (reached env a b start r apart sound path).0
