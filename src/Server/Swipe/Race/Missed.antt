-- ===== src/Server/Swipe/Race/Missed.antt =====
-- What some orders of the two likes miss.
use match_camp.Base.{
  ◌≡◌, refl, sym, ◌≢◌, inl, inr, Bool, true, false, ◌&&◌, ◌||◌, List, [], ◌∷◌, arith, str_eq, any,
  ◌==◌,
}
use match_camp.Database.Match.{swiped, create_swipe, has_reciprocal_like}
use match_camp.Database.Models.{Uuid, Swipe, Db, has_user}
use match_camp.Database.Mutual.{Liked}
use match_camp.Database.Result.{ok}
use match_camp.Server.Swipe.Race.{
  ended, seen, insert_like, look, commit_alone, Race, turn_one, turn_two, Reach, both_begun,
  step_on,
}
use match_camp.World.Env.{Env, World}

any-false_of :
    {A : Type 0} (p q : A → Bool)
    → ((x : A) → p x ≡ false → q x ≡ false)
    → (xs : List A) → any p xs ≡ false
    → any q xs ≡ false
any-false_of p q f [] h = refl
any-false_of p q f (x ∷ xs) h = ground (arith, f x, any-false_of p q f xs)

abbrev new_like : Uuid → Uuid → Uuid → Db → Swipe
new_like id actor target db = record {
  id = id;
  actor_user_id = actor;
  target_user_id = target;
  action = "like";
  created_at = db.now;
}

-- A like with a new id, of a pair of users without a swipe, is stored.
stored :
    (id actor target : Uuid) (db : Db)
    → actor ≢ target
    → has_user actor db ≡ true
    → has_user target db ≡ true
    → any (λ s. s.id == id || swiped actor target s) db.swipes ≡ false
    → create_swipe id actor target "like" db ≡ ok (tt, seen (new_like id actor target db) db)
unfolding create_swipe
stored id actor target db apart known known' fresh =
    let other : (actor == target) ≡ false = ground (arith, apart) in
    rw other rw fresh rw known rw known' refl

-- Its transaction does not see the like of the other that is not committed.
unseen :
    (id other_id actor target : Uuid) (db : Db)
    → actor ≢ target
    → any (λ s. s.id == other_id || swiped target actor s) db.swipes ≡ false
    → has_reciprocal_like target actor (seen (new_like id actor target db) db)
      ≡ ok (false, seen (new_like id actor target db) db)
unfolding has_reciprocal_like
unseen id other_id actor target db apart fresh =
    let other : (actor == target) ≡ false = ground (arith, apart) in
    let missing : any (λ s. swiped target actor s && str_eq s.action "like") db.swipes ≡ false =
      any-false_of (λ s. s.id == other_id || swiped target actor s) _ (λ s h. ground arith)
        db.swipes fresh in
    rw other rw missing refl

-- Two users on record who have not swiped on each other and like each other at the same time can
-- both commit with neither transaction seeing the like of the other: both likes are then on record,
-- and the tables of matches, conversations and members are what they were.
pub race_missed :
    (env : Env) (a b i j : Uuid) (start : World)
    → a ≢ b
    → has_user a start.db ≡ true
    → has_user b start.db ≡ true
    → any (λ s. s.id == i || swiped a b s) start.db.swipes ≡ false
    → any (λ s. s.id == j || swiped b a s) start.db.swipes ≡ false
    → (final : Race) × Reach env a b start final
      × (final.one ≡ ended)
      × (final.two ≡ ended)
      × Liked a b final.committed.db.swipes
      × Liked b a final.committed.db.swipes
      × (final.committed.db ≡ record start.db { swipes = final.committed.db.swipes })
race_missed env a b i j start apart known known' fresh fresh' =
    let back : b ≢ a = λ e. apart (sym e) in
    let stored_a = stored i a b start.db apart known known' fresh in
    let stored_b = stored j b a start.db back known' known fresh' in
    (
      _,
      step_on
          (step_on
            (step_on
              (step_on
                (step_on
                  (step_on both_begun (turn_one (insert_like (new_like i a b start.db) stored_a)))
                  (turn_two (insert_like (new_like j b a start.db) stored_b)))
                (turn_one (look false (unseen i j a b start.db apart fresh'))))
              (turn_two (look false (unseen j i b a start.db back fresh))))
            (turn_one commit_alone))
          (turn_two commit_alone),
      refl,
      refl,
      inr (inl (refl, refl, refl)),
      inl (refl, refl, refl),
      refl,
    )
