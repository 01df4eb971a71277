-- ===== src/Server/Swipe/Mutual.antt =====
-- A swipe keeps the invariant of matches, and reports a match exactly for a mutual like.
use match_camp.Base.{
  String, ◌≡◌, ◌≢◌, ◌⊎◌, inl, inr, true, false, none, some, List, [], ◌∷◌, arith, str_eq, eq_iff,
  All, Bool-cases,
}
use match_camp.Database.Match.{
  create_swipe, has_reciprocal_like, upsert_match, upsert_conversation_for_match,
  add_conversation_member,
}
use match_camp.Database.Models.{Uuid, Swipe, Db}
use match_camp.Database.Mutual.{
  Liked, IsSound, HasMatch, HasConversation, HasPair, IsOpen, IsListed,
}
use match_camp.Database.Mutual.Statements.{
  create_swipe-Yields, has_reciprocal_like-Yields, upsert_match-Yields, upsert_conversation-Yields,
  add_conversation_member-Yields,
}
use match_camp.Database.Profile.{get_public_profile}
use match_camp.Database.Result.{DbError, err}
use match_camp.Server.Response.{normalize_pair}
use match_camp.Server.Swipe.{
  Made, add_members, make_match, after_like, swipe_statements, announce, record_swipe,
}
use match_camp.World.Ends.{Ends, and_then-Ends, transaction-Ends, Ends-of_Ensures}
use match_camp.World.Ensures.{
  Ensures, Yields-weaken, Ensures-weaken, and_then-Ensures, run_query-Ensures, run_insert-Ensures,
  run_query-Leaves, transaction-Ensures, attempt-Ensures, one_row-Yields,
}
use match_camp.World.Env.{Env, World}
use match_camp.World.Monad.{attempt, run_query, run_insert, transaction}

-- What the loop over the members leaves of a conversation that it began with.
abbrev Joined : Uuid → Uuid → Uuid → Uuid → List Uuid → Db → Db → Type 0
Joined cid mid low high members before after =
    IsOpen cid mid low high after
    × All (λ user. IsListed cid user after) members
    × ((v : Uuid) → IsListed cid v before → IsListed cid v after)

add_members-Joined :
    (env : Env) (cid mid low high : Uuid) (members : List Uuid) (w : World)
    → All (λ user. (user ≡ low) ⊎ (user ≡ high)) members
    → IsOpen cid mid low high w.db
    → Ensures (λ _ db'. Joined cid mid low high members w.db db') (add_members env cid members w)
unfolding add_members
add_members-Joined env cid mid low high [] w sides o = (o, tt, λ v h. h)
add_members-Joined env cid mid low high (user ∷ users) w sides o =
    and_then-Ensures (λ _ db'. Joined cid mid low high (user ∷ []) w.db db')
      (λ _ db'. Joined cid mid low high (user ∷ users) w.db db')
      (run_query (add_conversation_member cid user) w) _
      (run_query-Ensures _ (add_conversation_member cid user) w (
        Yields-weaken
          (λ _ db'.
            IsOpen cid mid low high db'
            × IsListed cid user db'
            × ((v : Uuid) → IsListed cid v w.db → IsListed cid v db'))
          (λ _ db'. Joined cid mid low high (user ∷ []) w.db db')
          (add_conversation_member cid user w.db) (λ _ db' h. (h.0, (h.1, tt), h.2))
          (add_conversation_member-Yields cid mid low high user w.db sides.0 o)))
      λ _ w' h.
        Ensures-weaken (λ _ db'. Joined cid mid low high users w'.db db')
          (λ _ db'. Joined cid mid low high (user ∷ users) w.db db') (add_members env cid users w')
          (λ _ db' k. (k.0, (k.2 user h.1.0, k.1), λ v old. k.2 v (h.2 v old)))
          (add_members-Joined env cid mid low high users w' sides.1 h.0)

module _ (env : Env) (actor target : Uuid) where
  -- What the tables say of a swipe's result: without a match, a like is not returned; with one, it
  -- is, and the pair, its conversation and both members are on record.
  abbrev pub Reported : String → Made → Db → Type 0
  Reported action none db = action ≡ "like" → ¬ Liked target actor db.swipes
  Reported action (some (match_id, conversation_id)) db =
      let (low, high) = normalize_pair env.uuid_string actor target in
      Liked actor target db.swipes
      × Liked target actor db.swipes
      × HasMatch match_id low high db.matches
      × HasConversation conversation_id match_id db.conversations
      × IsListed conversation_id actor db
      × IsListed conversation_id target db

  abbrev pub Recorded : String → Made → Db → Type 0
  Recorded action made db = IsSound db × Reported action made db

  normalize_pair_sides :
      let (low, high) = normalize_pair env.uuid_string actor target in
      ((actor ≡ low) ⊎ (actor ≡ high)) × ((target ≡ low) ⊎ (target ≡ high))
  unfolding normalize_pair
  normalize_pair_sides = ground arith

  Liked-normalize_pair :
      (swipes : List Swipe)
      → Liked actor target swipes
      → Liked target actor swipes
      → let (low, high) = normalize_pair env.uuid_string actor target in
        Liked low high swipes × Liked high low swipes
  unfolding normalize_pair
  Liked-normalize_pair swipes a b = ground arith

  normalize_pair-Liked :
      (swipes : List Swipe)
      → let (low, high) = normalize_pair env.uuid_string actor target in
        Liked low high swipes
        → Liked high low swipes
        → Liked actor target swipes × Liked target actor swipes
  unfolding normalize_pair
  normalize_pair-Liked swipes a b = ground arith

  pub make_match-Recorded :
      (action : String) (w : World)
      → IsSound w.db
      → Liked actor target w.db.swipes
      → Liked target actor w.db.swipes
      → Ensures (Recorded action) (make_match env actor target w)
  unfolding make_match
  make_match-Recorded action w s there back =
      let low : Uuid = (normalize_pair env.uuid_string actor target).0 in
      let high : Uuid = (normalize_pair env.uuid_string actor target).1 in
      let likes = Liked-normalize_pair w.db.swipes there back in
      and_then-Ensures (λ mid db'. HasPair mid low high db') (Recorded action)
        (run_insert env.gen_random_uuid (λ id. upsert_match id low high) w) _
        (run_insert-Ensures _ env.gen_random_uuid (λ id. upsert_match id low high) w
          (λ id. upsert_match-Yields id low high w.db s likes.0 likes.1))
        λ mid w₁ h₁.
          and_then-Ensures (λ cid db'. IsOpen cid mid low high db') (Recorded action)
            (run_insert env.gen_random_uuid (λ id. upsert_conversation_for_match id mid) w₁) _
            (run_insert-Ensures _ env.gen_random_uuid (λ id. upsert_conversation_for_match id mid)
              w₁ (λ id. upsert_conversation-Yields id mid low high w₁.db h₁))
            λ cid w₂ h₂.
              and_then-Ensures (λ _ db'. Joined cid mid low high (actor ∷ target ∷ []) w₂.db db')
                (Recorded action) (add_members env cid (actor ∷ target ∷ []) w₂) _
                (add_members-Joined env cid mid low high (actor ∷ target ∷ []) w₂
                  (normalize_pair_sides.0, (normalize_pair_sides.1, tt)) h₂)
                λ _ w₃ h₃.
                  let liked = normalize_pair-Liked w₃.db.swipes h₃.0.there h₃.0.back in
                  (h₃.0.sound, (liked.0, liked.1, h₃.0.matched, h₃.0.talks, h₃.1.0, h₃.1.1.0))

  after_like-Recorded :
      (action : String) (w : World)
      → IsSound w.db
      → Liked actor target w.db.swipes
      → Ensures (Recorded action) (after_like env actor target w)
  unfolding after_like
  after_like-Recorded action w s there =
      and_then-Ensures
        (λ found db'.
          (db' ≡ w.db)
          × (found ≡ true → Liked target actor w.db.swipes)
          × (found ≡ false → ¬ Liked target actor w.db.swipes))
        (Recorded action) (run_query (has_reciprocal_like target actor) w) _
        (run_query-Ensures _ (has_reciprocal_like target actor) w
          (has_reciprocal_like-Yields target actor w.db))
        (λ found w' q. elim (Bool-cases found) [
          | inl back ↦
              rw back (make_match-Recorded action w' (rw q.0 s) (rw q.0 there) (rw q.0 (q.1 back)))
          | inr none_yet ↦ rw none_yet (rw q.0 s, λ _. rw q.0 (q.2 none_yet))
        ])

  swipe_statements-Recorded :
      (action : String) (w : World)
      → IsSound w.db
      → Ensures (Recorded action) (swipe_statements env actor target action w)
  unfolding swipe_statements
  swipe_statements-Recorded action w s =
      and_then-Ensures (λ _ db'. IsSound db' × (action ≡ "like" → Liked actor target db'.swipes))
        (Recorded action)
        (run_insert env.gen_random_uuid (λ id. create_swipe id actor target action) w) _
        (run_insert-Ensures _ env.gen_random_uuid (λ id. create_swipe id actor target action) w
          (λ id. create_swipe-Yields id actor target action w.db s))
        (λ _ w' q. elim (Bool-cases (str_eq action "like")) [
          | inl like ↦
              rw like (after_like-Recorded action w' q.0 (q.1 ((eq_iff action "like").0 like)))
          | inr pass ↦ rw pass (q.0, λ like. absurd (cc (pass, (eq_iff action "like").1 like)))
        ])

  -- The notifications change no table.
  announce-Leaves :
      (P : Db → Type 0) (made : Made) (w : World)
      → P w.db
      → Ensures (λ _. P) (announce env actor target made w)
  unfolding announce
  announce-Leaves P none w h = h
  announce-Leaves P (some (mid, cid)) w h =
      and_then-Ensures (λ _. P) (λ _. P) (attempt (run_query (get_public_profile actor)) w) _
        (profile_read actor w h)
        λ _ w₁ h₁.
          and_then-Ensures (λ _. P) (λ _. P) (attempt (run_query (get_public_profile target)) w₁) _
            (profile_read target w₁ h₁) λ _ w₂ h₂. h₂
    where
      profile_read :
          (user : Uuid) (w : World)
          → P w.db
          → Ensures (λ _. P) (attempt {F = DbError} (run_query (get_public_profile user)) w)
      profile_read user w h = attempt-Ensures DbError P (run_query (get_public_profile user)) w (
          run_query-Leaves P (get_public_profile user) w h
            (unfold get_public_profile in one_row-Yields P _ w.db h))

announce-ne-err :
    (env : Env) (actor target : Uuid) (made : Made) (w : World) (e : DbError) (w' : World)
    → announce env actor target made w ≢ (err e, w')
unfolding announce attempt
announce-ne-err env actor target none w e w' = ground arith
announce-ne-err env actor target (some (mid, cid)) w e w' = ground arith

-- On sound tables a swipe that succeeds leaves them sound. A like then reports no match exactly
-- when the target had not liked the actor: with no match, the target has not; with one, both
-- likes, the match of the ordered pair, its conversation and both members are on record. A swipe
-- that fails, at any statement or at the commit, leaves the tables as they were.
pub record_swipe-Ends :
    (env : Env) (actor target : Uuid) (action : String) (w : World)
    → IsSound w.db
    → Ends
        (Recorded env actor target action)
        (λ _ db'. db' ≡ w.db)
        (record_swipe env actor target action w)
unfolding record_swipe
record_swipe-Ends env actor target action w s =
    and_then-Ends (Recorded env actor target action) (Recorded env actor target action)
      (λ _ db'. db' ≡ w.db) (transaction (swipe_statements env actor target action) w) _
      (transaction-Ends _ (swipe_statements env actor target action) w (
        transaction-Ensures _ (swipe_statements env actor target action) w
          (λ w' e. swipe_statements-Recorded env actor target action w' (rw e s))))
      λ made w₁ h₁.
        and_then-Ends (λ _. Recorded env actor target action made)
          (Recorded env actor target action) (λ _ db'. db' ≡ w.db)
          (announce env actor target made w₁) _
          (Ends-of_Ensures _ _ (announce env actor target made w₁)
            (announce-Leaves env actor target _ made w₁ h₁)
            (announce-ne-err env actor target made w₁))
          λ _ w₂ h₂. h₂
