-- ===== src/Database/Discovery/Offers.antt =====
-- Whom ListDiscoveryProfiles may offer to a reader.
use match_camp.Base.{
  ℕ, ◌≤◌, ◌≡◌, refl, sym, subst, ◌≢◌, inl, inr, true, false, ◌||◌, Option, some, List, [], ◌∷◌, map,
  arith, length, take, drop, filter, find?, All, Any, All-map_of, All-filter, filter-All, All-drop,
  All-both, All-map, length-map, any-eq-false, find?-Any, Any-map_of, In, All-In_self, sort_by,
  All-sort_by, All-take, length-take-le, ◌==◌, ==_iff, Option-cases,
}
use match_camp.Database.Discovery.{
  DiscoveryRow, age_years, age_wanted, is_discoverable, join_users, latest_first, discovery_row,
  list_discovery_profiles,
}
use match_camp.Database.Match.{swiped}
use match_camp.Database.Models.{Uuid, Date, User, Profile, ProfilePreference, Swipe, Block, Db}
use match_camp.Database.Profile.{preference_of, blocks_user}
use match_camp.Database.Result.{ok}

-- Neither has blocked the other.
abbrev pub Unblocked : Uuid → Uuid → Block → Type 0
Unblocked a b k =
    ¬ ((k.blocker_id ≡ a) × (k.blocked_id ≡ b)) × ¬ ((k.blocker_id ≡ b) × (k.blocked_id ≡ a))

abbrev pub Unswiped : Uuid → Uuid → Swipe → Type 0
Unswiped actor target s = ¬ ((s.actor_user_id ≡ actor) × (s.target_user_id ≡ target))

-- Another user with a visible profile, whom the reader has not swiped on, with no block between the
-- two, and with an age that the reader wants where both are known.
abbrev pub IsOffer : Date → Uuid → Db → DiscoveryRow → Type 0
IsOffer today me db row =
    (row.id ≢ me)
    × All (Unswiped me row.id) db.swipes
    × All (Unblocked me row.id) db.blocks
    × Any (λ p. (p.user_id ≡ row.id) × (p.visible ≡ true) × (p.birth_date ≡ row.birth_date))
        db.profiles
    × ((pref : ProfilePreference) (birth : Date)
        → find? (preference_of me) db.profile_preferences ≡ some pref
        → row.birth_date ≡ some birth
        → (pref.min_age ≤ age_years today birth) × (age_years today birth ≤ pref.max_age))

abbrev Joined : Db → User × Profile → Type 0
Joined db (u, p) = (u.id ≡ p.user_id) × In p db.profiles

join_users-Joined :
    (db : Db) (ps : List Profile)
    → All (λ p. In p db.profiles) ps
    → All (Joined db) (join_users db ps)
unfolding join_users
join_users-Joined db [] h = tt
join_users-Joined db (p ∷ ps) h =
    elim (Option-cases (find? (λ (u : User). u.id == p.user_id) db.users)) [
      | inl missing ↦ rw missing (join_users-Joined db ps h.1)
      | inr (u, found) ↦
          let known = find?-Any (λ (v : User). v.id == p.user_id) db.users u found in
          rw found (((==_iff u.id p.user_id).0 known.0, h.0), join_users-Joined db ps h.1)
    ]

age_fits :
    (today : Date) (wanted : Option ProfilePreference) (birth : Option Date)
    → age_wanted today wanted birth ≡ true
    → (pref : ProfilePreference) (b : Date) → wanted ≡ some pref
    → birth ≡ some b
    → (pref.min_age ≤ age_years today b) × (age_years today b ≤ pref.max_age)
unfolding age_wanted
age_fits today wanted birth h pref b e f =
    let fits : age_wanted today (some pref) (some b) ≡ true =
      subst (λ o. age_wanted today o (some b) ≡ true) e
        (subst (λ o. age_wanted today wanted o ≡ true) f h) in
    (ground (arith, fits), ground (arith, fits))

discoverable-IsOffer :
    (today : Date) (me : Uuid) (db : Db) (u : User) (p : Profile)
    → Joined db (u, p)
    → is_discoverable today me db u p ≡ true
    → IsOffer today me db (discovery_row (u, p))
unfolding is_discoverable
discoverable-IsOffer today me db u p j h = (
  ground (arith, h),
  All-map_of (λ s. swiped me u.id s ≡ false) _ (λ s e same. ground arith) db.swipes
      (any-eq-false _ db.swipes (ground (arith, h))),
  All-map_of (λ b. (blocks_user me u.id b || blocks_user u.id me b) ≡ false) _
      (λ b e. (λ same. ground arith, λ same. ground arith)) db.blocks
      (any-eq-false _ db.blocks (ground (arith, h))),
  Any-map_of (λ q. q ≡ p) _ (λ q e. rw e (sym j.0, ground (arith, h), refl)) db.profiles j.1,
  age_fits today (find? (preference_of me) db.profile_preferences) p.birth_date (ground (arith, h)),
)

-- ListDiscoveryProfiles changes no table and returns at most `limit` rows, each an offer to the reader: another user
-- with a visible profile, whom the reader has not swiped on, with no block between the two in
-- either direction, and with an age that the reader wants where both are known.
pub list_discovery_profiles_offers :
    (today : Date) (me : Uuid) (limit offset : ℕ) (db : Db)
    → (rows : List DiscoveryRow) × (list_discovery_profiles today me limit offset db
        ≡ ok (rows, db))
      × (length rows ≤ limit)
      × All (IsOffer today me db) rows
unfolding list_discovery_profiles
list_discovery_profiles_offers today me limit offset db = (
  map discovery_row page,
  refl,
  omega (arith, length-map discovery_row page, length-take-le limit (drop offset sorted)),
  All-map (IsOffer today me db) discovery_row page
      (All-take _ limit (drop offset sorted) (All-drop _ offset sorted offers)),
)
  where
    rows : List (User × Profile)
    rows = filter (λ r. is_discoverable today me db r.0 r.1) (join_users db db.profiles)

    sorted : List (User × Profile)
    sorted = sort_by latest_first rows

    page : List (User × Profile)
    page = take limit (drop offset sorted)

    offers : All (λ r. IsOffer today me db (discovery_row r)) sorted
    offers = All-sort_by latest_first _ rows (
        All-map_of _ _ (λ r h. discoverable-IsOffer today me db r.0 r.1 h.0 h.1) rows
          (All-both (Joined db) (λ r. is_discoverable today me db r.0 r.1 ≡ true) rows
            (All-filter (Joined db) _ (join_users db db.profiles)
              (join_users-Joined db db.profiles (All-In_self db.profiles)))
            (filter-All _ (join_users db db.profiles))))
