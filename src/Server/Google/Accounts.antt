-- ===== src/Server/Google/Accounts.antt =====
-- What upsertGoogleUser leaves.
use match_camp.Base.{
  ◌≡◌, refl, sym, ap, subst, ◌∙◌, ◌⊎◌, inl, inr, Bool, true, false, none, List, [], ◌∷◌, arith,
  str_eq, eq_iff, any, find?, All, Any, find?-Any, find?-none, Any-map_of, All-Any-clash, All-In,
  ◌==◌, ==_iff, Bool-cases, Option-cases,
}
use match_camp.Database.Auth.{
  UserRow, email_check, has_email, new_user, is_google, get_google_user_by_subject,
  upsert_google_user_by_email, link_google_identity,
}
use match_camp.Database.Models.{Uuid, User, AuthIdentity, Db, has_user}
use match_camp.Database.Result.{Query}
use match_camp.Server.Auth.{current_user}
use match_camp.Server.Google.{
  GoogleProfile, display_name_of, create_and_link, known_or_created, google_statements,
  upsert_google_user,
}
use match_camp.Server.Response.{CurrentUser}
use match_camp.Text.{Text, text_eq}
use match_camp.Text.Laws.{text_eq_iff}
use match_camp.World.Ends.{Ends, transaction-Ends}
use match_camp.World.Ensures.{
  Ensures, Yields, Yields-weaken, and_then-Ensures, run_insert-Ensures, transaction-Ensures,
}
use match_camp.World.Env.{Env, Server, World}
use match_camp.World.Monad.{lost, rest_faults, run_query, run_insert, observe}

-- The user is on record with this id and this email.
abbrev pub HasAccount : Uuid → Text → Db → Type 0
HasAccount id email db = Any (λ u. (u.id ≡ id) × (u.email ≡ email)) db.users

-- The identity is that of a subject of Google.
abbrev pub IsOf : Text → AuthIdentity → Type 0
IsOf subject ai = (ai.provider ≡ "google") × (ai.provider_subject ≡ subject)

-- REFERENCES users: the user of each identity is on record.
abbrev pub OwnersKnown : Db → Type 0
OwnersKnown db = All (λ (ai : AuthIdentity). has_user ai.user_id db ≡ true) db.auth_identities

-- The users stay, or an account of the profile, without a password, comes first.
abbrev pub OpensAtMost : GoogleProfile → Db → List User → Type 0
OpensAtMost profile before users =
    (users ≡ before.users)
    ⊎ ((id : Uuid) × (users
          ≡ new_user id profile.email (display_name_of profile) none before ∷ before.users))

-- Whom a sign-in with the profile names: the user to whom the subject was linked, and then the
-- tables stay; or, for a subject without a link, the user of the profile's email, to whom one new
-- row then links the subject.
abbrev pub IsSignedUp : GoogleProfile → Db → CurrentUser → Db → Type 0
IsSignedUp profile before user after =
    HasAccount user.id user.email after
    × ((Any (λ ai. IsOf profile.subject ai × (ai.user_id ≡ user.id)) before.auth_identities
          × (after ≡ before))
        ⊎ ((¬ Any (IsOf profile.subject) before.auth_identities)
            × (user.email ≡ profile.email)
            × ((users : List User) × (link : AuthIdentity) × OpensAtMost profile before users
                × IsOf profile.subject link
                × (link.user_id ≡ user.id)
                × (after ≡ record before {
                  users = users;
                  auth_identities = link ∷ before.auth_identities;
                }))))

IsOf-google : (subject : Text) (ai : AuthIdentity) → is_google subject ai ≡ true → IsOf subject ai
IsOf-google subject ai h = (
  (eq_iff ai.provider "google").0 (ground arith),
  (text_eq_iff ai.provider_subject subject).0 (ground arith),
)

IsOf-other : (subject : Text) (ai : AuthIdentity) → is_google subject ai ≡ false → ¬ IsOf subject ai
IsOf-other subject ai h (of_google, same) =
    let p : str_eq ai.provider "google" ≡ true = (eq_iff ai.provider "google").1 of_google in
    let s : text_eq ai.provider_subject subject ≡ true =
      (text_eq_iff ai.provider_subject subject).1 same in
    ground (arith, p, s)

-- The account that UpsertGoogleUserByEmail gives, and what it leaves.
abbrev IsOpened : GoogleProfile → Db → UserRow → Db → Type 0
IsOpened profile before row after =
    (row.email ≡ profile.email)
    × ((users : List User) × OpensAtMost profile before users
        × (after ≡ record before { users = users })
        × Any (λ u. (u.id ≡ row.id) × (u.email ≡ row.email)) users)

by_email-Yields :
    (id : Uuid) (profile : GoogleProfile) (db : Db)
    → Yields
        (IsOpened profile db)
        (upsert_google_user_by_email id profile.email (display_name_of profile) db)
unfolding upsert_google_user_by_email
by_email-Yields id profile db = elim (Bool-cases (email_check profile.email)) [
  | inr bad ↦ rw bad tt
  | inl good ↦ elim (Option-cases (find? (has_email profile.email) db.users)) [
    | inr (u, taken) ↦
        let (same, there) = find?-Any _ db.users u taken in
        rw good rw taken (
          (text_eq_iff u.email profile.email).0 same,
          (db.users, inl refl, refl, Any-map_of _ _ (λ v e. rw e (refl, refl)) db.users there),
        )
    | inl free ↦ elim (Bool-cases (any (λ (u : User). u.id == id) db.users)) [
      | inl drawn ↦ rw good rw free rw drawn tt
      | inr new ↦ rw good rw free rw new (refl, (_, inr (id, refl), refl, inl (refl, refl)))
    ]
  ]
]

link-Yields :
    (id user_id : Uuid) (subject email : Text) (db : Db)
    → any (is_google subject) db.auth_identities ≡ false
    → Yields
        (λ _ db'.
          (link : AuthIdentity) × IsOf subject link
          × (link.user_id ≡ user_id)
          × (db' ≡ record db { auth_identities = link ∷ db.auth_identities }))
        (link_google_identity id user_id subject email db)
unfolding link_google_identity
link-Yields id user_id subject email db free =
    elim (Bool-cases (any (λ ai. ai.id == id) db.auth_identities)) [
      | inl drawn ↦ rw free rw drawn tt
      | inr fresh ↦ elim (Bool-cases (has_user user_id db)) [
        | inl known ↦ rw free rw fresh rw known (_, (refl, refl), refl, refl)
        | inr unknown ↦ rw free rw fresh rw unknown tt
      ]
    ]

find?-free : {A : Type 0} (p : A → Bool) (xs : List A) → find? p xs ≡ none → any p xs ≡ false
find?-free p [] h = refl
find?-free p (x ∷ xs) h = ground (arith, find?-free p xs)

find?-known :
    (id : Uuid) (us : List User)
    → any (λ (u : User). u.id == id) us ≡ true
    → ¬ (find? (λ (u : User). u.id == id) us ≡ none)
find?-known id [] h e = cc
find?-known id (u ∷ us) h e = elim (Bool-cases (u.id == id)) [
  | inl here ↦ ground arith
  | inr other ↦ find?-known id us (ground arith) (ground arith)
]

module _ (env : Env) (srv : Server) where
  create_and_link-Ensures :
      (profile : GoogleProfile) (w : World)
      → find? (is_google profile.subject) w.db.auth_identities ≡ none
      → Ensures (IsSignedUp profile w.db) (create_and_link env srv profile w)
  unfolding create_and_link
  create_and_link-Ensures profile w free =
      and_then-Ensures (IsOpened profile w.db) _ (run_insert env.gen_random_uuid created w) _
        (run_insert-Ensures _ env.gen_random_uuid created w (λ id. by_email-Yields id profile w.db))
        λ row w₁ h₁.
          let (email, (users, opens, left, there)) = h₁ in
          let unlinked : any (is_google profile.subject) w₁.db.auth_identities ≡ false =
            rw left (find?-free _ w.db.auth_identities free) in
          and_then-Ensures (λ _ db'. IsSignedUp profile w.db (current_user row) db') _
            (run_insert env.gen_random_uuid (linked row.id) w₁) _
            (run_insert-Ensures _ env.gen_random_uuid (linked row.id) w₁ (λ id.
              Yields-weaken _ _ (linked row.id id w₁.db)
                (λ _ db' k.
                  let (link, of_subject, owner, same) = k in
                  let put : Db → Db =
                    λ d. record d { auth_identities = link ∷ d.auth_identities } in
                  let after : db' ≡ record w.db {
                    users = users;
                    auth_identities = link ∷ w.db.auth_identities;
                  } =
                    same ∙ ap put left in
                  (
                    rw after there,
                    inr (
                      not_linked w.db free,
                      email,
                      (users, link, opens, of_subject, owner, after),
                    ),
                  ))
                (link-Yields id row.id profile.subject profile.email w₁.db unlinked)))
            λ _ w₂ h₂. h₂
    where
      created : Uuid → Query UserRow
      created id = upsert_google_user_by_email id profile.email (display_name_of profile)

      linked : Uuid → Uuid → Query (Unit {0})
      linked user id = link_google_identity id user profile.subject profile.email

      not_linked :
          (db : Db)
          → find? (is_google profile.subject) db.auth_identities ≡ none
          → ¬ Any (IsOf profile.subject) db.auth_identities
      not_linked db h =
          All-Any-clash _ (IsOf profile.subject) (IsOf-other profile.subject) db.auth_identities
            (find?-none _ db.auth_identities h)

  google_statements-Ensures :
      (profile : GoogleProfile) (w : World)
      → OwnersKnown w.db
      → Ensures (IsSignedUp profile w.db) (google_statements env srv profile w)
  unfolding google_statements known_or_created observe run_query get_google_user_by_subject
  google_statements-Ensures profile w owners = elim (Bool-cases (lost w.faults)) [
    | inl fault ↦ rw fault tt
    | inr fine ↦ elim (Option-cases (find? (is_google profile.subject) w.db.auth_identities)) [
      | inl free ↦
          rw fine rw free
            (create_and_link-Ensures profile (record w { faults = rest_faults w.faults }) free)
      | inr (ai, linked) ↦
          let (of_subject, there) = find?-Any _ w.db.auth_identities ai linked in
          let known : has_user ai.user_id w.db ≡ true =
            All-In _ ai w.db.auth_identities owners there in
          elim (Option-cases (find? (λ (u : User). u.id == ai.user_id) w.db.users)) [
            | inl gone ↦ absurd (find?-known ai.user_id w.db.users known gone)
            | inr (u, found) ↦
                let (is_owner, among) = find?-Any _ w.db.users u found in
                rw fine rw linked rw found (
                  Any-map_of _ _ (λ v e. rw e (refl, refl)) w.db.users among,
                  inl (
                    Any-map_of _ _
                        (λ a e. rw e (
                          IsOf-google profile.subject ai of_subject,
                          sym ((==_iff u.id ai.user_id).0 is_owner),
                        ))
                        w.db.auth_identities there,
                    refl,
                  ),
                )
          ]
    ]
  ]

  pub upsert_google_user-Ends :
      (profile : GoogleProfile) (w : World)
      → OwnersKnown w.db
      → Ends (IsSignedUp profile w.db) (λ _ db'. db' ≡ w.db) (upsert_google_user env srv profile w)
  unfolding upsert_google_user
  upsert_google_user-Ends profile w owners =
      transaction-Ends _ (google_statements env srv profile) w (
        transaction-Ensures _ (google_statements env srv profile) w (λ w' same.
          subst (λ d. Ensures (IsSignedUp profile d) (google_statements env srv profile w')) same
            (google_statements-Ensures profile w' (subst OwnersKnown (sym same) owners))))
