-- ===== src/Server/Auth/Account.antt =====
-- The row of a new account, and the hash in it.
use match_camp.Base.{
  ℕ, ◌≡◌, refl, ◌≢◌, inl, inr, false, ◌||◌, some, ◌∷◌, arith, any, All, All-map_of, any-eq-false,
  ◌==◌, Bool-cases, Option-cases,
}
use match_camp.Database.Auth.{user_row, email_check, has_email, new_user, create_password_user}
use match_camp.Database.Models.{Uuid, User, Db}
use match_camp.Server.Auth.{hash_password}
use match_camp.Text.{Text}
use match_camp.Text.Laws.{text_eq_iff}
use match_camp.World.Ends.{Ends}
use match_camp.World.Ensures.{Yields}
use match_camp.World.Env.{Env, Server, World}

-- The row of a new account.
abbrev pub IsNewUser : Text → Text → Text → Db → User → Type 0
IsNewUser email name hash before user =
    (user.email ≡ email)
    × (user.display_name ≡ name)
    × (user.password_hash ≡ some hash)
    × All (λ u. (u.email ≢ email) × (u.id ≢ user.id)) before.users

-- The one row that a registration adds to the users.
abbrev pub OpensAccount : Text → Text → Text → Db → User → Db → Type 0
OpensAccount email name hash before user after =
    IsNewUser email name hash before user × (after ≡ record before { users = user ∷ before.users })

pub create_password_user-Yields :
    (id : Uuid) (email name hash : Text) (db : Db)
    → Yields
        (λ row db'.
          (user : User) × (row ≡ user_row user) × OpensAccount email name hash db user db')
        (create_password_user id email name (some hash) db)
unfolding create_password_user
create_password_user-Yields id email name hash db = elim (Bool-cases (email_check email)) [
  | inr bad ↦ rw bad tt
  | inl good ↦ elim (Bool-cases (any (λ u. u.id == id || has_email email u) db.users)) [
    | inl taken ↦ rw good rw taken tt
    | inr fresh ↦ rw good rw fresh (
      new_user id email name (some hash) db,
      refl,
      (
        (
          refl,
          refl,
          refl,
          All-map_of (λ u. (u.id == id || has_email email u) ≡ false) _ (λ u e. distinct u e)
              db.users (any-eq-false _ db.users fresh),
        ),
        refl,
      ),
    )
  ]
]
  where
    distinct :
        (u : User) → (u.id == id || has_email email u) ≡ false → (u.email ≢ email) × (u.id ≢ id)
    distinct u e = (
      λ same. ground (arith, e, (text_eq_iff u.email email).1 same),
      λ same. ground (arith, e, same),
    )

pub hash_password-Ends :
    (env : Env) (srv : Server) (password : Text) (w : World)
    → Ends
        (λ hash db'. (db' ≡ w.db) × (salt : ℕ) × (env.bcrypt_generate salt password ≡ some hash))
        (λ _ db'. db' ≡ w.db)
        (hash_password env srv password w)
unfolding hash_password
hash_password-Ends env srv password w = elim (Option-cases (env.bcrypt_generate w.drawn password)) [
  | inl nothing ↦ rw nothing refl
  | inr (hash, made) ↦ rw made (refl, w.drawn, made)
]
