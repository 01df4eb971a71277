-- ===== src/Server/Blocks/Hiding.antt =====
-- What a block does to discovery.
use match_camp.Base.{
  ℕ, String, ◌≡◌, refl, sym, subst, ◌∙◌, ◌≢◌, ◌⊎◌, inl, inr, ◌&&◌, some, List, [], ◌∷◌, arith, any,
  All, Any, All-map_of, any-Any, Any-map_of, All-Any-clash, In, ◌==◌, ==_iff, Bool-cases,
}
use match_camp.Database.Discovery.{DiscoveryRow, list_discovery_profiles}
use match_camp.Database.Discovery.Offers.{Unblocked, IsOffer, list_discovery_profiles_offers}
use match_camp.Database.Models.{Uuid, Date, Db, has_user}
use match_camp.Database.Profile.{blocks_user, block_user}
use match_camp.Database.Result.{DbError, Result, ok}
use match_camp.Server.Blocks.{no_content, block_user_handler}
use match_camp.Server.Response.{CurrentUser, parse_route_uuid}
use match_camp.Server.Response.Laws.{parse_route_uuid-Ends}
use match_camp.Text.{Text}
use match_camp.World.Ends.{
  Ends, and_then-Ends, run_query-Ends, on_error-Ends, Ends-weaken, raise_if-Ends,
}
use match_camp.World.Ensures.{Yields}
use match_camp.World.Env.{Env, World}
use match_camp.World.Monad.{raise_if, on_error, run_query}

-- `user` is on no page of discovery of `reader`.
abbrev pub IsHiddenFrom : Uuid → Uuid → Db → Type 0
IsHiddenFrom user reader db =
    (today : Date) (limit offset : ℕ) (rows : List DiscoveryRow) (after : Db)
    → list_discovery_profiles today reader limit offset db ≡ ok (rows, after)
    → All (λ r. r.id ≢ user) rows

abbrev pub HasBlock : Uuid → Uuid → Db → Type 0
HasBlock blocker blocked db =
    Any (λ b. (b.blocker_id ≡ blocker) × (b.blocked_id ≡ blocked)) db.blocks

ok_rows :
    {rows rows' : List DiscoveryRow} {db db' : Db}
    → ◌≡◌ {A = Result DbError (List DiscoveryRow × Db)} (ok (rows, db)) (ok (rows', db'))
    → rows ≡ rows'
ok_rows h = ground (arith, h)

-- A page has nobody who stands in a block with the reader.
clash-IsHiddenFrom :
    (other reader : Uuid) (db : Db)
    → HasBlock reader other db ⊎ HasBlock other reader db
    → IsHiddenFrom other reader db
clash-IsHiddenFrom other reader db blocked today limit offset rows after e =
    let (found, e', short, offers) = list_discovery_profiles_offers today reader limit offset db in
    subst (All (λ r. r.id ≢ other)) (ok_rows (sym e' ∙ e)) (
      All-map_of (IsOffer today reader db) (λ r. r.id ≢ other)
        (λ r offer same. clash r.id same offer.2 blocked) found offers)
  where
    clash :
        (id : Uuid)
        → id ≡ other
        → All (Unblocked reader id) db.blocks
        → ¬ (HasBlock reader other db ⊎ HasBlock other reader db)
    clash id same free (inl b) =
        All-Any-clash (Unblocked reader id) _ (λ k u m. u.0 (m.0, m.1 ∙ sym same)) db.blocks free b
    clash id same free (inr b) =
        All-Any-clash (Unblocked reader id) _ (λ k u m. u.1 (m.0 ∙ sym same, m.1)) db.blocks free b

block_user-Yields :
    (a b : Uuid) (db : Db)
    → Yields
        (λ _ db'.
          HasBlock a b db'
          × ((x y : Uuid) → HasBlock x y db → HasBlock x y db')
          × (db' ≡ record db { blocks = db'.blocks }))
        (block_user a b db)
unfolding block_user
block_user-Yields a b db = elim (Bool-cases (a == b)) [
  | inl self ↦ rw self tt
  | inr other ↦ elim (Bool-cases (any (blocks_user a b) db.blocks)) [
    | inl old ↦
        rw other rw old (
          Any-map_of _ _ (λ k e. ground arith) db.blocks (any-Any _ db.blocks old),
          λ x y h. h,
          refl,
        )
    | inr new ↦ elim (Bool-cases (has_user a db && has_user b db)) [
      | inl known ↦ rw other rw new rw known (inl (refl, refl), λ x y h. inr h, refl)
      | inr unknown ↦ rw other rw new rw unknown tt
    ]
  ]
]

-- The errors of the endpoint.
abbrev pub BlockRefused : Db → String → Db → Type 0
BlockRefused before code after =
    In code ("invalid_uuid" ∷ "cannot_block_self" ∷ "block_failed" ∷ []) × (after ≡ before)

-- POST /v1/users/{id}/block answers 204 only for another user; then neither of the two is on any
-- page of the other's discovery, blocks that were there stay, and only the table of blocks
-- changes. Any error is one of three codes and leaves the tables as they were.
pub block_user_handler-Ends :
    (env : Env) (user : CurrentUser) (id_param : Text) (w : World)
    → Ends
        (λ resp db'.
          (target : Uuid) × (env.uuid_parse id_param ≡ some target)
          × (target ≢ user.id)
          × (resp ≡ no_content)
          × IsHiddenFrom user.id target db'
          × IsHiddenFrom target user.id db'
          × ((x y : Uuid) → HasBlock x y w.db → HasBlock x y db')
          × (db' ≡ record w.db { blocks = db'.blocks }))
        (BlockRefused w.db)
        (block_user_handler env user id_param w)
unfolding block_user_handler
block_user_handler-Ends env user id_param w =
    and_then-Ends (λ target db'. (db' ≡ w.db) × (env.uuid_parse id_param ≡ some target)) _ Refusal
      (parse_route_uuid env.uuid_parse id_param w) _
      (parse_route_uuid-Ends Refusal env.uuid_parse id_param w (inl refl, refl))
      λ target w₁ h₁.
        and_then-Ends (λ _ db'. (db' ≡ w.db) × (target ≢ user.id)) _ Refusal
          (raise_if (target == user.id) "cannot_block_self" w₁) _
          (raise_if-Ends _ Refusal (target == user.id) _ w₁
            (λ other. (h₁.0, λ same. absurd (cc (other, (==_iff target user.id).1 same))))
            (inr (inl refl), h₁.0))
          λ _ w₂ h₂.
            and_then-Ends
              (λ _ db'.
                HasBlock user.id target db'
                × ((x y : Uuid) → HasBlock x y w.db → HasBlock x y db')
                × (db' ≡ record w.db { blocks = db'.blocks }))
              _ Refusal (on_error (run_query (block_user user.id target)) (λ _. "block_failed") w₂)
              _
              (on_error-Ends _ Refusal (run_query (block_user user.id target)) (λ _. "block_failed")
                w₂
                (Ends-weaken _ _ _ _ (run_query (block_user user.id target) w₂)
                  (λ _ db' k. rw h₂.0 at k) (λ e db' k. (inr (inr (inl refl)), k ∙ h₂.0))
                  (run_query-Ends _ (block_user user.id target) w₂
                    (block_user-Yields user.id target w₂.db))))
              λ _ w₃ h₃. (
                target,
                h₁.1,
                h₂.1,
                refl,
                clash-IsHiddenFrom user.id target w₃.db (inr h₃.0),
                clash-IsHiddenFrom target user.id w₃.db (inl h₃.0),
                h₃.1,
                h₃.2,
              )
  where
    Refusal : String → Db → Type 0
    Refusal = BlockRefused w.db
