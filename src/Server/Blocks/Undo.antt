-- ===== src/Server/Blocks/Undo.antt =====
-- Unblocking after blocking.
use match_camp.Base.{◌≡◌, refl, ◌≢◌, true, false, some, arith, any, filter-none, ◌==◌, ==_refl}
use match_camp.Database.Models.{Uuid, has_user}
use match_camp.Database.Profile.{blocks_user, block_user, unblock_user}
use match_camp.Database.Result.{ok}
use match_camp.Server.Blocks.{no_content, block_user_handler, unblock_user_handler}
use match_camp.Server.Response.{CurrentUser, lift, parse_route_uuid}
use match_camp.Text.{Text}
use match_camp.World.Env.{Env, World}
use match_camp.World.Monad.{raise_if, on_error, run_query, calm}

-- Where no call of PostgreSQL fails, a block of another user on record, whom the user had not
-- blocked, and the unblock after it are both answered with 204 and leave the tables as they were.
pub unblock_after_block :
    (env : Env) (user : CurrentUser) (id_param : Text) (target : Uuid) (w : World)
    → env.uuid_parse id_param ≡ some target
    → target ≢ user.id
    → has_user user.id w.db ≡ true
    → has_user target w.db ≡ true
    → any (blocks_user user.id target) w.db.blocks ≡ false
    → let (blocked, w₁) = block_user_handler env user id_param (calm w) in
      let (unblocked, w₂) = unblock_user_handler env user id_param w₁ in
      (blocked ≡ ok no_content) × (unblocked ≡ ok no_content) × (w₂.db ≡ w.db)
unfolding block_user_handler unblock_user_handler parse_route_uuid lift raise_if on_error run_query
    block_user unblock_user
unblock_after_block env user id_param target w parsed other known known' fresh =
    let distinct : (target == user.id) ≡ false = ground (arith, other) in
    let distinct' : (user.id == target) ≡ false = ground (arith, other) in
    rw parsed rw distinct rw distinct' rw fresh rw known rw known' rw (==_refl user.id) rw
      (==_refl target) rw (filter-none (blocks_user user.id target) w.db.blocks fresh)
      (refl, refl, refl)
