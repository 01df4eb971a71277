-- ===== src/Server/Blocks.antt =====
-- internal/server/server.go: `blockUser` and `unblockUser`.
pub mod Hiding
pub mod Undo
use match_camp.Base.{String, [], ◌==◌}
use match_camp.Database.Profile.{block_user, unblock_user}
use match_camp.Server.Response.{no_body, Response, CurrentUser, parse_route_uuid}
use match_camp.Text.{Text}
use match_camp.World.Env.{Env}
use match_camp.World.Monad.{M, ◌>>=◌, ◌>>◌, pure, raise_if, on_error, run_query}

abbrev pub no_content : Response
no_content = record { status = 204; body = no_body; cookies = [] }

module _ (env : Env) where
  -- POST /v1/users/{id}/block
  unfoldable pub block_user_handler : CurrentUser → Text → M String Response
  block_user_handler user id_param = do
    target ← parse_route_uuid env.uuid_parse id_param
    raise_if (target == user.id) "cannot_block_self"
    on_error (run_query (block_user user.id target)) (λ _. "block_failed")
    pure no_content

  -- DELETE /v1/users/{id}/block
  unfoldable pub unblock_user_handler : CurrentUser → Text → M String Response
  unblock_user_handler user id_param = do
    target ← parse_route_uuid env.uuid_parse id_param
    on_error (run_query (unblock_user user.id target)) (λ _. "unblock_failed")
    pure no_content
