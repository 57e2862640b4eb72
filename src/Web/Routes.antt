-- ===== src/Web/Routes.antt =====
-- The routes of the JSON API behind `RequireSession`, of `Router` in internal/handlers/server.go.

pub mod Own
use spliit_mcp.Prelude.{String, Option}
use spliit_mcp.Store.Rows.{User}
use spliit_mcp.Tools.World.{Env}
use spliit_mcp.Config.{Config}
use spliit_mcp.Web.Published.{client_config}
use spliit_mcp.Web.Reply.{config_body, pure, Response, Handler, ◌>>=◌}
use spliit_mcp.Web.Session.{require_session}
use spliit_mcp.Web.Me
use spliit_mcp.Web.Me.{MeEdit, update_me}
use spliit_mcp.Web.Groups as Groups
use spliit_mcp.Web.Groups.{Joining, NewGroup, GroupEdit}

-- A request of the API, with its decoded body and the ID of its path.
pub data Request : Type 0 where
  get_me get_config list_groups : Request
  put_me : Option MeEdit → Request
  preview_group : Option (String × String) → Request
  create_group : Option Joining → Request
  create_spliit_group : Option NewGroup → Request
  update_group : String → Option GroupEdit → Request
  delete_group : String → Request

module _ {D : Type 0} (env : Env D) (config : Config) (lower : String → String) where
  -- The handler of a request.
  unfoldable pub dispatch : Request → User → Handler Response
  unfolding Me.get_me client_config update_me Groups.list Groups.preview Groups.create
      Groups.create_new Groups.update Groups.remove
  dispatch get_me user = Me.get_me env user
  dispatch get_config user =
      pure (record { status = 200; body = config_body (client_config config) })
  dispatch list_groups user = Groups.list env config.spliit.default_url user
  dispatch (put_me edit) user = update_me env user edit
  dispatch (preview_group given) user = Groups.preview env config.spliit.default_url user given
  dispatch (create_group given) user = Groups.create env config.spliit.default_url user given
  dispatch (create_spliit_group given) user =
      Groups.create_new env config.spliit.default_url user lower given
  dispatch (update_group id given) user = Groups.update env config.spliit.default_url user id given
  dispatch (delete_group id) user = Groups.remove env config.spliit.default_url user id

  -- A request with the session cookie that it has.
  unfoldable pub api : Option String → Request → Handler Response
  unfolding require_session dispatch
  api cookie request = require_session env cookie >>= dispatch request
