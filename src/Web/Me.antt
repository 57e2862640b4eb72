-- ===== src/Web/Me.antt =====
-- `meResponse`, `GetMe` and `UpdateMe` of internal/handlers/api.go.
pub mod Saved
use spliit_mcp.Prelude.{String, Option, none, some, is_some, not, ◌&&◌, ◌==◌, if◌then◌else◌}
use spliit_mcp.Text.{trim_space}
use spliit_mcp.Store.Rows.{User, StoreError, not_found}
use spliit_mcp.Store.Users
use spliit_mcp.Store.Users.{get_user, set_display_name}
use spliit_mcp.Tools.World.{Env, read, write}
use spliit_mcp.Web.Reply.{
  Response, Me, error, me_body, Handler, ◌>>=◌, pure, answer, stored, body_or_bad, internal_error,
  server_error,
}

abbrev or_empty : Option String → String
or_empty none = ""
or_empty (some id) = id

-- `meResponse`
abbrev pub me_of : User → Me
me_of u = record {
  sub = u.sub;
  email = u.email;
  display_name = u.display_name;
  default_group_id = or_empty u.default_group_id;
}

-- The body of UpdateMe.
pub record MeEdit : Type 0 where
  pub display_name : Option String
  pub default_group_id : Option String

abbrev pub group_missing : StoreError → Response
group_missing not_found = record { status = 404; body = error "group not found" }
group_missing other = internal_error

-- The display name that is asked for, trimmed.
unfoldable pub wanted_name : Option String → Handler (Option String)
unfolding trim_space
wanted_name none = pure none
wanted_name (some given) =
    if trim_space given == ""
    then answer 400 (error "display_name must not be empty")
    else pure (some (trim_space given))

module _ {D : Type 0} (env : Env D) (user : User) where
  -- `GetMe`
  unfoldable pub get_me : Handler Response
  get_me = pure (record { status = 200; body = me_body (me_of user) })

  -- The write of the default group, where one is asked for.
  unfoldable pub save_default : Option String → Handler (Unit {0})
  unfolding write Users.set_default_group trim_space stored
  save_default none = pure tt
  save_default (some id) = stored group_missing (
      write env (λ fault now fresh db.
        Users.set_default_group env.engine fault now user.sub (trim_space id) db))

  -- The write of the display name, where one is asked for.
  unfoldable pub save_name : Option String → Handler (Unit {0})
  unfolding write set_display_name stored
  save_name none = pure tt
  save_name (some name) =
      stored server_error
        (write env (λ fault now fresh db. set_display_name env.engine fault now user.sub name db))

  -- `UpdateMe`
  unfoldable pub update_me : Option MeEdit → Handler Response
  unfolding read wanted_name save_default save_name get_user body_or_bad stored
  update_me given = do
    body ← body_or_bad given
    if not (is_some body.display_name) && not (is_some body.default_group_id)
        then answer 400 (error "nothing to update; send display_name or default_group_id")
        else (do
          name ← wanted_name body.display_name
          _ ← save_default body.default_group_id
          _ ← save_name name
          updated ← stored server_error (read env (λ fault db. get_user fault db user.sub))
          pure (record { status = 200; body = me_body (me_of updated) }))
