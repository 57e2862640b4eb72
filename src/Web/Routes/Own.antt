-- ===== src/Web/Routes/Own.antt =====
-- Whose groups a request can change.
use spliit_mcp.Prelude.{
  String, ◌≡◌, ◌≢◌, Option, none, some, is_some, not, ◌&&◌, ◌==◌, Bool-cases, inl, inr,
}
use spliit_mcp.Text.{trim_space}
use spliit_mcp.Store.Rows.{User, Session}
use spliit_mcp.Store.Users
use spliit_mcp.Store.Users.{get_user, set_display_name, update_user_row, owns_group}
use spliit_mcp.Store.Groups.{list_groups}
use spliit_mcp.Store.Sessions.{get_session}
use spliit_mcp.Store.Settings.{groups_of-set_default_group, groups_of-set_display_name}
use spliit_mcp.Store.Scope.{groups_of}
use spliit_mcp.Tools.World.{Env, World, ticked}
use spliit_mcp.Config.{Config}
use spliit_mcp.Web.Reply.{server_error}
use spliit_mcp.Web.Reply.Keeps.{
  Keeps, then-Keeps, bind-Keeps, pure-Keeps, answer-Keeps, body-Keeps, write-Keeps, read-Keeps,
}
use spliit_mcp.Web.Session.{require_session, unauthorized_or_internal}
use spliit_mcp.Web.Session.Guard.{SignedIn, require_session-SignedIn}
use spliit_mcp.Web.Me
use spliit_mcp.Web.Me.{MeEdit, wanted_name, save_default, save_name, update_me, group_missing}
use spliit_mcp.Web.Groups as Groups
use spliit_mcp.Web.Groups.Own.{
  create-Keeps, create_new-Keeps, update-Keeps, remove-Keeps, group-Keeps, given_id-Keeps,
}
use spliit_mcp.Web.Routes
use spliit_mcp.Web.Routes.{Request, dispatch, api}

module _ (v : String) where
  name-Keeps : (given : Option String) → Keeps v (wanted_name given)
  unfolding wanted_name
  name-Keeps none = pure-Keeps v none
  name-Keeps (some given) = elim (Bool-cases (trim_space given == "")) [
    | inl blank ↦ rw blank (answer-Keeps v 400 _)
    | inr named ↦ rw named (pure-Keeps v _)
  ]

  module _ {D : Type 0} (env : Env D) where
    guard-Keeps : (cookie : Option String) → Keeps v (require_session env cookie)
    unfolding require_session
    guard-Keeps none = answer-Keeps v 401 _
    guard-Keeps (some id) = record {
      from = λ w.
          then-Keeps v (ticked w) _ _
            ((read-Keeps v env (unauthorized_or_internal "session expired")
                (λ fault db. get_session fault (env.clock w.ticks) db id)).from
              (ticked w))
            (λ (s : Session) e.
              read-Keeps v env (unauthorized_or_internal "user no longer exists")
                (λ fault db. get_user fault db s.user_sub));
    }

    default-Keeps : (user : User) (id : Option String) → Keeps v (save_default env user id)
    unfolding save_default
    default-Keeps user none = pure-Keeps v tt
    default-Keeps user (some id) =
        write-Keeps v env group_missing
          (λ fault now fresh db.
            Users.set_default_group env.engine fault now user.sub (trim_space id) db)
          (λ fault now fresh db.
            groups_of-set_default_group v env.engine fault now user.sub (trim_space id) db)

    saved-Keeps : (user : User) (name : Option String) → Keeps v (save_name env user name)
    unfolding save_name
    saved-Keeps user none = pure-Keeps v tt
    saved-Keeps user (some name) =
        write-Keeps v env server_error
          (λ fault now fresh db. set_display_name env.engine fault now user.sub name db)
          (λ fault now fresh db. groups_of-set_display_name v env.engine fault now user.sub name db)

    update_me-Keeps : (user : User) (given : Option MeEdit) → Keeps v (update_me env user given)
    unfolding update_me
    update_me-Keeps user given = bind-Keeps v _ _ (body-Keeps v given) (λ body.
        elim (Bool-cases (not (is_some body.display_name) && not (is_some body.default_group_id))) [
          | inl nothing ↦ rw nothing (answer-Keeps v 400 _)
          | inr some_edit ↦ rw some_edit (
              bind-Keeps v _ _ (name-Keeps body.display_name) (λ name.
                bind-Keeps v _ _ (default-Keeps user body.default_group_id) (λ x.
                  bind-Keeps v _ _ (saved-Keeps user name) (λ y.
                    bind-Keeps v _ _
                      (read-Keeps v env server_error (λ fault db. get_user fault db user.sub))
                      (λ u. pure-Keeps v _)))))
        ])

    module _ (default_url : String) where
      list-Keeps : (user : User) → Keeps v (Groups.list env default_url user)
      unfolding Groups.list
      list-Keeps user =
          bind-Keeps v _ _
            (read-Keeps v env server_error (λ fault db. list_groups env.engine fault db user.sub))
            (λ groups. pure-Keeps v _)

      preview-Keeps :
          (user : User) (given : Option (String × String))
          → Keeps v (Groups.preview env default_url user given)
      unfolding Groups.preview
      preview-Keeps user given = bind-Keeps v _ _ (body-Keeps v given) (λ body.
          bind-Keeps v _ _ (given_id-Keeps v body.0)
            (λ id. bind-Keeps v _ _ (group-Keeps v env _ _ id) (λ group. pure-Keeps v _)))

    module _ (config : Config) where
      dispatch-Keeps :
          (lower : String → String) (user : User) (other : v ≢ user.sub) (request : Request)
          → Keeps v (dispatch env config lower request user)
      unfolding dispatch Me.get_me
      dispatch-Keeps lower user other Routes.get_me = pure-Keeps v _
      dispatch-Keeps lower user other Routes.get_config = pure-Keeps v _
      dispatch-Keeps lower user other Routes.list_groups = list-Keeps config.spliit.default_url user
      dispatch-Keeps lower user other (Routes.put_me edit) = update_me-Keeps user edit
      dispatch-Keeps lower user other (Routes.preview_group given) =
          preview-Keeps config.spliit.default_url user given
      dispatch-Keeps lower user other (Routes.create_group given) =
          create-Keeps v env config.spliit.default_url user other given
      dispatch-Keeps lower user other (Routes.create_spliit_group given) =
          create_new-Keeps v env config.spliit.default_url user other lower given
      dispatch-Keeps lower user other (Routes.update_group id given) =
          update-Keeps v env config.spliit.default_url user other id given
      dispatch-Keeps lower user other (Routes.delete_group id) =
          remove-Keeps v env config.spliit.default_url user other id

      -- Whatever the API is asked and whatever fails, the rows of `groups` of a user `v` stay as they
      -- are, unless the request's cookie names a stored session of `v` that has not ended.
      pub api-own :
          (lower : String → String) (cookie : Option String) (request : Request) (w : World)
          → ((u : User) → SignedIn w.db (env.clock w.ticks) cookie u → v ≢ u.sub)
          → groups_of v (api env config lower cookie request w).1.db ≡ groups_of v w.db
      unfolding api
      api-own lower cookie request w stranger =
          then-Keeps v w (require_session env cookie w) (dispatch env config lower request)
            ((guard-Keeps cookie).from w)
            (λ u e.
              dispatch-Keeps lower u (stranger u (require_session-SignedIn env cookie w u e))
                request)
