-- ===== src/Tools/Resolve.antt =====
-- `userFromRequest`, `resolve` and `resolveExplicit` of internal/mcp/server.go.
pub mod Own
use spliit_mcp.Prelude.{String, Option, none, some, ◌==◌, if◌then◌else◌}
use spliit_mcp.Text.{is_blank}
use spliit_mcp.Store.Rows.{Group, Db, Result, ok, err, not_found}
use spliit_mcp.Store.Users.{default_group}
use spliit_mcp.Store.Groups.{resolve_group}
use spliit_mcp.Tools.Outcome.{
  Outcome, Failure, done, fail, stored, no_verified_identity, no_subject, no_default_group,
  no_such_group, group_required,
}
use spliit_mcp.Tools.World.{Env, Action, ◌>>=◌, lift, raise, read}

-- `userFromRequest`: the subject of the verified token, if the request has one.
unfoldable pub user_from_request : Option String → Outcome String
user_from_request none = fail no_verified_identity
user_from_request (some sub) = if sub == "" then fail no_subject else done sub

-- A lookup's error, where a missing row has a message of its own.
abbrev pub found_row : Failure → Result Group → Outcome Group
found_row missing (ok g) = done g
found_row missing (err not_found) = fail missing
found_row missing (err other) = fail (stored other)

module _ {D : Type 0} (env : Env D) where
  -- `resolve`; an empty reference means the default group.
  unfoldable pub resolve : String → String → Action Group
  unfolding is_blank default_group resolve_group read
  resolve sub ref =
      if is_blank ref
      then (do
        r ← read env (λ fault db. default_group fault db sub)
        lift (found_row no_default_group r))
      else (do
        r ← read env (λ fault db. resolve_group fault db sub ref)
        lift (found_row (no_such_group ref) r))

  -- `resolveExplicit`
  unfoldable pub resolve_explicit : String → String → Action Group
  unfolding is_blank resolve
  resolve_explicit sub ref = if is_blank ref then raise group_required else resolve sub ref
