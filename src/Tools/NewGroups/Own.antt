-- ===== src/Tools/NewGroups/Own.antt =====
-- What every tool leaves alone: the groups of everybody but its caller.
use spliit_mcp.Prelude.{◌≡◌, ◌≢◌, refl, ap, sym, ◌∙◌, String, Bool, Option, some, map}
use spliit_mcp.Text.{is_blank}
use spliit_mcp.Config.{Config}
use spliit_mcp.Store.Rows.{User, Db, Result, ok, err}
use spliit_mcp.Store.Users.{get_user}
use spliit_mcp.Store.Groups.{resolve_group, list_groups}
use spliit_mcp.Store.Scope.{groups_of}
use spliit_mcp.Web.Session.Guard.{found_user}
use spliit_mcp.Tools.Outcome.{Outcome, done, fail}
use spliit_mcp.Tools.World.{Env, World, ◌>>=◌, lift, read, of_result}
use spliit_mcp.Tools.Sends.{send-Guarded, read-Guarded}
use spliit_mcp.Tools.Resolve.{user_from_request}
use spliit_mcp.Tools.Resolve.Own.{user_from_request-done}
use spliit_mcp.Tools.Keeps.{
  Keeps, Any, then-Keeps, bind-Keeps, if-Keeps, lift-Keeps, Guarded-Keeps, get_group-Keeps,
}
use spliit_mcp.Tools.GroupForm.{Edits}
use spliit_mcp.Tools.Groups
use spliit_mcp.Tools.Groups.Own.{
  register_group-Keeps, join_group-Keeps, leave_group-Keeps, set_active_participant-Keeps,
  set_default_group-Keeps, update_group-Keeps,
}
use spliit_mcp.Tools.Expenses.Boundary as Expenses
use spliit_mcp.Tools.Expenses.Boundary.{ExpenseCall, after-Sends}
use spliit_mcp.Tools.Reading
use spliit_mcp.Tools.Reading.{group_summary, known_or_nil}
use spliit_mcp.Tools.Reading.Boundary as Reads
use spliit_mcp.Tools.Reading.Boundary.{ReadCall, reads-Sends}
use spliit_mcp.Tools.NewGroups
use spliit_mcp.Tools.NewGroups.{
  CreateInput, JoinInput, base_url_for, id_of_group, caller, create_at, or_given, inspected,
}

-- A call of a tool, get_server_info apart.
pub data ToolCall : Type 0 where
  list : ToolCall
  read_one : ReadCall → ToolCall
  expense : ExpenseCall → ToolCall
  create : CreateInput → ToolCall
  join : JoinInput → ToolCall
  inspect : String → String → ToolCall
  update : String → Edits → ToolCall
  leave : String → ToolCall
  set_active : String → String → ToolCall
  set_default : String → Bool → ToolCall

module _ {D : Type 0} (env : Env D) (config : Option Config) (who : Option String) where
  -- The world after a call.
  unfoldable pub after : ToolCall → World → World
  unfolding Reading.list Reads.after Expenses.after NewGroups.create_group NewGroups.join_linked
      NewGroups.inspect_group Groups.update_group Groups.leave_group Groups.set_active_participant
      Groups.set_default_group
  after list w = (Reading.list env config who w).1
  after (read_one call) w = Reads.after env who call w
  after (expense call) w = Expenses.after env who call w
  after (create input) w = (NewGroups.create_group env config who input w).1
  after (join input) w = (NewGroups.join_linked env config who input w).1
  after (inspect url ref) w = (NewGroups.inspect_group env config who url ref w).1
  after (update ref edits) w = (Groups.update_group env who ref edits w).1
  after (leave ref) w = (Groups.leave_group env who ref w).1
  after (set_active ref you) w = (Groups.set_active_participant env who ref you w).1
  after (set_default ref clear) w = (Groups.set_default_group env who ref clear w).1

  module _ (v : String) (other : who ≢ some v) where
    caller-Keeps : Keeps v (caller env config who)
    unfolding caller
    caller-Keeps = bind-Keeps v _ _ (lift-Keeps v (user_from_request who)) (λ sub.
        bind-Keeps v _ _
          (Guarded-Keeps v _ (read-Guarded Any env (λ fault db. get_user fault db sub)))
          (λ r. lift-Keeps v (of_result r)))

    found-own :
        (sub : String) (fault : Option String) (db : Db) (r : Result User) (u : User)
        → get_user fault db sub ≡ r
        → of_result r ≡ done u
        → u.sub ≡ sub
    found-own sub fault db (ok x) u e h =
        let same : x ≡ u = cc h in (found_user fault db sub u (e ∙ ap ok same)).1
    found-own sub fault db (err x) u e h = cc

    caller-of :
        (w : World) (u : User) (r : Outcome String)
        → user_from_request who ≡ r
        → ((lift r >>= λ sub.
              read env (λ fault db. get_user fault db sub) >>= λ x. lift (of_result x))
            w).0
          ≡ done u
        → v ≢ u.sub
    unfolding read
    caller-of w u (done sub) e h same = other (
        user_from_request-done who sub e
        ∙ ap some (sym (found-own sub (env.fault w.ticks) w.db _ u refl h) ∙ sym same))
    caller-of w u (fail x) e h same = cc

    -- The caller's row is not that of `v`.
    caller-other : (w : World) (u : User) → (caller env config who w).0 ≡ done u → v ≢ u.sub
    unfolding caller
    caller-other w u h = caller-of w u (user_from_request who) refl h

    create_at-Keeps :
        (base_url : String) (user : User) (input : CreateInput)
        → v ≢ user.sub
        → Keeps v (create_at env config base_url user input)
    unfolding create_at
    create_at-Keeps base_url user input diff =
        bind-Keeps v _ _ (Guarded-Keeps v _ (send-Guarded Any env env.api.new_id _ tt)) (λ id.
          bind-Keeps v _ _ (get_group-Keeps v env base_url id) (λ group.
            bind-Keeps v _ _
              (register_group-Keeps v env user.sub base_url group (or_given input.alias group.name)
                user.display_name diff)
              (λ row. lift-Keeps v _)))

    create-Keeps : (input : CreateInput) → Keeps v (NewGroups.create_group env config who input)
    unfolding NewGroups.create_group
    create-Keeps input = record {
      from = λ w. then-Keeps v w (caller env config who w) _ (caller-Keeps.from w) (λ user e.
          if-Keeps v (is_blank input.name) _ _ (lift-Keeps v _) (
            create_at-Keeps (base_url_for config input.server_url "") user input
              (caller-other w user e)));
    }

    inspect-Keeps : (url ref : String) → Keeps v (NewGroups.inspect_group env config who url ref)
    unfolding NewGroups.inspect_group
    inspect-Keeps url ref = bind-Keeps v _ _ caller-Keeps (λ user.
        bind-Keeps v _ _ (lift-Keeps v (id_of_group ref)) (λ id.
          bind-Keeps v _ _ (get_group-Keeps v env _ id) (λ group.
            bind-Keeps v _ _
              (Guarded-Keeps v _
                (read-Guarded Any env (λ fault db. resolve_group fault db user.sub group.id)))
              (λ r.
                lift-Keeps v
                  (done (inspected env config (base_url_for config url ref) user group r))))))

    join-Keeps : (input : JoinInput) → Keeps v (NewGroups.join_linked env config who input)
    unfolding NewGroups.join_linked
    join-Keeps input = record {
      from = λ w.
          then-Keeps v w (user_from_request who, w) _ refl
            (λ sub e. bind-Keeps v _ _ (lift-Keeps v (id_of_group input.group_id)) (λ id.
              bind-Keeps v _ _
                (join_group-Keeps v env sub (base_url_for config input.server_url input.group_id) id
                  input.you input.alias
                  (λ same. other (user_from_request-done who sub e ∙ ap some (sym same))))
                (λ row. lift-Keeps v _)));
    }

    list-Keeps : Keeps v (Reading.list env config who)
    unfolding Reading.list
    list-Keeps = bind-Keeps v _ _ (lift-Keeps v (user_from_request who)) (λ sub.
        bind-Keeps v _ _
          (Guarded-Keeps v _
            (read-Guarded Any env (λ fault db. list_groups env.engine fault db sub)))
          (λ r. bind-Keeps v _ _ (lift-Keeps v (of_result r)) (λ groups.
            bind-Keeps v _ _
              (Guarded-Keeps v _ (read-Guarded Any env (λ fault db. get_user fault db sub)))
              (λ u.
                bind-Keeps v _ _ (lift-Keeps v (known_or_nil u))
                  (λ user. lift-Keeps v (done (map (group_summary config user) groups)))))))

    -- Whoever calls a tool (any but get_server_info), whatever it asks and whatever fails, the rows of
    -- `groups` of every other user stay as they are.
    pub after-groups_of :
        (call : ToolCall) (w : World) → groups_of v (after call w).db ≡ groups_of v w.db
    unfolding after
    after-groups_of list w = list-Keeps.from w
    after-groups_of (read_one call) w = ap (groups_of v) ((reads-Sends env who call w).same_db)
    after-groups_of (expense call) w = ap (groups_of v) ((after-Sends env who call w).same_db)
    after-groups_of (create input) w = (create-Keeps input).from w
    after-groups_of (join input) w = (join-Keeps input).from w
    after-groups_of (inspect url ref) w = (inspect-Keeps url ref).from w
    after-groups_of (update ref edits) w = (update_group-Keeps v env who ref edits other).from w
    after-groups_of (leave ref) w = (leave_group-Keeps v env who ref other).from w
    after-groups_of (set_active ref you) w =
        (set_active_participant-Keeps v env who ref you other).from w
    after-groups_of (set_default ref clear) w = (set_default_group-Keeps v env who ref clear).from w
