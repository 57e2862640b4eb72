-- ===== src/Tools/Groups.antt =====
-- `updateGroup`, `registerGroup`, `leaveGroup`, `setActiveParticipant` and `setDefaultGroup` of
-- internal/mcp/tools.go, and what joinGroup does once it has read the instance's URL and the group's
-- ID (Tools/NewGroups has the rest).
pub mod Own
use Prim.Native.String
use spliit_mcp.Prelude.{
  ℕ, zero, suc, ◌+◌, String, Bool, true, false, ◌&&◌, Option, none, some, List, [], ◌∷◌,
  if◌then◌else◌,
}
use spliit_mcp.Text.{trim_space, is_blank}
use spliit_mcp.Text.Calendar.{long_digits}
use spliit_mcp.Store.Rows
use spliit_mcp.Store.Rows.{Time, Db, Result, ok, err, not_found, conflict}
use spliit_mcp.Store.Users
use spliit_mcp.Store.Groups
use spliit_mcp.Spliit.Model.{Participant, Group, GroupForm}
use spliit_mcp.Spliit.Participants.{find_participant, find_participant_by_name, participant_names}
use spliit_mcp.Tools.Outcome.{
  Outcome, done, fail, stored, group_not_found, no_field_given, you_required, already_joined,
  cannot_register,
}
use spliit_mcp.Tools.World
use spliit_mcp.Tools.World.{
  Env, World, Action, ◌>>=◌, ◌>>◌, pure, raise, lift, of_result, write, send,
}
use spliit_mcp.Tools.Clients
use spliit_mcp.Tools.Resolve.{user_from_request, resolve_explicit}
use spliit_mcp.Tools.GroupForm.{Edits, Change, found_or, build_group_form}
use spliit_mcp.Tools.ExpenseForm.{participant_or_nil}

abbrev pub no_items {ℓ} : {A : Type ℓ} → List A → Bool
no_items [] = true
no_items (x ∷ xs) = false

-- The check that some field of update_group is given.
unfoldable pub is_empty_edit : Edits → Bool
unfolding is_blank
is_empty_edit e =
    is_blank e.name
    && is_blank e.currency
    && no_items e.add
    && no_items e.remove
    && no_items e.rename

-- updateGroupOutput
pub record GroupOutput : Type 0 where
  pub alias : String
  pub name : String
  pub currency : String
  pub you_are : String
  pub participants : List String

-- The stored copy of a group, after it is read back.
abbrev pub follow : Option Participant → Rows.Group → Group → Rows.Group
follow none row group = record row { group_name = group.name; currency = group.currency }
follow (some p) row group = record row {
  group_name = group.name;
  currency = group.currency;
  participant_name = p.name;
}

-- The row of a group that is registered, with the participant that it pins, if any.
abbrev pub new_row : String → String → Group → String → Option Participant → Rows.Group
new_row sub base_url group alias you = record {
  id = "";
  user_sub = sub;
  base_url = base_url;
  spliit_group_id = group.id;
  alias = alias;
  participant_id = elim you [ none ↦ "" | some p ↦ p.id ];
  participant_name = elim you [ none ↦ "" | some p ↦ p.name ];
  group_name = group.name;
  currency = group.currency;
  created_at = 0;
  updated_at = 0;
}

-- `fmt.Sprintf("%s-%d", alias, attempt+1)` where an attempt failed.
unfoldable pub candidate_alias : String → ℕ → String
unfolding long_digits
candidate_alias alias zero = alias
candidate_alias alias (suc n) = String.◌++◌ alias (String.◌++◌ "-" (long_digits (n + 2) (n + 2) ""))

abbrev pub is_conflict : Outcome Rows.Group → Bool
is_conflict (fail (stored (conflict op))) = true
is_conflict _ = false

module _ {D : Type 0} (env : Env D) where
  -- A write of the store whose error the tool passes on.
  abbrev pub store_write :
      {A : Type 0} → (Option String → Time → String → Db → Result A × Db) → Action A
  store_write f = do r ← write env f; lift (of_result r)

  -- `leaveGroup`, with the alias that was left.
  unfoldable pub leave_group : Option String → String → Action String
  unfolding user_from_request resolve_explicit write Groups.delete_group
  leave_group who ref = do
    sub ← lift (user_from_request who)
    row ← resolve_explicit env sub ref
    _ ← store_write (λ fault now id db. Groups.delete_group env.engine fault sub row.id db)
    pure row.alias

  -- `setDefaultGroup`; the alias of the default group, empty where it is cleared.
  unfoldable pub set_default_group : Option String → String → Bool → Action String
  unfolding user_from_request resolve_explicit write Users.set_default_group
  set_default_group who ref clear = do
    sub ← lift (user_from_request who)
    if clear
        then (do
          _ ←
              store_write
                (λ fault now id db. Users.set_default_group env.engine fault now sub "" db)
          pure "")
        else (do
          row ← resolve_explicit env sub ref
          _ ←
              store_write
                (λ fault now id db. Users.set_default_group env.engine fault now sub row.id db)
          pure row.alias)

  -- `setActiveParticipant`, with the alias and the participant's name.
  unfoldable pub set_active_participant : Option String → String → String → Action (String × String)
  unfolding user_from_request resolve_explicit write Groups.update_group Clients.get_group
      find_participant_by_name participant_names
  set_active_participant who ref you = do
    sub ← lift (user_from_request who)
    row ← resolve_explicit env sub ref
    group ← Clients.get_group env row.base_url row.spliit_group_id
    p ← lift (found_or you (participant_names group) (find_participant_by_name env.fold group you))
    let row' : Rows.Group = record row {
      participant_id = p.id;
      participant_name = p.name;
      group_name = group.name;
      currency = group.currency;
    }
    _ ← store_write (λ fault now id db. Groups.update_group env.engine fault now row' db)
    pure (row.alias, p.name)

  -- `Clients.GetGroupDetails`
  abbrev pub details_there : String → Option (Group × List String) → Outcome (Group × List String)
  details_there id none = fail (group_not_found id)
  details_there id (some d) = done d

  unfoldable pub get_group_details : Rows.Group → Action (Group × List String)
  unfolding send
  get_group_details row = do
    out ←
        send env env.api.details
          (Clients.to_group env row.base_url row.spliit_group_id World.get_group_details)
    lift (details_there row.spliit_group_id out)

  -- `Clients.UpdateGroup`
  unfoldable pub send_group : Rows.Group → GroupForm → Option String → Action (Unit {0})
  unfolding send
  send_group row form me =
      send env env.api.accepted
        (Clients.to_group env row.base_url row.spliit_group_id (World.update_group form me))

  -- `updateGroup`
  unfoldable pub update_group : Option String → String → Edits → Action (GroupOutput × List Change)
  unfolding user_from_request resolve_explicit is_empty_edit get_group_details build_group_form
      send_group Clients.get_group find_participant write Groups.update_group participant_names
      participant_or_nil
  update_group who ref edits = do
    sub ← lift (user_from_request who)
    row ← resolve_explicit env sub ref
    if is_empty_edit edits then raise no_field_given else do
      (group, with_expenses) ← get_group_details row
      (form, changes) ←
          lift (build_group_form env.fold edits group with_expenses row.participant_id)
      _ ← send_group row form (participant_or_nil row.participant_id)
      updated ← Clients.get_group env row.base_url row.spliit_group_id
      let row' = follow (find_participant updated row.participant_id) row updated
      _ ← store_write (λ fault now id db. Groups.update_group env.engine fault now row' db)
      pure (
        record {
          alias = row'.alias;
          name = updated.name;
          currency = updated.currency;
          you_are = row'.participant_name;
          participants = participant_names updated;
        },
        changes,
      )

  abbrev pub next_attempt :
      Outcome Rows.Group × World → Action Rows.Group → Outcome Rows.Group × World
  next_attempt (r, w) later = if is_conflict r then later w else (r, w)

  -- The attempts of `registerGroup`, for as many as are left.
  unfoldable pub attempts : ℕ → ℕ → Rows.Group → Action Rows.Group
  unfolding candidate_alias write Groups.create_group
  attempts zero attempt row w = (fail (cannot_register row.group_name row.spliit_group_id), w)
  attempts (suc left) attempt row w =
      let candidate = record row { alias = candidate_alias row.alias attempt } in
      next_attempt
        (store_write (λ fault now id db. Groups.create_group env.engine fault now id candidate db)
          w)
        (attempts left (suc attempt) row)

  -- `registerGroup`: ten attempts.
  unfoldable pub register_group : String → String → Group → String → String → Action Rows.Group
  unfolding attempts find_participant_by_name
  register_group sub base_url group alias display_name =
      attempts 10 0
        (new_row sub base_url group alias (find_participant_by_name env.fold group display_name))

  abbrev pub joined : String → Result Rows.Group → Outcome Rows.Group
  joined alias (ok row) = done row
  joined alias (err (conflict op)) = fail (already_joined alias)
  joined alias (err other) = fail (stored other)

  -- `joinGroup`, at an instance and for a group's ID there.
  unfoldable pub join_group : String → String → String → String → String → Action Rows.Group
  unfolding is_blank trim_space Clients.get_group find_participant_by_name participant_names write
      Groups.create_group
  join_group sub base_url group_id you given = if is_blank you then raise you_required else do
    group ← Clients.get_group env base_url group_id
    p ← lift (found_or you (participant_names group) (find_participant_by_name env.fold group you))
    let alias = if is_blank given then group.name else trim_space given
    r ← write env (λ fault now id db.
        Groups.create_group env.engine fault now id (new_row sub base_url group alias (some p)) db)
    lift (joined alias r)
