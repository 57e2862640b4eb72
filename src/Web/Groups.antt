-- ===== src/Web/Groups.antt =====
-- `resolveBaseURL`, `ListGroups`, `PreviewGroup`, `CreateGroup`, `CreateSpliitGroup`, `UpdateGroup` and
-- `DeleteGroup` of internal/handlers/api.go.
pub mod Own
pub mod Suggestion
use Prim.Native.Nat.{◌+◌, zero, suc}
use spliit_mcp.Prelude.{
  ℕ, String, Bool, true, false, not, List, [], ◌∷◌, Option, none, some, map, ◌==◌, eqb, ltb,
  if◌then◌else◌,
}
use spliit_mcp.Text.{trim_space, is_blank, equal_fold, trim_right_slashes}
use spliit_mcp.Spliit.Links.{derive_base_url, web_url, host_of, extract_group_id}
use spliit_mcp.Store.Rows
use spliit_mcp.Store.Rows.{User, Db, Result, ok, err, StoreError, not_found, conflict}
use spliit_mcp.Store.Groups
use spliit_mcp.Store.Groups.{list_groups}
use spliit_mcp.Spliit.Model.{Participant, Group, GroupForm}
use spliit_mcp.Spliit.Participants.{find_participant, find_participant_by_name, present}
use spliit_mcp.Tools.World
use spliit_mcp.Tools.World.{Env, World, Action, lift, read, write, send}
use spliit_mcp.Tools.Clients
use spliit_mcp.Tools.Groups.{new_row}
use spliit_mcp.Web.Reply.{
  Response, GroupView, Preview, Body, error, short_name, alias_taken, groups_body, preview_body,
  group_body, empty, Step, go, halt, Handler, ◌>>=◌, pure, answer, stored, body_or_bad, asked,
  internal_error, server_error,
}
use spliit_mcp.Web.Me.{group_missing}
use spliit_mcp.Web.NewGroup.{Built, built, refused, short_participant, short_group, build_new_form}

-- `resolveBaseURL`: the given URL, the one of the link, or the default.
unfoldable pub resolve_base_url : String → String → String → String
unfolding trim_right_slashes trim_space derive_base_url
resolve_base_url default_url given ref =
    let trimmed = trim_right_slashes (trim_space given) in
    let derived = derive_base_url ref in
    if not (trimmed == "") then trimmed else if not (derived == "") then derived else default_url

abbrev pub group_view : Rows.Group → GroupView
group_view g = record {
  group = g;
  host = host_of g.base_url;
  url = web_url g.base_url g.spliit_group_id;
  needs_setup = g.participant_id == "";
}

-- The group's ID of a request, which must not be empty.
unfoldable pub given_id : String → Handler String
unfolding extract_group_id trim_space
given_id ref =
    let id = extract_group_id (trim_space ref) in
    if id == "" then answer 400 (error "group_id must not be empty") else pure id

unfoldable pub participant_or_bad : Option Participant → Handler Participant
participant_or_bad none = answer 400 (error "that participant does not exist in this group")
participant_or_bad (some p) = pure p

-- The participants whose name is the user's, up to case and surrounding space.
unfoldable pub matching : (ℕ → ℕ) → String → List Participant → List Participant
unfolding equal_fold trim_space
matching fold name [] = []
matching fold name (p ∷ ps) =
    let rest = matching fold name ps in
    if equal_fold fold (trim_space p.name) (trim_space name) then p ∷ rest else rest

-- The suggestion, where exactly one participant matches.
abbrev pub only_id : List Participant → String
only_id (p ∷ []) = p.id
only_id ps = ""

abbrev pub is_several : List Participant → Bool
is_several (p ∷ (q ∷ ps)) = true
is_several ps = false

-- The body of CreateGroup; PreviewGroup has its first two fields.
pub record Joining : Type 0 where
  pub group_id : String
  pub base_url : String
  pub alias : String
  pub participant_id : String

-- The body of CreateSpliitGroup.
pub record NewGroup : Type 0 where
  pub base_url : String
  pub name : String
  pub currency : String
  pub alias : String
  pub participants : List String
  pub your_name : String

-- The body of UpdateGroup.
pub record GroupEdit : Type 0 where
  pub alias : Option String
  pub participant_id : Option String

abbrev pub conflict_or_internal : Body → StoreError → Response
conflict_or_internal body (conflict op) = record { status = 409; body = body }
conflict_or_internal body other = internal_error

abbrev pub filled : String → String → String
filled given fallback = if given == "" then fallback else given

unfoldable pub form_or_bad : Built → Handler GroupForm
form_or_bad (built form) = pure form
form_or_bad (refused (short_participant name)) = answer 400 (short_name name)
form_or_bad (refused short_group) =
    answer 400 (error "group name is too short; Spliit requires at least 2 characters")

-- The row with the alias that is asked for.
unfoldable pub with_alias : Option String → Rows.Group → Handler Rows.Group
unfolding trim_space
with_alias none row = pure row
with_alias (some given) row =
    if trim_space given == ""
    then answer 400 (error "alias must not be empty")
    else pure (record row { alias = trim_space given })

-- What UpdateGroup leaves in the row that it was given.
abbrev pub stamped : Rows.Group → Result (Unit {0}) × Db → Result Rows.Group × Db
stamped row (ok x, db) = (ok row, db)
stamped row (err x, db) = (err x, db)

module _ {D : Type 0} (env : Env D) (default_url : String) (user : User) where
  abbrev cannot_fetch : String
  cannot_fetch = "could not fetch that group: "

  -- `ListGroups`
  unfoldable pub list : Handler Response
  unfolding read list_groups stored
  list = do
    groups ← stored server_error (read env (λ fault db. list_groups env.engine fault db user.sub))
    pure (record { status = 200; body = groups_body (map group_view groups) })

  -- The preview of a group that was read.
  unfoldable pub preview_of : String → String → Group → Preview
  unfolding matching present host_of
  preview_of id base_url group =
      let matches = matching env.fold user.display_name (present group.participants) in
      record {
        group_id = id;
        base_url = base_url;
        host = host_of base_url;
        name = group.name;
        currency = group.currency;
        participants = present group.participants;
        suggested_participant = only_id matches;
        suggested_from_name = user.display_name;
        suggestion_is_ambiguous = is_several matches;
      }

  -- `PreviewGroup`, for the ID and the URL of the body.
  unfoldable pub preview : Option (String × String) → Handler Response
  unfolding resolve_base_url given_id Clients.get_group preview_of body_or_bad asked
  preview given = do
    (ref, url) ← body_or_bad given
    let base_url = resolve_base_url default_url url ref
    id ← given_id ref
    group ← asked cannot_fetch (Clients.get_group env base_url id)
    pure (record { status = 200; body = preview_body (preview_of id base_url group) })

  -- The insertion of a row, with the answer to a conflict.
  unfoldable pub insert : Body → Rows.Group → Handler Response
  unfolding write Groups.create_group stored
  insert taken row = do
    created ←
        stored (conflict_or_internal taken)
          (write env (λ fault now id db. Groups.create_group env.engine fault now id row db))
    pure (record { status = 201; body = group_body created })

  -- `CreateGroup`
  unfoldable pub create : Option Joining → Handler Response
  unfolding resolve_base_url given_id trim_space is_blank Clients.get_group find_participant insert
      body_or_bad participant_or_bad asked
  create given = do
    body ← body_or_bad given
    let base_url = resolve_base_url default_url body.base_url body.group_id
    id ← given_id body.group_id
    if is_blank body.participant_id
        then answer 400
            (error "participant_id is required: pick which participant is you in this group")
        else (do
          group ← asked cannot_fetch (Clients.get_group env base_url id)
          p ← participant_or_bad (find_participant group body.participant_id)
          insert (error "that group is already registered, or the alias is taken") (
              new_row user.sub base_url group (filled (trim_space body.alias) group.name) (some p)))

  -- `Clients.CreateGroup`
  unfoldable pub send_new : String → GroupForm → Action String
  unfolding send
  send_new base_url form =
      send env env.api.new_id (Clients.to_group env base_url "" (World.create_group form))

  -- CreateSpliitGroup from the sending of the form on.
  unfoldable pub create_and_join : String → String → String → GroupForm → Handler Response
  unfolding send_new Clients.get_group trim_space find_participant_by_name insert asked
  create_and_join base_url alias your_name form = do
    id ← asked "could not create the group: " (send_new base_url form)
    group ←
        asked "the group was created but could not be read back: "
          (Clients.get_group env base_url id)
    insert (alias_taken group.id) (
        new_row user.sub base_url group (filled (trim_space alias) group.name)
          (find_participant_by_name env.fold group your_name))

  -- `CreateSpliitGroup`
  unfoldable pub create_new : (String → String) → Option NewGroup → Handler Response
  unfolding trim_space resolve_base_url build_new_form create_and_join body_or_bad form_or_bad
  create_new lower given = do
    body ← body_or_bad given
    let your_name = filled (trim_space body.your_name) user.display_name
    if trim_space body.name == ""
        then answer 400 (error "name must not be empty")
        else if your_name == ""
        then answer 400 (error "set your name first, or pass your_name")
        else (do
          form ← form_or_bad (
              build_new_form lower (trim_space body.name) body.currency your_name body.participants)
          create_and_join (resolve_base_url default_url body.base_url "") body.alias your_name form)

  -- The row with the participant that is asked for, and with fresh copies of the group's fields.
  unfoldable pub with_participant : Option String → Rows.Group → Handler Rows.Group
  unfolding Clients.get_group find_participant asked participant_or_bad
  with_participant none row = pure row
  with_participant (some id) row = do
    group ← asked cannot_fetch (Clients.get_group env row.base_url row.spliit_group_id)
    p ← participant_or_bad (find_participant group id)
    pure (record row {
      participant_id = p.id;
      participant_name = p.name;
      group_name = group.name;
      currency = group.currency;
    })

  -- The row as the body of UpdateGroup changes it.
  unfoldable pub edited : GroupEdit → Rows.Group → Handler Rows.Group
  unfolding with_alias with_participant
  edited body existing = with_alias body.alias existing >>= with_participant body.participant_id

  -- The write of an edited row.
  unfoldable pub save : Rows.Group → Handler Response
  unfolding write Groups.update_group stored
  save row = do
    saved ← stored (conflict_or_internal (error "that alias is already taken")) (
        write env (λ fault now fresh db.
          stamped (record row { updated_at = now })
            (Groups.update_group env.engine fault now row db)))
    pure (record { status = 200; body = group_body saved })

  -- The row of an internal ID.
  unfoldable pub existing_row : String → Handler Rows.Group
  unfolding read Groups.get_group stored
  existing_row id =
      stored group_missing (read env (λ fault db. Groups.get_group fault db user.sub id))

  -- `UpdateGroup`, of the group with an internal ID.
  unfoldable pub update : String → Option GroupEdit → Handler Response
  unfolding existing_row edited save body_or_bad
  update id given = do
    body ← body_or_bad given
    existing ← existing_row id
    row ← edited body existing
    save row

  -- `DeleteGroup`
  unfoldable pub remove : String → Handler Response
  unfolding write Groups.delete_group stored
  remove id = do
    _ ←
        stored group_missing
          (write env (λ fault now fresh db. Groups.delete_group env.engine fault user.sub id db))
    pure (record { status = 204; body = empty })
