-- ===== src/Tools/NewGroups.antt =====
-- `baseURLFor` of internal/mcp/server.go, and `createGroup`, `inspectGroup` and `joinGroup` of
-- internal/mcp/tools.go.
pub mod Own
use spliit_mcp.Prelude.{
  String, Bool, true, false, not, ◌&&◌, ◌||◌, Option, none, some, List, [], ◌∷◌, ◌++◌, map, ◌==◌,
  if◌then◌else◌,
}
use spliit_mcp.Text.{trim_space, is_blank, equal_fold, trim_right_slashes}
use spliit_mcp.Spliit.Links.{derive_base_url, web_url, host_of, extract_group_id}
use spliit_mcp.Config.{Config}
use spliit_mcp.Store.Rows
use spliit_mcp.Store.Rows.{User, Result, ok, err}
use spliit_mcp.Store.Users.{get_user}
use spliit_mcp.Store.Groups.{resolve_group}
use spliit_mcp.Spliit.Model.{Participant, Group, GroupForm, GroupFormParticipant}
use spliit_mcp.Spliit.Participants.{find_participant_by_name, participant_names}
use spliit_mcp.Tools.Outcome.{Outcome, done, fail, name_required, group_id_required}
use spliit_mcp.Tools.World
use spliit_mcp.Tools.World.{Env, Action, ◌>>=◌, pure, raise, lift, of_result, read, send}
use spliit_mcp.Tools.Clients
use spliit_mcp.Tools.Resolve.{user_from_request}
use spliit_mcp.Tools.Groups.{register_group, join_group}

abbrev default_of : Option Config → String
default_of none = ""
default_of (some c) = c.spliit.default_url

-- `baseURLFor`
unfoldable pub base_url_for : Option Config → String → String → String
unfolding trim_right_slashes trim_space derive_base_url
base_url_for config given ref =
    let trimmed = trim_right_slashes (trim_space given) in
    let derived = derive_base_url ref in
    if not (trimmed == "")
    then trimmed
    else if not (derived == "")
    then derived
    else default_of config

-- createGroupInput
pub record CreateInput : Type 0 where
  pub name : String
  pub participants : List String
  pub currency : String
  pub alias : String
  pub server_url : String

-- createGroupOutput
pub record CreateOutput : Type 0 where
  pub alias : String
  pub name : String
  pub spliit_group_id : String
  pub server : String
  pub url : String
  pub you_are : String
  pub participants : List String

-- inspectGroupOutput
pub record InspectOutput : Type 0 where
  pub group_id : String
  pub name : String
  pub currency : String
  pub server : String
  pub server_url : String
  pub url : String
  pub participants : List String
  pub already_joined : Bool
  pub joined_as : String
  pub suggested_you : String

-- joinGroupInput
pub record JoinInput : Type 0 where
  pub group_id : String
  pub you : String
  pub alias : String
  pub server_url : String

-- joinGroupOutput
pub record JoinOutput : Type 0 where
  pub alias : String
  pub name : String
  pub spliit_group_id : String
  pub server : String
  pub url : String
  pub you_are : String

abbrev entry_of : String → GroupFormParticipant
entry_of name = record { id = none; name = name }

abbrev or_given : String → String → String
or_given given fallback = if trim_space given == "" then fallback else trim_space given

-- The group's ID of a request.
unfoldable pub id_of_group : String → Outcome String
unfolding extract_group_id trim_space
id_of_group ref =
    let id = extract_group_id (trim_space ref) in
    if id == "" then fail group_id_required else done id

-- What inspectGroup shows of a membership, where the lookup finds one.
abbrev with_membership : Result Rows.Group → InspectOutput → InspectOutput
with_membership (ok row) out = record out {
  already_joined = true;
  joined_as = row.participant_name;
}
with_membership (err x) out = out

abbrev with_suggestion : Option Participant → InspectOutput → InspectOutput
with_suggestion none out = out
with_suggestion (some p) out = record out { suggested_you = p.name }

abbrev output_of : String → Group → Rows.Group → CreateOutput
output_of base_url group row = record {
  alias = row.alias;
  name = group.name;
  spliit_group_id = group.id;
  server = host_of base_url;
  url = web_url base_url group.id;
  you_are = row.participant_name;
  participants = participant_names group;
}

module _ {D : Type 0} (env : Env D) (config : Option Config) where
  -- The loop over `in.Participants`: the names other than the caller's.
  unfoldable pub other_names : String → List String → List String
  unfolding trim_space equal_fold
  other_names me [] = []
  other_names me (given ∷ rest) =
      let name = trim_space given in
      let others = other_names me rest in
      if name == "" || equal_fold env.fold name me then others else name ∷ others

  -- The form of createGroup.
  unfoldable pub new_form : String → CreateInput → GroupForm
  unfolding other_names trim_space
  new_form me input = record {
    name = trim_space input.name;
    information = none;
    currency = or_given input.currency "USD";
    currency_code = none;
    participants = map entry_of (me ∷ other_names me input.participants);
  }

  -- The read of the caller's row.
  unfoldable pub caller : Option String → Action User
  unfolding user_from_request read get_user
  caller who = do
    sub ← lift (user_from_request who)
    r ← read env (λ fault db. get_user fault db sub)
    lift (of_result r)

  -- createGroup from the sending of the form on.
  unfoldable pub create_at : String → User → CreateInput → Action CreateOutput
  unfolding new_form send Clients.get_group trim_space register_group participant_names host_of
      web_url
  create_at base_url user input = do
    id ←
        send env env.api.new_id
          (Clients.to_group env base_url "" (World.create_group (new_form user.display_name input)))
    group ← Clients.get_group env base_url id
    row ←
        register_group env user.sub base_url group (or_given input.alias group.name)
          user.display_name
    pure (output_of base_url group row)

  -- `createGroup`
  unfoldable pub create_group : Option String → CreateInput → Action CreateOutput
  unfolding caller is_blank base_url_for create_at
  create_group who input = do
    user ← caller who
    if is_blank input.name
        then raise name_required
        else create_at (base_url_for config input.server_url "") user input

  -- The output of inspectGroup.
  unfoldable pub inspected : String → User → Group → Result Rows.Group → InspectOutput
  unfolding find_participant_by_name participant_names host_of web_url
  inspected base_url user group r =
      with_suggestion (find_participant_by_name env.fold group user.display_name) (
        with_membership r (record {
          group_id = group.id;
          name = group.name;
          currency = group.currency;
          server = host_of base_url;
          server_url = base_url;
          url = web_url base_url group.id;
          participants = participant_names group;
          already_joined = false;
          joined_as = "";
          suggested_you = "";
        }))

  -- `inspectGroup`, for the instance's URL and the group's ID of the input.
  unfoldable pub inspect_group : Option String → String → String → Action InspectOutput
  unfolding caller base_url_for id_of_group Clients.get_group resolve_group read inspected
  inspect_group who server_url ref = do
    user ← caller who
    let base_url = base_url_for config server_url ref
    id ← lift (id_of_group ref)
    group ← Clients.get_group env base_url id
    r ← read env (λ fault db. resolve_group fault db user.sub group.id)
    pure (inspected base_url user group r)

  -- `joinGroup`
  unfoldable pub join_linked : Option String → JoinInput → Action JoinOutput
  unfolding user_from_request base_url_for id_of_group join_group host_of web_url
  join_linked who input = do
    sub ← lift (user_from_request who)
    let base_url = base_url_for config input.server_url input.group_id
    id ← lift (id_of_group input.group_id)
    row ← join_group env sub base_url id input.you input.alias
    pure (record {
      alias = row.alias;
      name = row.group_name;
      spliit_group_id = row.spliit_group_id;
      server = host_of base_url;
      url = web_url base_url row.spliit_group_id;
      you_are = row.participant_name;
    })
