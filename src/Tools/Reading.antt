-- ===== src/Tools/Reading.antt =====
-- The read-only tools of internal/mcp/tools.go: `listGroups`, `getGroup`, `getBalances`, `getExpense`,
-- `getStats`, `listActivities` and `listCategories`. A time of an activity is in UTC, as it is sent.
pub mod Boundary
use Prim.Native.String
use Prim.Native.Nat.{zero}
use spliit_mcp.Prelude.{
  ℕ, ◌+◌, ◌*◌, ◌/◌, ◌%◌, ℤ, pos, negsuc, String, Bool, true, false, not, ◌&&◌, Option, none, some,
  List, [], ◌∷◌, map, ◌==◌, ltb, eqb, if◌then◌else◌,
}
use spliit_mcp.Text.Calendar.{format_date, pad2, day_ns}
use spliit_mcp.Text.Decimals.{Decimals}
use spliit_mcp.Spliit.Links.{host_of, web_url}
use spliit_mcp.Store.Rows
use spliit_mcp.Store.Rows.{Time, User, Result, ok, err, not_found}
use spliit_mcp.Store.Users.{get_user}
use spliit_mcp.Store.Groups.{list_groups}
use spliit_mcp.Spliit.Model
use spliit_mcp.Spliit.Model.{
  Participant, Group, PaidFor, SplitMode, unset, evenly, other, Expense, Balance, Reimbursement,
  Balances, Stats, Activity, Activities, Category,
}
use spliit_mcp.Spliit.Participants.{present}
use spliit_mcp.Config.{Config}
use spliit_mcp.Tools.Outcome.{Outcome, done, fail, stored}
use spliit_mcp.Tools.World
use spliit_mcp.Tools.World.{Env, Action, ◌>>=◌, pure, lift, of_result, read, send}
use spliit_mcp.Tools.Clients
use spliit_mcp.Tools.GroupForm.{has}
use spliit_mcp.Tools.ExpenseForm.{participant_or_nil}
use spliit_mcp.Tools.Resolve.{user_from_request, resolve}
use spliit_mcp.Tools.Expenses.{in_group}
use spliit_mcp.Tools.Listing.{Summary, summarize}
use spliit_mcp.Tools.Groups.{get_group_details}

-- `configURL`
abbrev config_url : Option Config → String
config_url none = ""
config_url (some c) = c.public_url

-- `atConfigPage`
unfoldable pub at_config_page : Option Config → String
at_config_page config =
    if config_url config == ""
    then "the spliit-mcp config page"
    else String.◌++◌ "the config page at " (config_url config)

-- groupSummary
pub record GroupSummary : Type 0 where
  pub alias : String
  pub name : String
  pub currency : String
  pub server : String
  pub server_url : String
  pub url : String
  pub you_are : String
  pub needs_setup : Bool
  pub spliit_group_id : String
  pub setup_hint : String
  pub is_default : Bool

abbrev default_is : String → Option String → Bool
default_is id none = false
default_is id (some d) = d == id

abbrev is_default_of_user : Option User → Rows.Group → Bool
is_default_of_user none g = false
is_default_of_user (some u) g = default_is g.id u.default_group_id

unfoldable pub group_summary : Option Config → Option User → Rows.Group → GroupSummary
unfolding host_of web_url at_config_page
group_summary config user g = record {
  alias = g.alias;
  name = g.group_name;
  currency = g.currency;
  server = host_of g.base_url;
  server_url = g.base_url;
  url = web_url g.base_url g.spliit_group_id;
  you_are = g.participant_name;
  needs_setup = g.participant_id == "";
  spliit_group_id = g.spliit_group_id;
  setup_hint =
      if g.participant_id == ""
      then String.◌++◌ "no participant is set as you; fix it with set_active_participant, or in "
          (at_config_page config)
      else "";
  is_default = is_default_of_user user g;
}

-- participantInfo
pub record ParticipantInfo : Type 0 where
  pub id : String
  pub name : String
  pub is_you : Bool
  pub active : Bool

-- getGroupOutput
pub record GroupDetails : Type 0 where
  pub alias : String
  pub name : String
  pub currency : String
  pub server : String
  pub url : String
  pub you_are : String
  pub participants : List ParticipantInfo
  pub information : String

abbrev text_or_empty : Option String → String
text_or_empty none = ""
text_or_empty (some s) = s

abbrev participant_info : String → List String → Participant → ParticipantInfo
participant_info me active p = record {
  id = p.id;
  name = p.name;
  is_you = p.id == me;
  active = has active p.id;
}

-- balanceEntry
pub record BalanceEntry : Type 0 where
  pub participant : String
  pub is_you : Bool
  pub paid : String
  pub share : String
  pub net : String

-- settlement
pub record Settlement : Type 0 where
  pub from : String
  pub to : String
  pub amount : String

-- getBalancesOutput
pub record BalancesOutput : Type 0 where
  pub group : String
  pub currency : String
  pub your_net : String
  pub your_summary : String
  pub balances : List BalanceEntry
  pub settlements : List Settlement

-- `nameOf`: the last participant with an ID, or the ID.
unfoldable pub name_of_id : List Participant → String → String → String
name_of_id [] id found = found
name_of_id (p ∷ ps) id found = name_of_id ps id (if p.id == id then p.name else found)

-- The sentence on the caller's balance.
unfoldable pub your_sentence : {D : Type 0} → Decimals D → String → ℤ → String
your_sentence dec currency (pos zero) = "You are settled up."
your_sentence dec currency (pos n) =
    String.◌++◌ "You are owed "
      (String.◌++◌ (dec.fixed2 (pos n)) (String.◌++◌ " " (String.◌++◌ currency " overall.")))
your_sentence dec currency (negsuc n) =
    String.◌++◌ "You owe "
      (String.◌++◌ (dec.fixed2 (pos (n + 1))) (String.◌++◌ " " (String.◌++◌ currency " overall.")))

-- expenseShare
pub record ExpenseShare : Type 0 where
  pub participant : String
  pub is_you : Bool
  pub shares : ℕ

-- getExpenseOutput
pub record ExpenseDetails : Type 0 where
  pub summary : Summary
  pub group : String
  pub currency : String
  pub split_mode : SplitMode
  pub paid_for : List ExpenseShare
  pub notes : String
  pub is_reimbursement : Bool

abbrev name_or_id : PaidFor → Option Participant → String
name_or_id pf none = pf.participant_id
name_or_id pf (some p) = p.name

unfoldable pub shares_of : String → List (Option PaidFor) → List ExpenseShare
shares_of me [] = []
shares_of me (none ∷ rest) = shares_of me rest
shares_of me (some pf ∷ rest) =
    record {
      participant = name_or_id pf pf.participant;
      is_you = pf.participant_id == me;
      shares = pf.shares;
    }
    ∷ shares_of me rest

-- getStatsOutput
pub record StatsOutput : Type 0 where
  pub group : String
  pub currency : String
  pub group_total : String
  pub your_total : String
  pub your_share : String

-- activityEntry
pub record ActivityEntry : Type 0 where
  pub activity_type : String
  pub at : String
  pub participant : String
  pub expense_id : String
  pub expense_title : String

-- listActivitiesOutput
pub record ActivitiesOutput : Type 0 where
  pub group : String
  pub activities : List ActivityEntry
  pub has_more : Bool

-- `Format(time.RFC3339)` of an instant in UTC.
unfoldable pub format_rfc3339 : Time → String
unfolding format_date pad2
format_rfc3339 t =
    let s = t % day_ns / 1000000000 in
    let clock : String =
      pad2 (s / 3600)
        (String.◌++◌ ":" (pad2 (s / 60 % 60) (String.◌++◌ ":" (pad2 (s % 60) "Z")))) in
    String.◌++◌ (format_date t) (String.◌++◌ "T" clock)

abbrev activity_entry : Activity → ActivityEntry
activity_entry a = record {
  activity_type = a.activity_type;
  at = format_rfc3339 a.time;
  participant = text_or_empty a.participant_id;
  expense_id = text_or_empty a.expense_id;
  expense_title = text_or_empty a.data_text;
}

-- The limit of list_activities: 20 by default, at most 100.
abbrev pub activity_limit : ℕ → ℕ
activity_limit n = if eqb n 0 then 20 else if ltb 100 n then 100 else n

abbrev pub known_or_nil : Result User → Outcome (Option User)
known_or_nil (ok u) = done (some u)
known_or_nil (err not_found) = done none
known_or_nil (err x) = fail (stored x)

module _ {D : Type 0} (env : Env D) where
  -- `listGroups`
  unfoldable pub list : Option Config → Option String → Action (List GroupSummary)
  unfolding user_from_request read list_groups get_user group_summary
  list config who = do
    sub ← lift (user_from_request who)
    r ← read env (λ fault db. list_groups env.engine fault db sub)
    groups ← lift (of_result r)
    u ← read env (λ fault db. get_user fault db sub)
    user ← lift (known_or_nil u)
    pure (map (group_summary config user) groups)

  unfoldable pub group_details : Rows.Group → Group × List String → GroupDetails
  unfolding host_of web_url has present
  group_details row (group, with_expenses) = record {
    alias = row.alias;
    name = group.name;
    currency = group.currency;
    server = host_of row.base_url;
    url = web_url row.base_url row.spliit_group_id;
    you_are = row.participant_name;
    participants =
        map (participant_info row.participant_id with_expenses) (present group.participants);
    information = text_or_empty group.information;
  }

  unfoldable pub get_in : Rows.Group → Action GroupDetails
  unfolding get_group_details group_details
  get_in row = do d ← get_group_details env row; pure (group_details row d)

  -- `getGroup`
  unfoldable pub get_group : Option String → String → Action GroupDetails
  unfolding get_in user_from_request resolve
  get_group who ref = in_group env who ref get_in

  unfoldable pub balance_entry : Group → Rows.Group → String × Balance → BalanceEntry
  unfolding name_of_id present
  balance_entry group row (id, b) = record {
    participant = name_of_id (present group.participants) id id;
    is_you = id == row.participant_id;
    paid = env.dec.fixed2 b.paid;
    share = env.dec.fixed2 b.paid_for;
    net = env.dec.fixed2 b.total;
  }

  abbrev settlement_of : Group → Reimbursement → Settlement
  settlement_of group r = record {
    from = name_of_id (present group.participants) r.from r.from;
    to = name_of_id (present group.participants) r.to r.to;
    amount = env.dec.fixed2 r.amount;
  }

  -- The caller's net balance, where one of the entries is the caller's.
  unfoldable pub own_net : String → List (String × Balance) → Option ℤ
  own_net me [] = none
  own_net me ((id, b) ∷ rest) =
      let later = own_net me rest in
      elim later [ some n ↦ some n | none ↦ if id == me then some b.total else none ]

  abbrev net_text : Option ℤ → String
  net_text none = ""
  net_text (some n) = env.dec.fixed2 n

  abbrev net_sentence : String → Option ℤ → String
  net_sentence currency none = ""
  net_sentence currency (some n) = your_sentence env.dec currency n

  unfoldable pub balances_output : Rows.Group → Group → Balances → BalancesOutput
  unfolding balance_entry name_of_id own_net your_sentence present
  balances_output row group b = record {
    group = row.alias;
    currency = group.currency;
    your_net = net_text (own_net row.participant_id b.balances);
    your_summary = net_sentence group.currency (own_net row.participant_id b.balances);
    balances = map (balance_entry group row) b.balances;
    settlements = map (settlement_of group) b.reimbursements;
  }

  unfoldable pub balances_in : Rows.Group → Action BalancesOutput
  unfolding Clients.get_group send balances_output
  balances_in row = do
    group ← Clients.get_group env row.base_url row.spliit_group_id
    b ←
        send env env.api.balances
          (Clients.to_group env row.base_url row.spliit_group_id World.list_balances)
    pure (balances_output row group b)

  -- `getBalances`
  unfoldable pub get_balances : Option String → String → Action BalancesOutput
  unfolding balances_in user_from_request resolve
  get_balances who ref = in_group env who ref balances_in

  unfoldable pub expense_details : Rows.Group → Expense → ExpenseDetails
  unfolding summarize shares_of
  expense_details row e = record {
    summary = summarize env.dec e row.participant_id;
    group = row.alias;
    currency = row.currency;
    split_mode = e.split_mode;
    paid_for = shares_of row.participant_id e.paid_for;
    notes = text_or_empty e.notes;
    is_reimbursement = e.is_reimbursement;
  }

  unfoldable pub expense_in : String → Rows.Group → Action ExpenseDetails
  unfolding Clients.get_expense expense_details
  expense_in id row = do
    e ← Clients.get_expense env row.base_url row.spliit_group_id id
    pure (expense_details row e)

  -- `getExpense`
  unfoldable pub get_expense : Option String → String → String → Action ExpenseDetails
  unfolding expense_in user_from_request resolve
  get_expense who ref id = in_group env who ref (expense_in id)

  unfoldable pub stats_output : Rows.Group → Stats → StatsOutput
  stats_output row s = record {
    group = row.alias;
    currency = row.currency;
    group_total = env.dec.fixed2 s.total_group;
    your_total = net_text s.total_participant;
    your_share = text_or_empty s.participant_share;
  }

  unfoldable pub stats_in : Rows.Group → Action StatsOutput
  unfolding send stats_output participant_or_nil
  stats_in row = do
    s ← send env env.api.stats (
        Clients.to_group env row.base_url row.spliit_group_id
          (World.get_stats (participant_or_nil row.participant_id)))
    pure (stats_output row s)

  -- `getStats`
  unfoldable pub get_stats : Option String → String → Action StatsOutput
  unfolding stats_in user_from_request resolve
  get_stats who ref = in_group env who ref stats_in

  unfoldable pub activities_output : Rows.Group → Activities → ActivitiesOutput
  unfolding format_rfc3339
  activities_output row page = record {
    group = row.alias;
    activities = map activity_entry page.activities;
    has_more = page.has_more;
  }

  unfoldable pub activities_in : ℕ → Rows.Group → Action ActivitiesOutput
  unfolding send activities_output
  activities_in limit row = do
    page ← send env env.api.activities (
        Clients.to_group env row.base_url row.spliit_group_id
          (World.list_activities (activity_limit limit)))
    pure (activities_output row page)

  -- `listActivities`
  unfoldable pub list_activities : Option String → String → ℕ → Action ActivitiesOutput
  unfolding activities_in user_from_request resolve
  list_activities who ref limit = in_group env who ref (activities_in limit)

  -- The call names no group.
  unfoldable pub categories_in : Rows.Group → Action (List Category)
  unfolding send
  categories_in row =
      send env env.api.categories (Clients.to_group env row.base_url "" World.list_categories)

  -- `listCategories`
  unfoldable pub list_categories : Option String → String → Action (List Category)
  unfolding categories_in user_from_request resolve
  list_categories who ref = in_group env who ref categories_in
