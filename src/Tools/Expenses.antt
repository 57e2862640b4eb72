-- ===== src/Tools/Expenses.antt =====
-- `createExpense`, `updateExpense` and `deleteExpense` of internal/mcp/tools.go.
pub mod Guarded
pub mod Boundary
pub mod Recorded
use spliit_mcp.Prelude.{String, Option, none, some, Bool, true, false, List, [], ◌∷◌, if◌then◌else◌}
use spliit_mcp.Store.Rows
use spliit_mcp.Spliit.Model.{Expense, ExpenseForm, Group}
use spliit_mcp.Tools.Outcome.{Outcome, Failure, done, fail, duplicates}
use spliit_mcp.Tools.World.{Env, World, Action, ◌>>=◌, ◌>>◌, pure, raise, lift, now}
use spliit_mcp.Tools.Clients
use spliit_mcp.Tools.Resolve.{user_from_request, resolve}
use spliit_mcp.Tools.Duplicates.{likely_duplicates}
use spliit_mcp.Tools.ExpenseForm.{
  WriteInput, UpdateInput, Names, updated_input, participant_or_nil, build_expense_form,
}

-- createExpenseOutput
pub record ExpenseOutput : Type 0 where
  pub expense_id : String
  pub group : String
  pub title : String
  pub amount : String
  pub paid_by : String
  pub paid_for : List String

-- A failed check is noted, and no reason to stop.
abbrev pub noted : Outcome (List Expense) × World → Outcome (Option Failure) × World
noted (fail x, w) = (done (some x), w)
noted (done [], w) = (done none, w)
noted (done (e ∷ es), w) = (fail (duplicates (e ∷ es)), w)

module _ {D : Type 0} (env : Env D) where
  abbrev pub output : String → Rows.Group → ExpenseForm → Names → ExpenseOutput
  output id row form names = record {
    expense_id = id;
    group = row.alias;
    title = form.title;
    amount = env.dec.fixed2 form.amount;
    paid_by = names.paid_by;
    paid_for = names.paid_for;
  }

  -- The duplicate check of createExpense; its result is the error that the summary notes, if any.
  unfoldable pub check_duplicates : Bool → Rows.Group → ExpenseForm → Action (Option Failure)
  unfolding likely_duplicates
  check_duplicates true row form w = (done none, w)
  check_duplicates false row form w = noted (likely_duplicates env row form w)

  -- The form, built at the clock's reading.
  unfoldable pub build : WriteInput → Group → Rows.Group → Action (ExpenseForm × Names)
  unfolding now build_expense_form
  build input group row = do
    t ← now env
    lift (build_expense_form env.fold env.dec t input group row)

  -- `createExpense`, once the group is resolved.
  unfoldable pub create_in : WriteInput → Rows.Group → Action (ExpenseOutput × Option Failure)
  unfolding Clients.get_group build check_duplicates Clients.create_expense participant_or_nil
  create_in input row = do
    group ← Clients.get_group env row.base_url row.spliit_group_id
    (form, names) ← build input group row
    note ← check_duplicates input.allow_duplicate row form
    id ←
        Clients.create_expense env row.base_url row.spliit_group_id form
          (participant_or_nil row.participant_id)
    pure (output id row form names, note)

  -- `updateExpense`, once the group is resolved.
  unfoldable pub update_in : UpdateInput → Rows.Group → Action ExpenseOutput
  unfolding Clients.get_group Clients.get_expense updated_input build Clients.update_expense
      participant_or_nil
  update_in input row = do
    group ← Clients.get_group env row.base_url row.spliit_group_id
    current ← Clients.get_expense env row.base_url row.spliit_group_id input.expense_id
    (form, names) ← build (updated_input env.dec input current) group row
    _ ←
        Clients.update_expense env row.base_url row.spliit_group_id input.expense_id form
          (participant_or_nil row.participant_id)
    pure (output input.expense_id row form names)

  -- `deleteExpense`, once the group is resolved; the deleted expense is named in the summary.
  unfoldable pub delete_in : String → Rows.Group → Action Expense
  unfolding Clients.get_expense Clients.delete_expense participant_or_nil
  delete_in id row = do
    expense ← Clients.get_expense env row.base_url row.spliit_group_id id
    _ ←
        Clients.delete_expense env row.base_url row.spliit_group_id id
          (participant_or_nil row.participant_id)
    pure expense

  -- The start of the handlers: the caller, then the group.
  abbrev pub in_group : {A : Type 0} → Option String → String → (Rows.Group → Action A) → Action A
  in_group who ref run = do sub ← lift (user_from_request who); row ← resolve env sub ref; run row

  -- `createExpense`
  unfoldable pub create_expense :
      Option String → WriteInput → Action (ExpenseOutput × Option Failure)
  unfolding create_in user_from_request resolve
  create_expense who input = in_group who input.group (create_in input)

  -- `updateExpense`
  unfoldable pub update_expense : Option String → UpdateInput → Action ExpenseOutput
  unfolding update_in user_from_request resolve
  update_expense who input = in_group who input.group (update_in input)

  -- `deleteExpense`
  unfoldable pub delete_expense : Option String → String → String → Action Expense
  unfolding delete_in user_from_request resolve
  delete_expense who ref id = in_group who ref (delete_in id)
