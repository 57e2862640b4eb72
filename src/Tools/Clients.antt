-- ===== src/Tools/Clients.antt =====
-- The calls of internal/spliit/client.go that the expense tools make.
use spliit_mcp.Prelude.{ℕ, String, Option, none, some}
use spliit_mcp.Spliit.Model.{Group, Expense, ExpenseForm}
use spliit_mcp.Tools.Outcome.{Outcome, done, fail, group_not_found}
use spliit_mcp.Tools.World
use spliit_mcp.Tools.World.{Page, Env, Action, ◌>>=◌, lift, send}

-- `out.Group == nil` is an error.
abbrev pub there : String → Option Group → Outcome Group
there id none = fail (group_not_found id)
there id (some g) = done g

module _ {D : Type 0} (env : Env D) (base_url group_id : String) where
  abbrev pub to_group : World.Request → World.Call
  to_group r = record { base_url = base_url; group_id = group_id; request = r }

  -- `Clients.GetGroup`
  unfoldable pub get_group : Action Group
  unfolding send
  get_group = do out ← send env env.api.group (to_group World.get_group); lift (there group_id out)

  -- `Clients.ListExpenses`
  unfoldable pub list_expenses : ℕ → Option ℕ → Option String → Action Page
  unfolding send
  list_expenses limit cursor filter =
      send env env.api.page (to_group (World.list_expenses limit cursor filter))

  -- `Clients.GetExpense`
  unfoldable pub get_expense : String → Action Expense
  unfolding send
  get_expense id = send env env.api.expense (to_group (World.get_expense id))

  -- `Clients.CreateExpense`
  unfoldable pub create_expense : ExpenseForm → Option String → Action String
  unfolding send
  create_expense form me =
      send env env.api.new_id (to_group (World.create_expense (env.api.with_defaults form) me))

  -- `Clients.UpdateExpense`
  unfoldable pub update_expense : String → ExpenseForm → Option String → Action (Unit {0})
  unfolding send
  update_expense id form me =
      send env env.api.accepted (to_group (World.update_expense id (env.api.with_defaults form) me))

  -- `Clients.DeleteExpense`
  unfoldable pub delete_expense : String → Option String → Action (Unit {0})
  unfolding send
  delete_expense id me = send env env.api.accepted (to_group (World.delete_expense id me))
