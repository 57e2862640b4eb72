-- ===== src/Tools/Duplicates.antt =====
-- `likelyDuplicates` of internal/mcp/tools.go.
pub mod Complete
use spliit_mcp.Prelude.{
  ℕ, zero, suc, ◌+◌, ◌-◌, ◌*◌, ℤ, eqb_ℤ, Bool, true, false, not, ◌&&◌, ◌||◌, Option, none, some,
  List, [], ◌∷◌, ◌++◌, ltb, eqb, if◌then◌else◌, any, keep,
}
use spliit_mcp.Text.Calendar.{day_ns}
use spliit_mcp.Store.Rows
use spliit_mcp.Store.Rows.{Time}
use spliit_mcp.Spliit.Model.{Expense, ExpenseForm}
use spliit_mcp.Tools.World.{Page, Env, Action, ◌>>=◌, pure}
use spliit_mcp.Tools.Clients.{list_expenses}

-- `duplicateWindow`: two days.
abbrev pub duplicate_window : ℕ
duplicate_window = 2 * day_ns

-- `e.ExpenseDate.Before(from)`
abbrev pub is_past : ExpenseForm → Expense → Bool
is_past form e = ltb e.expense_date (form.expense_date - duplicate_window)

-- `!e.ExpenseDate.After(to) && e.Amount == form.Amount`, for an expense that is not past.
abbrev pub matches : ExpenseForm → Expense → Bool
matches form e =
    not (is_past form e)
    && not (ltb (form.expense_date + duplicate_window) e.expense_date)
    && eqb_ℤ e.amount form.amount

-- `if cursor > 0 { cursorArg = &cursor }`
abbrev pub cursor_arg : ℕ → Option ℕ
cursor_arg zero = none
cursor_arg (suc n) = some (suc n)

module _ {D : Type 0} (env : Env D) (row : Rows.Group) (form : ExpenseForm) where
  -- The loop, for as many pages as are left, from a cursor.
  unfoldable pub pages_from : ℕ → ℕ → Action (List Expense)
  unfolding list_expenses any keep
  pages_from zero cursor = pure []
  pages_from (suc pages) cursor = do
    result ← list_expenses env row.base_url row.spliit_group_id 50 (cursor_arg cursor) none
    let found = keep (matches form) result.expenses
    let later = do rest ← pages_from pages result.next_cursor; pure (found ++ rest)
    if any (is_past form) result.expenses || not result.has_more then pure found else later

  -- `likelyDuplicates`: at most ten pages.
  unfoldable pub likely_duplicates : Action (List Expense)
  unfolding pages_from
  likely_duplicates = pages_from 10 0
