-- ===== src/Tools/Listing.antt =====
-- `listExpenses`, `resolveExpenseFilters`, `sharesIn` and `summarize` of internal/mcp/tools.go.
pub mod Mine
use spliit_mcp.Prelude.{
  ℕ, zero, suc, ℤ, pos, negsuc, String, Bool, true, false, not, ◌&&◌, ◌||◌, Option, none, some,
  List, [], ◌∷◌, ◌++◌, ◌==◌, any, length, ltb, eqb, if◌then◌else◌,
}
use spliit_mcp.Text.{trim_space, is_blank, equal_fold}
use spliit_mcp.Text.Calendar.{format_date}
use spliit_mcp.Text.Decimals.{Decimals}
use spliit_mcp.Store.Rows
use spliit_mcp.Spliit.Model.{PaidFor, Expense, Group}
use spliit_mcp.Tools.Outcome
use spliit_mcp.Tools.Outcome.{Outcome, done, fail}
use spliit_mcp.Tools.World.{Page, Env, Action, ◌>>=◌, pure, lift}
use spliit_mcp.Tools.Clients
use spliit_mcp.Tools.GroupForm.{find_by_name}
use spliit_mcp.Tools.ExpenseForm.{me, name_of_payer, text_of}
use spliit_mcp.Tools.Duplicates.{cursor_arg}
use spliit_mcp.Tools.Expenses.{in_group}

-- listExpensesInput
pub record ListInput : Type 0 where
  pub group : String
  pub limit : ℤ
  pub cursor : ℤ
  pub filter : String
  pub mine : Bool
  pub paid_by : String
  pub involving : String

-- expenseSummary
pub record Summary : Type 0 where
  pub id : String
  pub title : String
  pub date : String
  pub amount : String
  pub paid_by : String
  pub paid_by_me : Bool
  pub category : String

-- listExpensesOutput, less the group's alias and currency
pub record Listing : Type 0 where
  pub expenses : List Summary
  pub has_more : Bool
  pub next_cursor : ℕ

-- The limit: 20 by default, at most 100.
abbrev pub clamp_limit : ℤ → ℕ
clamp_limit (pos zero) = 20
clamp_limit (pos (suc n)) = if ltb 100 (suc n) then 100 else suc n
clamp_limit (negsuc n) = 20

-- A cursor counts only where it is positive.
abbrev pub start_cursor : ℤ → ℕ
start_cursor (pos n) = n
start_cursor (negsuc n) = 0

abbrev pub is_share_of : String → Option PaidFor → Bool
is_share_of id none = false
is_share_of id (some pf) = pf.participant_id == id

-- `sharesIn`
unfoldable pub shares_in : Expense → String → Bool
unfolding any
shares_in e id = any (is_share_of id) e.paid_for

-- The two `continue` conditions of the loop.
unfoldable pub passes : String → String → Expense → Bool
unfolding shares_in
passes payer involved e =
    not (not (payer == "") && not (e.paid_by_id == payer))
    && not (not (involved == "") && not (shares_in e involved))

-- `summarize`
unfoldable pub summarize : {D : Type 0} → Decimals D → Expense → String → Summary
unfolding format_date
summarize dec e me_id = record {
  id = e.id;
  title = e.title;
  date = format_date e.expense_date;
  amount = dec.fixed2 e.amount;
  paid_by = name_of_payer e.paid_by;
  paid_by_me = not (me_id == "") && e.paid_by_id == me_id;
  category = text_of e.category;
}

-- The loop over a page: appends what passes, until the limit is met.
unfoldable pub scan :
    ℕ → (Expense → Bool) → (Expense → Summary) → List Summary → List Expense → List Summary
scan limit test shown out [] = out
scan limit test shown out (e ∷ es) =
    let longer = out ++ shown e ∷ [] in
    let rest = scan limit test shown longer es in
    let skipped = scan limit test shown out es in
    if test e then (if eqb (length longer) limit then longer else rest) else skipped

abbrev pub filter_arg : String → Option String
filter_arg s = if is_blank s then none else some s

-- A filter that names a participant and is not set yet.
abbrev pub is_named : String → String → Bool
is_named name id = not (name == "") && id == ""

module _ {D : Type 0} (env : Env D) where
  -- `strings.EqualFold(strings.TrimSpace(name), "me")`
  unfoldable pub names_me : String → Bool
  unfolding equal_fold trim_space
  names_me name = equal_fold env.fold (trim_space name) "me"

  -- The filters that mean the caller.
  unfoldable pub own_filters : Rows.Group → ListInput → Outcome (String × String)
  unfolding me names_me
  own_filters row input =
      if input.mine || names_me input.paid_by || names_me input.involving
      then Outcome.◌>>=◌ (me row) (λ id. done (
        if input.mine || names_me input.paid_by then id else "",
        if names_me input.involving then id else "",
      ))
      else done ("", "")

  -- The ID of a named participant, where the filter is not set yet.
  unfoldable pub named_filter : Group → String → String → Outcome String
  unfolding find_by_name
  named_filter group name id =
      if is_named name id
      then Outcome.◌>>=◌ (find_by_name env.fold group name) (λ p. done p.id)
      else done id

  -- `resolveExpenseFilters`
  unfoldable pub resolve_expense_filters : Rows.Group → ListInput → Action (String × String)
  unfolding own_filters named_filter Clients.get_group
  resolve_expense_filters row input = do
    (payer, involved) ← lift (own_filters row input)
    if is_named input.paid_by payer || is_named input.involving involved
        then (do
          group ← Clients.get_group env row.base_url row.spliit_group_id
          payer' ← lift (named_filter group input.paid_by payer)
          involved' ← lift (named_filter group input.involving involved)
          pure (payer', involved'))
        else pure (payer, involved)

  -- The loop over the pages, for as many as are left.
  unfoldable pub list_pages :
      Rows.Group → ℕ → Option String → (Expense → Bool) → ℕ → ℕ → Listing → Action Listing
  unfolding Clients.list_expenses scan summarize
  list_pages row limit filter test zero cursor out = pure out
  list_pages row limit filter test (suc pages) cursor out = do
    result ←
        Clients.list_expenses env row.base_url row.spliit_group_id limit (cursor_arg cursor) filter
    let found : Listing = record {
      expenses =
          scan limit test (λ e. summarize env.dec e row.participant_id) out.expenses
            result.expenses;
      has_more = result.has_more;
      next_cursor = result.next_cursor;
    }
    let more = list_pages row limit filter test pages result.next_cursor found
    if eqb (length found.expenses) limit || not result.has_more then pure found else more

  -- `listExpenses`, once the group is resolved: at most ten pages.
  unfoldable pub list_in : ListInput → Rows.Group → Action Listing
  unfolding resolve_expense_filters list_pages passes is_blank
  list_in input row = do
    (payer, involved) ← resolve_expense_filters row input
    list_pages row (clamp_limit input.limit) (filter_arg input.filter) (passes payer involved) 10
        (start_cursor input.cursor) (record { expenses = []; has_more = false; next_cursor = 0 })

  -- `listExpenses`
  unfoldable pub list_expenses : Option String → ListInput → Action Listing
  unfolding list_in
  list_expenses who input = in_group env who input.group (list_in input)
