-- ===== src/Tools/Reading/Boundary.antt =====
-- Which calls the read-only tools send.
use spliit_mcp.Prelude.{ℕ, zero, suc, String, Bool, false, ◌||◌, [], Option, ◌≡◌, refl}
use spliit_mcp.Spliit.Model.{Expense}
use spliit_mcp.Store.Rows
use spliit_mcp.Tools.World
use spliit_mcp.Tools.World.{Env, World, Action}
use spliit_mcp.Tools.Sends.{
  Sends, Guarded, bind-Guarded, send-Guarded, lift-Guarded, pure-Guarded, if-Guarded,
}
use spliit_mcp.Tools.Clients
use spliit_mcp.Tools.Groups
use spliit_mcp.Tools.Expenses.Guarded.{IsFor, get_group-Guarded}
use spliit_mcp.Tools.Expenses.Boundary.{ForOwn, in_group-Sends}
use spliit_mcp.Tools.Reading
use spliit_mcp.Tools.Reading.{
  get_in, balances_in, expense_in, stats_in, activities_in, categories_in,
}
use spliit_mcp.Tools.Listing
use spliit_mcp.Tools.Listing.{
  ListInput, Listing, own_filters, named_filter, is_named, resolve_expense_filters, clamp_limit,
  filter_arg, passes, start_cursor, list_pages, list_in,
}

-- A call of a tool that reads from one group's instance.
pub data ReadCall : Type 0 where
  get_group get_balances get_stats : String → ReadCall
  get_expense : String → String → ReadCall
  list_activities : String → ℕ → ReadCall
  list_expenses : ListInput → ReadCall
  list_categories : String → ReadCall

-- The call asks the instance of a row for its categories, which belong to no group.
abbrev pub IsForCategories : Rows.Group → World.Call → Type 0
IsForCategories row c =
    (c.base_url ≡ row.base_url) × (c.group_id ≡ "") × (c.request ≡ World.list_categories)

-- What a tool may send for a row: the categories of its instance where it lists those, and otherwise
-- calls for its group.
abbrev pub Allowed : ReadCall → Rows.Group → World.Call → Type 0
Allowed (list_categories ref) row c = IsForCategories row c
Allowed (get_group ref) row c = IsFor row c
Allowed (get_balances ref) row c = IsFor row c
Allowed (get_stats ref) row c = IsFor row c
Allowed (get_expense ref id) row c = IsFor row c
Allowed (list_activities ref limit) row c = IsFor row c
Allowed (list_expenses input) row c = IsFor row c

module _ {D : Type 0} (env : Env D) where
  module _ (row : Rows.Group) where
    abbrev Q : World.Call → Type 0
    Q = IsFor row

    get_in-Guarded : Guarded Q (get_in env row)
    unfolding get_in Groups.get_group_details
    get_in-Guarded =
        bind-Guarded Q _ _
          (bind-Guarded Q _ _ (send-Guarded Q env env.api.details _ (refl, refl))
            (λ o. lift-Guarded Q _))
          (λ d. pure-Guarded Q _)

    balances_in-Guarded : Guarded Q (balances_in env row)
    unfolding balances_in Clients.get_group
    balances_in-Guarded =
        bind-Guarded Q _ _
          (bind-Guarded Q _ _ (send-Guarded Q env env.api.group _ (refl, refl))
            (λ o. lift-Guarded Q _))
          (λ group.
            bind-Guarded Q _ _ (send-Guarded Q env env.api.balances _ (refl, refl))
              (λ b. pure-Guarded Q _))

    expense_in-Guarded : (id : String) → Guarded Q (expense_in env id row)
    unfolding expense_in Clients.get_expense
    expense_in-Guarded id =
        bind-Guarded Q _ _ (send-Guarded Q env env.api.expense _ (refl, refl))
          (λ e. pure-Guarded Q _)

    stats_in-Guarded : Guarded Q (stats_in env row)
    unfolding stats_in
    stats_in-Guarded =
        bind-Guarded Q _ _ (send-Guarded Q env env.api.stats _ (refl, refl)) (λ s. pure-Guarded Q _)

    activities_in-Guarded : (limit : ℕ) → Guarded Q (activities_in env limit row)
    unfolding activities_in
    activities_in-Guarded limit =
        bind-Guarded Q _ _ (send-Guarded Q env env.api.activities _ (refl, refl))
          (λ p. pure-Guarded Q _)

    filters-Guarded : (input : ListInput) → Guarded Q (resolve_expense_filters env row input)
    unfolding resolve_expense_filters
    filters-Guarded input = bind-Guarded Q _ _ (lift-Guarded Q (own_filters env row input)) (λ own.
        if-Guarded Q (is_named input.paid_by own.0 || is_named input.involving own.1) _ _
          (bind-Guarded Q _ _ (get_group-Guarded env row) (λ group.
            bind-Guarded Q _ _ (lift-Guarded Q (named_filter env group input.paid_by own.0))
              (λ payer.
                bind-Guarded Q _ _ (lift-Guarded Q (named_filter env group input.involving own.1))
                  (λ involved. pure-Guarded Q (payer, involved)))))
          (pure-Guarded Q own))

    list_pages-Guarded :
        (limit : ℕ) (filter : Option String) (test : Expense → Bool) (pages cursor : ℕ)
        (out : Listing)
        → Guarded Q (list_pages env row limit filter test pages cursor out)
    unfolding list_pages Clients.list_expenses
    list_pages-Guarded limit filter test zero cursor out = pure-Guarded Q out
    list_pages-Guarded limit filter test (suc pages) cursor out =
        bind-Guarded Q _ _ (send-Guarded Q env env.api.page _ (refl, refl)) (λ (page : World.Page).
          if-Guarded Q _ _ _ (pure-Guarded Q _)
            (list_pages-Guarded limit filter test pages page.next_cursor _))

    list_in-Guarded : (input : ListInput) → Guarded Q (list_in env input row)
    unfolding list_in
    list_in-Guarded input = bind-Guarded Q _ _ (filters-Guarded input) (λ own.
        list_pages-Guarded (clamp_limit input.limit) (filter_arg input.filter) (passes own.0 own.1)
          10 (start_cursor input.cursor)
          (record { expenses = []; has_more = false; next_cursor = 0 }))

    categories_in-Guarded : Guarded (IsForCategories row) (categories_in env row)
    unfolding categories_in
    categories_in-Guarded =
        send-Guarded (IsForCategories row) env env.api.categories _ (refl, refl, refl)

  module _ (who : Option String) where
    -- The world after a call.
    unfoldable pub after : ReadCall → World → World
    unfolding Reading.get_group Reading.get_balances Reading.get_stats Reading.get_expense
        Reading.list_activities Listing.list_expenses Reading.list_categories
    after (get_group ref) w = (Reading.get_group env who ref w).1
    after (get_balances ref) w = (Reading.get_balances env who ref w).1
    after (get_stats ref) w = (Reading.get_stats env who ref w).1
    after (get_expense ref id) w = (Reading.get_expense env who ref id w).1
    after (list_activities ref limit) w = (Reading.list_activities env who ref limit w).1
    after (list_expenses input) w = (Listing.list_expenses env who input w).1
    after (list_categories ref) w = (Reading.list_categories env who ref w).1

    -- Whatever a tool that reads from one group's instance is called with (get_group, get_balances,
    -- get_stats, get_expense, list_activities, list_expenses or list_categories), whoever calls and
    -- wherever it fails: it writes no table, and every call that it sends is for a group that the
    -- caller has registered, at the instance that is registered with it; list_categories sends only
    -- requests for the categories of such an instance.
    pub reads-Sends :
        (call : ReadCall) (w : World) → Sends (ForOwn (Allowed call) who w.db) w (after call w)
    unfolding after Reading.get_group Reading.get_balances Reading.get_stats Reading.get_expense
        Reading.list_activities Listing.list_expenses Reading.list_categories
    reads-Sends (get_group ref) w = in_group-Sends env IsFor who (get_in env) get_in-Guarded w ref
    reads-Sends (get_balances ref) w =
        in_group-Sends env IsFor who (balances_in env) balances_in-Guarded w ref
    reads-Sends (get_stats ref) w =
        in_group-Sends env IsFor who (stats_in env) stats_in-Guarded w ref
    reads-Sends (get_expense ref id) w =
        in_group-Sends env IsFor who (expense_in env id) (λ row. expense_in-Guarded row id) w ref
    reads-Sends (list_activities ref limit) w =
        in_group-Sends env IsFor who (activities_in env limit)
          (λ row. activities_in-Guarded row limit) w ref
    reads-Sends (list_expenses input) w =
        in_group-Sends env IsFor who (list_in env input) (λ row. list_in-Guarded row input) w
          input.group
    reads-Sends (list_categories ref) w =
        in_group-Sends env IsForCategories who (categories_in env) categories_in-Guarded w ref
