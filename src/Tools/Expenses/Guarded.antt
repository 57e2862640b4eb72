-- ===== src/Tools/Expenses/Guarded.antt =====
-- Once the group is resolved, the expense tools send calls for that group only.
use spliit_mcp.Prelude.{
  ℕ, zero, suc, String, ◌≡◌, refl, Bool, true, false, [], ◌∷◌, any, keep, not, ◌||◌, Bool-cases,
  inl, inr,
}
use spliit_mcp.Store.Rows
use spliit_mcp.Store.Rows.{Db, Result, ok, err, not_found, conflict, driver}
use spliit_mcp.Spliit.Model.{ExpenseForm}
use spliit_mcp.Tools.Outcome.{Outcome, done, fail}
use spliit_mcp.Tools.World.{Call, Env, Page, World}
use spliit_mcp.Tools.Sends.{
  Sends, Guarded, Sends-refl, bind-Guarded, pure-Guarded, lift-Guarded, now-Guarded, send-Guarded,
}
use spliit_mcp.Tools.Clients
use spliit_mcp.Tools.Duplicates.{is_past, matches, pages_from, likely_duplicates}
use spliit_mcp.Tools.ExpenseForm.{WriteInput, UpdateInput, updated_input, build_expense_form}
use spliit_mcp.Tools.Expenses.{noted, check_duplicates, build, create_in, update_in, delete_in}

-- The call is for the group of a row.
abbrev pub IsFor : Rows.Group → Call → Type 0
IsFor row c = (c.base_url ≡ row.base_url) × (c.group_id ≡ row.spliit_group_id)

module _ {D : Type 0} (env : Env D) (row : Rows.Group) where
  abbrev Q : Call → Type 0
  Q = IsFor row

  pub get_group-Guarded : Guarded Q (Clients.get_group env row.base_url row.spliit_group_id)
  unfolding Clients.get_group
  get_group-Guarded =
      bind-Guarded Q _ _ (send-Guarded Q env env.api.group _ (refl, refl)) (λ o. lift-Guarded Q _)

  build-Guarded : (input : WriteInput) (group : _) → Guarded Q (build env input group row)
  unfolding build
  build-Guarded input group =
      bind-Guarded Q _ _ (now-Guarded Q env)
        (λ t. lift-Guarded Q (build_expense_form env.fold env.dec t input group row))

  pages_from-Guarded : (form : ExpenseForm) (n c : ℕ) → Guarded Q (pages_from env row form n c)
  unfolding pages_from Clients.list_expenses
  pages_from-Guarded form zero c = pure-Guarded Q []
  pages_from-Guarded form (suc n) c =
      bind-Guarded Q _ _ (send-Guarded Q env env.api.page _ (refl, refl)) (λ (page : Page).
        elim (Bool-cases (any (is_past form) page.expenses || not page.has_more)) [
          | inl last ↦ rw last (pure-Guarded Q (keep (matches form) page.expenses))
          | inr more ↦ rw more (
              bind-Guarded Q (pages_from env row form n page.next_cursor) _
                (pages_from-Guarded form n page.next_cursor) (λ rest. pure-Guarded Q _))
        ])

  noted-Sends : (w : World) (r : Outcome _ × World) → Sends Q w r.1 → Sends Q w (noted r).1
  noted-Sends w (fail x, v) s = s
  noted-Sends w (done [], v) s = s
  noted-Sends w (done (e ∷ es), v) s = s

  check_duplicates-Guarded :
      (b : Bool) (form : ExpenseForm) → Guarded Q (check_duplicates env b row form)
  unfolding check_duplicates likely_duplicates
  check_duplicates-Guarded true form = record { from = λ w. Sends-refl Q w w refl refl }
  check_duplicates-Guarded false form = record {
    from = λ w. noted-Sends w _ ((pages_from-Guarded form 10 0).from w);
  }

  pub create_in-Guarded : (input : WriteInput) → Guarded Q (create_in env input row)
  unfolding create_in Clients.create_expense
  create_in-Guarded input = bind-Guarded Q _ _ get_group-Guarded (λ group.
      bind-Guarded Q (build env input group row) _ (build-Guarded input group) (λ built.
        bind-Guarded Q _ _ (check_duplicates-Guarded input.allow_duplicate built.0) (λ note.
          bind-Guarded Q _ _ (send-Guarded Q env env.api.new_id _ (refl, refl))
            (λ id. pure-Guarded Q _))))

  pub update_in-Guarded : (input : UpdateInput) → Guarded Q (update_in env input row)
  unfolding update_in Clients.get_expense Clients.update_expense
  update_in-Guarded input = bind-Guarded Q _ _ get_group-Guarded (λ group.
      bind-Guarded Q _ _ (send-Guarded Q env env.api.expense _ (refl, refl)) (λ current.
        bind-Guarded Q (build env (updated_input env.dec input current) group row) _
          (build-Guarded (updated_input env.dec input current) group)
          (λ built.
            bind-Guarded Q _ _ (send-Guarded Q env env.api.accepted _ (refl, refl))
              (λ id. pure-Guarded Q _))))

  pub delete_in-Guarded : (id : String) → Guarded Q (delete_in env id row)
  unfolding delete_in Clients.get_expense Clients.delete_expense
  delete_in-Guarded id =
      bind-Guarded Q _ _ (send-Guarded Q env env.api.expense _ (refl, refl)) (λ current.
        bind-Guarded Q _ _ (send-Guarded Q env env.api.accepted _ (refl, refl))
          (λ u. pure-Guarded Q _))
