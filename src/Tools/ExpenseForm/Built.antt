-- ===== src/Tools/ExpenseForm/Built.antt =====
-- The parts that a successful `buildExpenseForm` went through.
use spliit_mcp.Prelude.{
  ℕ, String, ◌≡◌, sym, ap, ap₂, ◌∙◌, false, none, some, Bool-cases, inl, inr, if◌then◌else◌,
}
use spliit_mcp.Text.{trim_space, is_blank}
use spliit_mcp.Text.Decimals.{Decimals, to_amount}
use spliit_mcp.Store.Rows
use spliit_mcp.Store.Rows.{Time}
use spliit_mcp.Spliit.Model.{Group, ExpenseForm, no_recurrence}
use spliit_mcp.Tools.Outcome.{done, >>=-eq-done, done-pair}
use spliit_mcp.Tools.ExpenseForm.{
  WriteInput, Names, parse_amount, pick_date, Split, pick_payer, pick_split, build_expense_form,
}

module _ (fold : ℕ → ℕ) {D : Type 0} (dec : Decimals D) where
  -- The parts that a form was built from.
  pub record Built (now : Time) (input : WriteInput) (group : Group) (row : Rows.Group)
      (form : ExpenseForm) (names : Names) : Type 0 where
    pub value : D
    pub split : Split
    pub amount_read : parse_amount dec input.amount ≡ done value
    pub titled : is_blank input.title ≡ false
    pub dated : pick_date now input.date ≡ done form.expense_date
    pub payer : pick_payer fold group row input.paid_by ≡ done (form.paid_by, names.paid_by)
    pub shared : pick_split fold group input.keep_split input.paid_for ≡ done split
    pub is_form : form ≡ record {
      expense_date = form.expense_date;
      title = trim_space input.title;
      category_id = input.category_id;
      amount = to_amount dec value;
      paid_by = form.paid_by;
      paid_for = split.shares;
      split_mode = split.mode;
      is_reimbursement = input.is_reimbursement;
      recurrence_rule = no_recurrence;
      notes = if is_blank input.notes then none else some input.notes;
    }

  pub build_expense_form-Built :
      (now : Time) (input : WriteInput) (group : Group) (row : Rows.Group) (form : ExpenseForm)
      (names : Names)
      → build_expense_form fold dec now input group row ≡ done (form, names)
      → Built now input group row form names
  unfolding build_expense_form
  build_expense_form-Built now input group row form names h =
      let (value, amount_read, h1) = >>=-eq-done (parse_amount dec input.amount) _ h in
      elim (Bool-cases (is_blank input.title)) [
        | inl blank ↦ cc (rw blank at h1)
        | inr titled ↦
            let (date, dated, h2) = >>=-eq-done (pick_date now input.date) _ (rw titled at h1) in
            let ((payer, payer_name), paid, h3) =
              >>=-eq-done (pick_payer fold group row input.paid_by) _ h2 in
            let (split, shared, h4) =
              >>=-eq-done (pick_split fold group input.keep_split input.paid_for) _ h3 in
            let (same, same_names) = done-pair _ form _ names h4 in
            record {
              value = value;
              split = split;
              amount_read = amount_read;
              titled = titled;
              dated = dated ∙ ap (λ (f : ExpenseForm). done f.expense_date) same;
              payer =
                  paid
                  ∙ ap₂ (λ (f : ExpenseForm) (n : Names). done (f.paid_by, n.paid_by)) same
                      same_names;
              shared = shared;
              is_form =
                  sym same
                  ∙ ap₂
                      (λ (d : Time) (p : String). record {
                        expense_date = d;
                        title = trim_space input.title;
                        category_id = input.category_id;
                        amount = to_amount dec value;
                        paid_by = p;
                        paid_for = split.shares;
                        split_mode = split.mode;
                        is_reimbursement = input.is_reimbursement;
                        recurrence_rule = no_recurrence;
                        notes = if is_blank input.notes then none else some input.notes;
                      })
                      (ap (λ (f : ExpenseForm). f.expense_date) same)
                      (ap (λ (f : ExpenseForm). f.paid_by) same);
            }
      ]
