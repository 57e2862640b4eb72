-- ===== src/Tools/ExpenseForm/Valid.antt =====
-- What every form that is sent to Spliit is sure of.
use mathlib.Core.List.{Memᴰ}
use spliit_mcp.Prelude.{
  ℕ, String, ◌≡◌, ◌≢◌, refl, sym, ap, ◌∙◌, subst, Bool, true, false, List, [], ◌∷◌, Option, none,
  some, ◌==◌, Bool-cases, inl, inr, arith, eq_iff,
}
use spliit_mcp.Text.{trim_space, is_blank}
use spliit_mcp.Text.Decimals.{Decimals}
use spliit_mcp.Store.Rows
use spliit_mcp.Store.Rows.{Time}
use spliit_mcp.Spliit.Model.{Participant, Group, Expense, ExpenseForm}
use spliit_mcp.Spliit.Participants.{
  first_where, find_participant, find_participant_by_name, present, same_name,
}
use spliit_mcp.Tools.Outcome.{done, >>=-eq-done}
use spliit_mcp.Tools.GroupForm.{find_by_name, found_or}
use spliit_mcp.Tools.ExpenseForm.{
  WriteInput, Names, me, pinned, Split, check_shared, evenly_between, pick_payer, find_all,
  pick_split, build_expense_form,
}
use spliit_mcp.Tools.ExpenseForm.Built.{build_expense_form-Built}
use spliit_mcp.Tools.ExpenseForm.Updates.{shared_or_error-eq, pinned-eq, payer-eq}

-- A present participant of the group has the ID.
abbrev pub IsMember : Group → String → Type 0
IsMember group id = (p : Participant) × Memᴰ p (present group.participants) × (p.id ≡ id)

first_where-mem :
    (test : Participant → Bool) (ps : List (Option Participant)) (p : Participant)
    → first_where test ps ≡ some p
    → Memᴰ p (present ps) × (test p ≡ true)
unfolding first_where present
first_where-mem test [] p h = cc
first_where-mem test (none ∷ ps) p h = first_where-mem test ps p h
first_where-mem test (some q ∷ ps) p h = elim (Bool-cases (test q)) [
  | inl hit ↦ let e : q ≡ p = ground arith in (Memᴰ.head (sym e), subst (λ x. test x ≡ true) e hit)
  | inr miss ↦ let (m, k) = first_where-mem test ps p (rw miss at h) in (Memᴰ.tail m, k)
]

found_or-done :
    (name : String) (names : List String) (o : Option Participant) (q : Participant)
    → found_or name names o ≡ done q
    → o ≡ some q
found_or-done name names none q h = cc
found_or-done name names (some p) q h = cc

pinned-some :
    (id : String) (o : Option Participant) (a n : String)
    → pinned id o ≡ done (a, n)
    → (p : Participant) × (o ≡ some p)
pinned-some id none a n h = cc
pinned-some id (some p) a n h = (p, refl)

check_shared-shared : (s t : Split) → check_shared s ≡ done t → t.shares ≢ []
check_shared-shared s t h e =
    let (same, some_share) = shared_or_error-eq s t s.shares h in
    some_share (sym (ap (λ (x : Split). x.shares) same) ∙ e)

is_blank-title : (s : String) → is_blank s ≡ false → trim_space s ≢ ""
unfolding is_blank
is_blank-title s h e = ground (arith, eq_iff (trim_space s) "")

module _ (fold : ℕ → ℕ) where
  find_by_name-mem :
      (group : Group) (name : String) (p : Participant)
      → find_by_name fold group name ≡ done p
      → Memᴰ p (present group.participants) × (same_name fold p.name name ≡ true)
  unfolding find_by_name find_participant_by_name
  find_by_name-mem group name p h =
      first_where-mem (λ x. same_name fold x.name name) group.participants p
        (found_or-done name _ _ p h)

  pick_payer-IsMember :
      (group : Group) (row : Rows.Group) (given a n : String)
      → pick_payer fold group row given ≡ done (a, n)
      → IsMember group a
  unfolding pick_payer find_participant
  pick_payer-IsMember group row given a n h = elim (Bool-cases (is_blank given)) [
    | inl blank ↦
        let (i, mine, rest) = >>=-eq-done (me row) _ (rw blank at h) in
        let (p, found) = pinned-some i (find_participant group i) a n rest in
        let (m, same) = first_where-mem (λ x. x.id == i) group.participants p found in
        (
          p,
          m,
          ground (arith, eq_iff p.id i) ∙ sym (pinned-eq i (find_participant group i) a n rest),
        )
    | inr named ↦
        let (q, found, rest) = >>=-eq-done (find_by_name fold group given) _ (rw named at h) in
        let (m, _) = find_by_name-mem group given q found in (q, m, sym (payer-eq q a n rest))
  ]

  pick_split-shared :
      (group : Group) (old : Option Expense) (names : List String) (s : Split)
      → pick_split fold group old names ≡ done s
      → s.shares ≢ []
  unfolding pick_split
  pick_split-shared group (some e) names s h = check_shared-shared _ s h
  pick_split-shared group none [] s h = check_shared-shared _ s h
  pick_split-shared group none (name ∷ names) s h =
      let (ps, found, rest) = >>=-eq-done (find_all fold group (name ∷ names)) _ h in
      check_shared-shared (evenly_between ps) s rest

  module _ {D : Type 0} (dec : Decimals D) where
    -- A form that `buildExpenseForm` returns has a title, somebody who shares the expense, and a payer
    -- who is in the group.
    pub build_expense_form-valid :
        (now : Time) (input : WriteInput) (group : Group) (row : Rows.Group) (form : ExpenseForm)
        (names : Names)
        → build_expense_form fold dec now input group row ≡ done (form, names)
        → (form.title ≢ "") × (form.paid_for ≢ []) × IsMember group form.paid_by
    build_expense_form-valid now input group row form names h =
        let b = build_expense_form-Built fold dec now input group row form names h in
        (
          λ e. is_blank-title _ b.titled (sym (ap (λ (f : ExpenseForm). f.title) b.is_form) ∙ e),
          λ e.
              pick_split-shared group input.keep_split input.paid_for b.split b.shared
                (sym (ap (λ (f : ExpenseForm). f.paid_for) b.is_form) ∙ e),
          pick_payer-IsMember group row input.paid_by form.paid_by names.paid_by b.payer,
        )
