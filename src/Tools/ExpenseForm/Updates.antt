-- ===== src/Tools/ExpenseForm/Updates.antt =====
-- What a partial update of an expense sends back to Spliit.
use mathlib.Core.List.{Memᴰ}
use spliit_mcp.Prelude.{
  ℕ, All, subst, pos, String, ◌≡◌, ◌≢◌, refl, sym, ap, ◌∙◌, Bool, true, false, List, [], ◌∷◌,
  Option, none, some, ◌==◌, Bool-cases, inl, inr,
}
use spliit_mcp.Text.{trim_space, is_blank}
use spliit_mcp.Text.Laws.{equal_fold_refl}
use spliit_mcp.Text.Decimals.{Decimals, to_amount, PrintsExactly, to_amount-printed}
use spliit_mcp.Store.Rows
use spliit_mcp.Store.Rows.{Time}
use spliit_mcp.Spliit.Model.{Participant, Group, Expense, FormShare, ExpenseForm}
use spliit_mcp.Spliit.Participants.{
  first_where, find_participant, find_participant_by_name, present, same_name,
}
use spliit_mcp.Tools.Outcome.{Outcome, done, >>=-eq-done, done-pair}
use spliit_mcp.Tools.GroupForm.{find_by_name, found_or}
use spliit_mcp.Tools.ExpenseForm.{
  UpdateInput, Names, updated_input, me, parse_amount, pinned, kept_shares, mode_or_evenly, Split,
  shared_or_error, pick_payer, pick_split, build_expense_form,
}
use spliit_mcp.Tools.ExpenseForm.Kept.{
  Counts, SentBack, KeepsSplit, kept_shares-SentBack, mode_or_evenly-cases,
}
use spliit_mcp.Tools.ExpenseForm.Built.{build_expense_form-Built}

done-inj {ℓ} : {A : Type ℓ} (a b : A) → done a ≡ done b → a ≡ b
done-inj a b h = cc

pub shared_or_error-eq :
    (s t : Split) (l : List FormShare) → shared_or_error s l ≡ done t → (t ≡ s) × (l ≢ [])
shared_or_error-eq s t [] h = cc
shared_or_error-eq s t (x ∷ l) h = (sym (done-inj s t h), λ e. cc)

pub pinned-eq :
    (id : String) (o : Option Participant) (a n : String) → pinned id o ≡ done (a, n) → a ≡ id
pinned-eq id none a n h = cc
pinned-eq id (some p) a n h = let (e, _) = done-pair id a p.name n h in sym e

pub payer-eq :
    (q : Participant) (a n : String)
    → ◌≡◌ {A = Outcome (String × String)} (done (q.id, q.name)) (done (a, n))
    → a ≡ q.id
payer-eq q a n h = let (e, _) = done-pair q.id a q.name n h in sym e

me-eq : (row : Rows.Group) (i : String) → me row ≡ done i → i ≡ row.participant_id
unfolding me
me-eq row i h = elim (Bool-cases (row.participant_id == "")) [
  | inl empty ↦ cc (rw empty at h)
  | inr pinned_id ↦ sym (done-inj row.participant_id i (rw pinned_id at h))
]

parse_amount-reads :
    {D : Type 0} (dec : Decimals D) (s : String) (d v : D)
    → dec.from_string (trim_space s) ≡ some d
    → parse_amount dec s ≡ done v
    → v ≡ d
unfolding parse_amount trim_space
parse_amount-reads dec s d v reads h = elim (Bool-cases (dec.is_zero d)) [
  | inl null ↦ cc (rw (reads, null) at h)
  | inr counts ↦ sym (done-inj d v (rw (reads, counts) at h))
]

found_or-eq :
    (name : String) (names : List String) (o : Option Participant) (q : Participant)
    {p : Participant}
    → found_or name names o ≡ done q
    → o ≡ some p
    → q ≡ p
found_or-eq name names none q h e = cc
found_or-eq name names (some p') q {p} h e = cc

other_than : (q p : Participant) {ps : List Participant} → Memᴰ p (q ∷ ps) → q ≢ p → Memᴰ p ps
other_than q p (Memᴰ.head e) h = elim (h (sym e)) [ ]
other_than q p (Memᴰ.tail m) h = m

-- A participant that alone passes a test is the first that does.
first_where_unique :
    (test : Participant → Bool) (ps : List (Option Participant)) (p : Participant)
    → Memᴰ p (present ps)
    → test p ≡ true
    → ((q : Participant) → Memᴰ q (present ps) → test q ≡ true → q ≡ p)
    → first_where test ps ≡ some p
unfolding first_where present
first_where_unique test [] p m passes alone = elim m [ ]
first_where_unique test (none ∷ ps) p m passes alone = first_where_unique test ps p m passes alone
first_where_unique test (some q ∷ ps) p m passes alone = elim (Bool-cases (test q)) [
  | inl hit ↦ rw hit (ap some (alone q (Memᴰ.head refl) hit))
  | inr miss ↦ rw miss (
      first_where_unique test ps p (other_than q p m (λ e. cc (rw e at miss, passes))) passes
        (λ r k. alone r (Memᴰ.tail k)))
]

-- An update that names only the notes.
abbrev pub only_notes : String → String → String → UpdateInput
only_notes group id notes = record {
  group = group;
  expense_id = id;
  title = "";
  amount = "";
  date = "";
  paid_by = "";
  paid_for = [];
  category_id = pos 0;
  notes = notes;
  is_reimbursement = none;
}

KeepsSplit-of :
    (current : Expense) (form : ExpenseForm)
    → form.paid_for ≡ kept_shares current.paid_for
    → form.split_mode ≡ mode_or_evenly current.split_mode
    → All Counts current.paid_for
    → KeepsSplit current form
KeepsSplit-of current form shares mode counts = record {
  shares_kept =
      subst (SentBack current.paid_for) (sym shares) (kept_shares-SentBack current.paid_for counts);
  mode_kept = rw mode (mode_or_evenly-cases current.split_mode);
}

module _ (fold : ℕ → ℕ) {D : Type 0} (dec : Decimals D) where
  -- An update that names no sharers sends the existing split back, whatever else it changes: each
  -- entry's participant with its own number of shares, in the same order, less nil entries, and the
  -- same mode, or evenly where the expense has none; where each count of shares is in the range of
  -- Go's int.
  pub update-KeepsSplit :
      (now : Time) (u : UpdateInput) (current : Expense) (group : Group) (row : Rows.Group)
      (form : ExpenseForm) (names : Names)
      → u.paid_for ≡ []
      → All Counts current.paid_for
      → build_expense_form fold dec now (updated_input dec u current) group row ≡ done (form, names)
      → KeepsSplit current form
  unfolding updated_input pick_split
  update-KeepsSplit now u current group row form names unnamed counts h =
      let b = build_expense_form-Built fold dec now _ group row form names h in
      let (same, _) = shared_or_error-eq _ b.split _ (rw unnamed at b.shared) in
      KeepsSplit-of current form
        (ap (λ (f : ExpenseForm). f.paid_for) b.is_form ∙ ap (λ (s : Split). s.shares) same)
        (ap (λ (f : ExpenseForm). f.split_mode) b.is_form ∙ ap (λ (s : Split). s.mode) same) counts

  -- An update that names only the notes leaves the title as it was, less outer white space, the
  -- amount, the category, the reimbursement flag and the split; where the decimal library prints the
  -- amount exactly, and each count of shares is in the range of Go's int.
  pub notes_only-keeps :
      (now : Time) (id notes : String) (current : Expense) (group : Group) (row : Rows.Group)
      (form : ExpenseForm) (names : Names)
      → PrintsExactly dec current.amount
      → All Counts current.paid_for
      → build_expense_form fold dec now
          (updated_input dec (only_notes group.id id notes) current)
          group
          row
        ≡ done (form, names)
      → (form.title ≡ trim_space current.title)
        × (form.amount ≡ current.amount)
        × (form.category_id ≡ current.category_id)
        × (form.is_reimbursement ≡ current.is_reimbursement)
        × KeepsSplit current form
  unfolding updated_input parse_amount
  notes_only-keeps now id notes current group row form names exact counts h =
      let b = build_expense_form-Built fold dec now _ group row form names h in
      let reads = ap dec.from_string exact.unspaced ∙ exact.reads_printed in
      (
        ap (λ (f : ExpenseForm). f.title) b.is_form,
        ap (λ (f : ExpenseForm). f.amount) b.is_form
            ∙ ap (to_amount dec) (
                parse_amount-reads dec (dec.fixed2 current.amount) exact.printed b.value reads
                  b.amount_read)
            ∙ to_amount-printed dec current.amount exact,
        ap (λ (f : ExpenseForm). f.category_id) b.is_form,
        ap (λ (f : ExpenseForm). f.is_reimbursement) b.is_form,
        update-KeepsSplit now (only_notes group.id id notes) current group row form names refl
            counts h,
      )

  -- Where Spliit's reply names nobody as the payer, an update that names only the notes puts the
  -- caller down as the payer.
  pub notes_only-payer_unnamed :
      (now : Time) (id notes : String) (current : Expense) (group : Group) (row : Rows.Group)
      (form : ExpenseForm) (names : Names)
      → current.paid_by ≡ none
      → build_expense_form fold dec now
          (updated_input dec (only_notes group.id id notes) current)
          group
          row
        ≡ done (form, names)
      → form.paid_by ≡ row.participant_id
  unfolding updated_input pick_payer me
  notes_only-payer_unnamed now id notes current group row form names unnamed h =
      let b = build_expense_form-Built fold dec now _ group row form names h in
      let (i, mine, rest) = >>=-eq-done (me row) _ (rw unnamed at b.payer) in
      pinned-eq i (find_participant group i) _ _ rest ∙ me-eq row i mine

  -- Where the payer's name is not blank and is that of no other participant, an update that names
  -- only the notes leaves the payer as it was.
  pub notes_only-keeps_payer :
      (now : Time) (id notes : String) (current : Expense) (p : Participant) (group : Group)
      (row : Rows.Group) (form : ExpenseForm) (names : Names)
      → current.paid_by ≡ some p
      → is_blank p.name ≡ false
      → Memᴰ p (present group.participants)
      → ((q : Participant)
          → Memᴰ q (present group.participants)
          → same_name fold q.name p.name ≡ true
          → q ≡ p)
      → build_expense_form fold dec now
          (updated_input dec (only_notes group.id id notes) current)
          group
          row
        ≡ done (form, names)
      → form.paid_by ≡ p.id
  unfolding updated_input pick_payer find_by_name find_participant_by_name same_name is_blank
  notes_only-keeps_payer now id notes current p group row form names named filled member alone h =
      let b = build_expense_form-Built fold dec now _ group row form names h in
      let paid = rw named at b.payer in
      let (q, found, rest) = >>=-eq-done (find_by_name fold group p.name) _ (rw filled at paid) in
      payer-eq q _ _ rest
      ∙ ap (λ (x : Participant). x.id)
          (found_or-eq _ _ _ q found (
            first_where_unique (λ x. same_name fold x.name p.name) group.participants p member
              (equal_fold_refl fold (trim_space p.name)) alone))
