-- ===== src/Tools/ExpenseForm.antt =====
-- `buildExpenseForm`, `applyExpenseDefaults`, `asWriteInput` and `participantOrNil` of
-- internal/mcp/tools.go, and `me` of internal/mcp/server.go.
pub mod Built
pub mod Kept
pub mod Updates
pub mod Valid
use spliit_mcp.Prelude.{
  ℕ, ℤ, pos, int_of_uint, eqb_ℤ, String, Bool, true, false, ◌&&◌, List, [], ◌∷◌, Option, none, some,
  ◌==◌, if◌then◌else◌,
}
use spliit_mcp.Text.{trim_space, is_blank}
use spliit_mcp.Text.Decimals.{Decimals, to_amount}
use spliit_mcp.Text.Calendar.{parse_date, format_date, truncate_day}
use spliit_mcp.Store.Rows
use spliit_mcp.Store.Rows.{Time}
use spliit_mcp.Spliit.Model.{
  Participant, Group, PaidFor, SplitMode, unset, evenly, other, no_recurrence, Expense, FormShare,
  ExpenseForm,
}
use spliit_mcp.Spliit.Participants.{find_participant, present}
use spliit_mcp.Tools.Outcome.{
  Outcome, done, fail, ◌>>=◌, ◌>>◌, no_identity, bad_amount, bad_date, zero_amount, no_title,
  participant_missing, nobody_shares,
}
use spliit_mcp.Tools.GroupForm.{find_by_name}

-- expenseWriteInput
pub record WriteInput : Type 0 where
  pub group : String
  pub title : String
  pub amount : String
  pub date : String
  pub paid_by : String
  pub paid_for : List String
  pub category_id : ℤ
  pub notes : String
  pub is_reimbursement : Bool
  pub allow_duplicate : Bool
  pub keep_split : Option Expense

-- updateExpenseInput
pub record UpdateInput : Type 0 where
  pub group : String
  pub expense_id : String
  pub title : String
  pub amount : String
  pub date : String
  pub paid_by : String
  pub paid_for : List String
  pub category_id : ℤ
  pub notes : String
  pub is_reimbursement : Option Bool

-- resolvedNames
pub record Names : Type 0 where
  pub paid_by : String
  pub paid_for : List String

abbrev pub is_set : Option Bool → Bool
is_set none = false
is_set (some b) = b

-- `asWriteInput`
unfoldable pub as_write_input : UpdateInput → WriteInput
as_write_input u = record {
  group = u.group;
  title = u.title;
  amount = u.amount;
  date = u.date;
  paid_by = u.paid_by;
  paid_for = u.paid_for;
  category_id = u.category_id;
  notes = u.notes;
  is_reimbursement = is_set u.is_reimbursement;
  allow_duplicate = false;
  keep_split = none;
}

abbrev pub or_else : String → String → String
or_else s d = if s == "" then d else s

abbrev pub name_of_payer : Option Participant → String
name_of_payer none = ""
name_of_payer (some p) = p.name

abbrev pub text_of : Option String → String
text_of none = ""
text_of (some s) = s

-- `in.keepSplit = current` where the caller named no sharers.
abbrev pub kept_split : List String → Option Expense → Expense → Option Expense
kept_split [] old current = some current
kept_split (name ∷ names) old current = old

-- `applyExpenseDefaults`
unfoldable pub apply_expense_defaults :
    {D : Type 0} → Decimals D → WriteInput → Expense → Bool → WriteInput
unfolding format_date
apply_expense_defaults dec input current keep_reimbursement = record input {
  title = or_else input.title current.title;
  amount = or_else input.amount (dec.fixed2 current.amount);
  date = or_else input.date (format_date current.expense_date);
  paid_by = or_else input.paid_by (name_of_payer current.paid_by);
  keep_split = kept_split input.paid_for input.keep_split current;
  is_reimbursement =
      if keep_reimbursement then current.is_reimbursement else input.is_reimbursement;
  category_id = if eqb_ℤ input.category_id (pos 0) then current.category_id else input.category_id;
  notes = or_else input.notes (text_of current.notes);
}

abbrev pub is_nil : Option Bool → Bool
is_nil none = true
is_nil (some b) = false

-- The input that update_expense builds its form from.
unfoldable pub updated_input : {D : Type 0} → Decimals D → UpdateInput → Expense → WriteInput
unfolding apply_expense_defaults as_write_input
updated_input dec u current =
    apply_expense_defaults dec (as_write_input u) current (is_nil u.is_reimbursement)

-- `participantOrNil`
unfoldable pub participant_or_nil : String → Option String
participant_or_nil id = if id == "" then none else some id

-- `resolved.me`: the participant that is pinned in the stored row.
unfoldable pub me : Rows.Group → Outcome String
me row = if row.participant_id == "" then fail no_identity else done row.participant_id

-- An amount has to be a decimal, and not zero.
abbrev pub counted : {D : Type 0} → Decimals D → String → Option D → Outcome D
counted dec s none = fail (bad_amount s)
counted dec s (some amount) = if dec.is_zero amount then fail zero_amount else done amount

-- The decimal that `in.Amount` spells.
unfoldable pub parse_amount : {D : Type 0} → Decimals D → String → Outcome D
unfolding trim_space
parse_amount dec s = counted dec s (dec.from_string (trim_space s))

abbrev pub or_bad_date : String → Option ℕ → Outcome Time
or_bad_date s none = fail (bad_date s)
or_bad_date s (some t) = done t

-- The expense's date: today's by default.
unfoldable pub pick_date : Time → String → Outcome Time
unfolding truncate_day parse_date trim_space
pick_date now s =
    if s == "" then done (truncate_day now) else or_bad_date s (parse_date (trim_space s))

abbrev pub pinned : String → Option Participant → Outcome (String × String)
pinned id none = fail participant_missing
pinned id (some p) = done (id, p.name)

abbrev pub share_name : Group → String → String
share_name group id = elim (find_participant group id) [ none ↦ id | some p ↦ p.name ]

-- The existing shares, sent back unchanged; a nil entry is skipped.
unfoldable pub kept_shares : List (Option PaidFor) → List FormShare
unfolding int_of_uint
kept_shares [] = []
kept_shares (none ∷ rest) = kept_shares rest
kept_shares (some pf ∷ rest) =
    record { participant = pf.participant_id; shares = int_of_uint pf.shares } ∷ kept_shares rest

unfoldable pub kept_names : Group → List (Option PaidFor) → List String
unfolding find_participant
kept_names group [] = []
kept_names group (none ∷ rest) = kept_names group rest
kept_names group (some pf ∷ rest) = share_name group pf.participant_id ∷ kept_names group rest

-- One share for each participant, and their names.
unfoldable pub even_shares : List Participant → List FormShare
even_shares [] = []
even_shares (p ∷ ps) = record { participant = p.id; shares = pos 1 } ∷ even_shares ps

unfoldable pub share_names : List Participant → List String
share_names [] = []
share_names (p ∷ ps) = p.name ∷ share_names ps

abbrev pub mode_or_evenly : SplitMode → SplitMode
mode_or_evenly unset = evenly
mode_or_evenly evenly = evenly
mode_or_evenly (other s) = other s

-- The split mode, the shares and the names of the sharers.
pub record Split : Type 0 where
  pub mode : SplitMode
  pub shares : List FormShare
  pub names : List String

abbrev pub evenly_between : List Participant → Split
evenly_between ps = record { mode = evenly; shares = even_shares ps; names = share_names ps }

-- `len(paidFor) == 0` is an error.
abbrev pub shared_or_error : Split → List FormShare → Outcome Split
shared_or_error s [] = fail nobody_shares
shared_or_error s (share ∷ shares) = done s

abbrev pub check_shared : Split → Outcome Split
check_shared s = shared_or_error s s.shares

module _ (fold : ℕ → ℕ) where
  -- Who paid: an explicit name, otherwise the pinned participant.
  unfoldable pub pick_payer : Group → Rows.Group → String → Outcome (String × String)
  unfolding find_by_name me is_blank find_participant
  pick_payer group row paid_by =
      if is_blank paid_by
      then (do id ← me row; pinned id (find_participant group id))
      else (do p ← find_by_name fold group paid_by; done (p.id, p.name))

  unfoldable pub find_all : Group → List String → Outcome (List Participant)
  unfolding find_by_name
  find_all group [] = done []
  find_all group (name ∷ names) = do
    p ← find_by_name fold group name
    ps ← find_all group names
    done (p ∷ ps)

  -- Who shares: the existing split, else the named participants, else everyone.
  unfoldable pub pick_split : Group → Option Expense → List String → Outcome Split
  unfolding kept_shares kept_names even_shares share_names find_all present
  pick_split group (some e) names = check_shared (record {
    mode = mode_or_evenly e.split_mode;
    shares = kept_shares e.paid_for;
    names = kept_names group e.paid_for;
  })
  pick_split group none (name ∷ names) = do
    ps ← find_all group (name ∷ names)
    check_shared (evenly_between ps)
  pick_split group none [] = check_shared (evenly_between (present group.participants))

  module _ {D : Type 0} (dec : Decimals D) where
    -- `buildExpenseForm`, at the clock's reading `now`.
    unfoldable pub build_expense_form :
        Time → WriteInput → Group → Rows.Group → Outcome (ExpenseForm × Names)
    unfolding parse_amount is_blank pick_date pick_payer pick_split to_amount trim_space
    build_expense_form now input group row = do
      amount ← parse_amount dec input.amount
      if is_blank input.title then fail no_title else do
        date ← pick_date now input.date
        (payer, payer_name) ← pick_payer group row input.paid_by
        split ← pick_split group input.keep_split input.paid_for
        done (
          record {
            expense_date = date;
            title = trim_space input.title;
            category_id = input.category_id;
            amount = to_amount dec amount;
            paid_by = payer;
            paid_for = split.shares;
            split_mode = split.mode;
            is_reimbursement = input.is_reimbursement;
            recurrence_rule = no_recurrence;
            notes = if is_blank input.notes then none else some input.notes;
          },
          record { paid_by = payer_name; paid_for = split.names },
        )
