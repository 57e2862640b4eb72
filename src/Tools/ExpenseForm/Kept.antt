-- ===== src/Tools/ExpenseForm/Kept.antt =====
-- An independent description of a split that is sent back unchanged, for the part of
-- `buildExpenseForm` that keeps the split of an existing expense.
use spliit_mcp.Prelude.{
  ℕ, ◌<◌, ◌^◌, pos, int_of_uint, ◌≡◌, ◌≢◌, refl, List, [], ◌∷◌, Option, none, some, All, arith, ◌⊎◌,
  inl, inr,
}
use spliit_mcp.Spliit.Model.{
  PaidFor, SplitMode, unset, evenly, other, Expense, FormShare, ExpenseForm,
}
use spliit_mcp.Tools.ExpenseForm.{kept_shares, mode_or_evenly}

-- A count of shares that is in the range of Go's int.
abbrev pub Counts : Option PaidFor → Type 0
Counts none = Unit
Counts (some pf) = pf.shares < 2 ^ 63

-- Each share is that of the entry of an expense at its place, less the entries that are nil.
pub data SentBack : List (Option PaidFor) → List FormShare → Type 0 where
  none_left : SentBack [] []
  skipped :
      {pfs : List (Option PaidFor)} {fs : List FormShare}
      → SentBack pfs fs
      → SentBack (none ∷ pfs) fs
  sent :
      {pf : PaidFor} {f : FormShare} {pfs : List (Option PaidFor)} {fs : List FormShare}
      → f.participant ≡ pf.participant_id
      → f.shares ≡ pos pf.shares
      → SentBack pfs fs
      → SentBack (some pf ∷ pfs) (f ∷ fs)

-- The form has the split of the expense: each participant's own number of shares, in the same order,
-- and the same mode, where an expense without a mode is split evenly.
pub record KeepsSplit (current : Expense) (form : ExpenseForm) : Type 0 where
  pub shares_kept : SentBack current.paid_for form.paid_for
  pub mode_kept :
      ((current.split_mode ≡ unset) × (form.split_mode ≡ evenly))
      ⊎ ((current.split_mode ≢ unset) × (form.split_mode ≡ current.split_mode))

int_of_uint-of_lt : (n : ℕ) → n < 2 ^ 63 → int_of_uint n ≡ pos n
unfolding int_of_uint
int_of_uint-of_lt n h = ground arith

pub kept_shares-SentBack :
    (pfs : List (Option PaidFor)) → All Counts pfs → SentBack pfs (kept_shares pfs)
unfolding kept_shares
kept_shares-SentBack [] h = SentBack.none_left
kept_shares-SentBack (none ∷ pfs) h = SentBack.skipped (kept_shares-SentBack pfs h.1)
kept_shares-SentBack (some pf ∷ pfs) h =
    SentBack.sent refl (int_of_uint-of_lt pf.shares h.0) (kept_shares-SentBack pfs h.1)

pub mode_or_evenly-cases :
    (m : SplitMode)
    → ((m ≡ unset) × (mode_or_evenly m ≡ evenly)) ⊎ ((m ≢ unset) × (mode_or_evenly m ≡ m))
mode_or_evenly-cases unset = inl (refl, refl)
mode_or_evenly-cases evenly = inr (λ e. cc, refl)
mode_or_evenly-cases (other s) = inr (λ e. cc, refl)
