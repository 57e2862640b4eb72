-- ===== src/Tests/Forms.antt =====
-- Runs of the form builders of internal/mcp/tools.go on a group of three and one expense.
use mathlib.Core.List.{Memᴰ}
use Prim.Native.Char.{code}
use Prim.Native.String.{[], ◌∷◌}
use Prim.Native.String
use mathlib.Core.Bool.{false≢true}
use spliit_mcp.Prelude.{
  ℕ, All, arith, zero, suc, ◌+◌, ◌-◌, ◌*◌, ◌/◌, ◌%◌, ◌^◌, ℤ, pos, negsuc, String, ◌≡◌, ◌≢◌, refl,
  sym, ap, ◌∙◌, Bool, true, false, [], ◌∷◌, Option, none, some, if◌then◌else◌, leb, eqb,
}
use spliit_mcp.Text.{trim_space, is_blank, trim_left, trim_right, is_space, cons_trimmed}
use spliit_mcp.Text.Decimals.{Decimals, PrintsExactly}
use spliit_mcp.Text.Calendar.{day_ns, long_digits, pad2, digit_char}
use spliit_mcp.Store.Rows
use spliit_mcp.Tools.Outcome.{done, fail, has_expenses}
use spliit_mcp.Tools.GroupForm.{Edits, renamed, removed, added, build_group_form}
use spliit_mcp.Tools.GroupForm.Kept.{Merges, build_group_form-Merges}
use spliit_mcp.Tools.ExpenseForm.{WriteInput, Names, updated_input, build_expense_form}
use spliit_mcp.Tools.ExpenseForm.Kept.{Counts, KeepsSplit}
use spliit_mcp.Tools.ExpenseForm.Updates.{
  only_notes, update-KeepsSplit, notes_only-keeps, notes_only-keeps_payer, notes_only-payer_unnamed,
}
use spliit_mcp.Tools.ExpenseForm.Valid.{IsMember, build_expense_form-valid}
use spliit_mcp.Spliit.Model.{
  GroupForm, Participant, Group, PaidFor, Expense, ExpenseForm, other, no_recurrence,
}
use spliit_mcp.Spliit.Participants.{present, same_name}

-- ASCII's upper case letters fold to the lower case ones.
abbrev pub ascii_fold : ℕ → ℕ
ascii_fold n = if leb 65 n then (if leb n 90 then n + 32 else n) else n

-- Decimals as a count of hundredths: enough for the amounts of these runs.
abbrev hundredths : ℕ → ℕ → String → Option ℕ
hundredths whole n [] = some (whole * 100 + n)
hundredths whole n (c ∷ s) = none

abbrev fraction : ℕ → String → Option ℕ
fraction whole (a ∷ (b ∷ [])) = some (whole * 100 + (code a - 48) * 10 + (code b - 48))
fraction whole _ = none

abbrev read_hundredths : ℕ → String → Option ℕ
read_hundredths whole [] = some (whole * 100)
read_hundredths whole (c ∷ s) =
    let digits = read_hundredths (whole * 10 + (code c - 48)) s in
    if eqb (code c) 46 then fraction whole s else digits

abbrev shift_by : ℤ → ℕ → ℕ
shift_by (pos k) n = n * 10 ^ k
shift_by (negsuc k) n = n / 10 ^ suc k

abbrev round_at : ℤ → ℕ → ℕ
round_at (pos zero) n = (n + 50) / 100 * 100
round_at places n = n

abbrev print_cents : ℕ → String
print_cents n = long_digits (n / 100) (n / 100) (String.◌++◌ "." (pad2 (n % 100) ""))

abbrev print_amount : ℤ → String
print_amount (pos n) = print_cents n
print_amount (negsuc n) = String.◌++◌ "-" (print_cents (suc n))

abbrev pub cents : Decimals ℕ
cents = record {
  from_string = read_hundredths 0;
  is_zero = λ n. eqb n 0;
  shift = shift_by;
  round = round_at;
  int_part = λ n. pos (n / 100);
  fixed2 = print_amount;
}

prints_exactly : PrintsExactly cents (pos 1250)
unfolding trim_space trim_left trim_right cons_trimmed is_space long_digits pad2 digit_char
prints_exactly = record {
  printed = 1250;
  whole = 125000;
  unspaced = refl;
  reads_printed = refl;
  moved = refl;
  rounded = refl;
  is_whole = refl;
}

abbrev ann : Participant
ann = record { id = "p1"; name = "Ann" }

abbrev pub bob : Participant
bob = record { id = "p2"; name = "Bob" }

abbrev cy : Participant
cy = record { id = "p3"; name = "Cy" }

abbrev pub friends : Group
friends = record {
  id = "s1";
  name = "Trip";
  information = none;
  currency = "EUR";
  currency_code = none;
  participants = some ann ∷ some bob ∷ none ∷ some cy ∷ [];
}

-- Ann's row.
abbrev pub row_of_ann : Rows.Group
row_of_ann = record {
  id = "g1";
  user_sub = "ann";
  base_url = "https://spliit.app/api/trpc";
  spliit_group_id = "s1";
  alias = "trip";
  participant_id = "p1";
  participant_name = "Ann";
  group_name = "Trip";
  currency = "EUR";
  created_at = 1;
  updated_at = 1;
}

abbrev share : String → ℕ → Option PaidFor
share id n = some (record { participant_id = id; participant = none; shares = n })

-- 12.50 on 2024-02-29, two shares to one.
abbrev pub dinner_paid_by : Option Participant → Expense
dinner_paid_by payer = record {
  id = "e1";
  title = " Dinner";
  expense_date = 739310 * day_ns;
  amount = pos 1250;
  category_id = pos 3;
  category = none;
  paid_by = payer;
  paid_by_id = "p2";
  paid_for = share "p1" 2 ∷ share "p2" 1 ∷ [];
  split_mode = other "BY_SHARES";
  is_reimbursement = false;
  notes = none;
}

abbrev pub form_paid_by : String → ExpenseForm
form_paid_by payer = record {
  expense_date = 739310 * day_ns;
  title = "Dinner";
  category_id = pos 3;
  amount = pos 1250;
  paid_by = payer;
  paid_for =
      record { participant = "p1"; shares = pos 2 }
      ∷ record { participant = "p2"; shares = pos 1 }
      ∷ [];
  split_mode = other "BY_SHARES";
  is_reimbursement = false;
  recurrence_rule = no_recurrence;
  notes = some "late";
}

abbrev names_paid_by : String → Names
names_paid_by payer = record { paid_by = payer; paid_for = "Ann" ∷ "Bob" ∷ [] }

abbrev notes_update : Option Participant → WriteInput
notes_update payer = updated_input cents (only_notes "s1" "e1" "late") (dinner_paid_by payer)

builds_bobs :
    build_expense_form ascii_fold cents 7 (notes_update (some bob)) friends row_of_ann
    ≡ done (form_paid_by "p2", names_paid_by "Bob")
unfolding updated_input build_expense_form
builds_bobs = refl

builds_unnamed :
    build_expense_form ascii_fold cents 7 (notes_update none) friends row_of_ann
    ≡ done (form_paid_by "p1", names_paid_by "Ann")
unfolding updated_input build_expense_form
builds_unnamed = refl

dinner-Counts : All Counts (dinner_paid_by (some bob)).paid_for
dinner-Counts = (omega arith, (omega arith, tt))

update-KeepsSplit_example : KeepsSplit (dinner_paid_by (some bob)) (form_paid_by "p2")
update-KeepsSplit_example =
    update-KeepsSplit ascii_fold cents 7 (only_notes "s1" "e1" "late") (dinner_paid_by (some bob))
      friends row_of_ann (form_paid_by "p2") (names_paid_by "Bob") refl dinner-Counts builds_bobs

notes_only-keeps_example :
    ((form_paid_by "p2").title ≡ trim_space " Dinner")
    × ((form_paid_by "p2").amount ≡ pos 1250)
    × ((form_paid_by "p2").category_id ≡ pos 3)
    × ((form_paid_by "p2").is_reimbursement ≡ false)
    × KeepsSplit (dinner_paid_by (some bob)) (form_paid_by "p2")
notes_only-keeps_example =
    notes_only-keeps ascii_fold cents 7 "e1" "late" (dinner_paid_by (some bob)) friends row_of_ann
      (form_paid_by "p2") (names_paid_by "Bob") prints_exactly dinner-Counts builds_bobs

notes_only-payer_unnamed_example : (form_paid_by "p1").paid_by ≡ row_of_ann.participant_id
notes_only-payer_unnamed_example =
    notes_only-payer_unnamed ascii_fold cents 7 "e1" "late" (dinner_paid_by none) friends row_of_ann
      (form_paid_by "p1") (names_paid_by "Ann") refl builds_unnamed

bob_has_name : is_blank "Bob" ≡ false
unfolding is_blank
bob_has_name = refl

abbrev named_bob : Participant → Bool
named_bob q = same_name ascii_fold q.name "Bob"

ann_is_not_named_bob : named_bob ann ≡ false
unfolding same_name
ann_is_not_named_bob = refl

cy_is_not_named_bob : named_bob cy ≡ false
unfolding same_name
cy_is_not_named_bob = refl

bob_alone : (q : Participant) → Memᴰ q (ann ∷ bob ∷ cy ∷ []) → named_bob q ≡ true → q ≡ bob
bob_alone q (Memᴰ.head e) h =
    absurd (false≢true (sym ann_is_not_named_bob ∙ ap named_bob (sym e) ∙ h))
bob_alone q (Memᴰ.tail (Memᴰ.head e)) h = e
bob_alone q (Memᴰ.tail (Memᴰ.tail (Memᴰ.head e))) h =
    absurd (false≢true (sym cy_is_not_named_bob ∙ ap named_bob (sym e) ∙ h))
bob_alone q (Memᴰ.tail (Memᴰ.tail (Memᴰ.tail m))) h = elim m [ ]

bob_alone_present :
    (q : Participant) → Memᴰ q (present friends.participants) → named_bob q ≡ true → q ≡ bob
unfolding present
bob_alone_present = bob_alone

bob_present : Memᴰ bob (present friends.participants)
unfolding present
bob_present = Memᴰ.tail (Memᴰ.head refl)

notes_only-keeps_payer_example : (form_paid_by "p2").paid_by ≡ "p2"
notes_only-keeps_payer_example =
    notes_only-keeps_payer ascii_fold cents 7 "e1" "late" (dinner_paid_by (some bob)) bob friends
      row_of_ann (form_paid_by "p2") (names_paid_by "Bob") refl bob_has_name bob_present
      bob_alone_present builds_bobs

build_expense_form-valid_example :
    ((form_paid_by "p2").title ≢ "") × ((form_paid_by "p2").paid_for ≢ []) × IsMember friends "p2"
build_expense_form-valid_example =
    build_expense_form-valid ascii_fold cents 7 (notes_update (some bob)) friends row_of_ann
      (form_paid_by "p2") (names_paid_by "Bob") builds_bobs

-- Cy leaves, Dora joins, Bob becomes Rob.
abbrev edits : Edits
edits = record {
  name = "";
  currency = "";
  add = "Dora" ∷ [];
  remove = "cy" ∷ [];
  rename = record { from = "bob"; to = "Rob" } ∷ [];
}

abbrev edited : GroupForm
edited = record {
  name = "Trip";
  information = none;
  currency = "EUR";
  currency_code = none;
  participants =
      record { id = some "p1"; name = "Ann" }
      ∷ record { id = some "p2"; name = "Rob" }
      ∷ record { id = none; name = "Dora" }
      ∷ [];
}

builds_edited :
    build_group_form ascii_fold edits friends ("p1" ∷ "p2" ∷ []) "p1"
    ≡ done (edited, renamed "Bob" "Rob" ∷ removed "Cy" ∷ added "Dora" ∷ [])
unfolding build_group_form
builds_edited = refl

build_group_form-Merges_example : Merges friends ("p1" ∷ "p2" ∷ []) "p1" edited.participants
build_group_form-Merges_example =
    build_group_form-Merges ascii_fold edits friends ("p1" ∷ "p2" ∷ []) "p1" edited
      (renamed "Bob" "Rob" ∷ removed "Cy" ∷ added "Dora" ∷ []) builds_edited

-- Bob has expenses, so he cannot be removed.
keeps_bob :
    build_group_form ascii_fold (record edits { remove = "BOB" ∷ [] }) friends ("p2" ∷ []) "p1"
    ≡ fail (has_expenses "Bob")
unfolding build_group_form
keeps_bob = refl
