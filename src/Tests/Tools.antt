-- ===== src/Tests/Tools.antt =====
-- Runs of the expense tools against an instance that serves one group.
use mathlib.Core.Bool.{false≢true}
use spliit_mcp.Prelude.{
  Bool, true, All, ◌≢◌, ap, ◌==◌, String, ℕ, zero, suc, ◌+◌, ◌*◌, pos, negsuc, ◌≡◌, refl, false,
  List, [], ◌∷◌, ◌++◌, Option, none, some, arith, keep, take,
}
use spliit_mcp.Text.Calendar.{format_date, day_ns, long_digits, pad2}
use spliit_mcp.Spliit.Model.{Balances, Expense, ExpenseForm}
use spliit_mcp.Store.Rows
use spliit_mcp.Tools.Outcome.{Outcome, done, fail, duplicates, already_joined}
use spliit_mcp.Tools.World
use spliit_mcp.Tools.World.{Call, Answer, reply, refused, Page, Api, Env, World, pure}
use spliit_mcp.Tools.Sends.{Sends}
use spliit_mcp.Tools.Duplicates.{matches, likely_duplicates}
use spliit_mcp.Tools.Duplicates.Complete.{NewestFirst, page_of, Serves, likely_duplicates_complete}
use spliit_mcp.Tools.ExpenseForm.{WriteInput}
use spliit_mcp.Tools.Expenses.{ExpenseOutput, create_in}
use spliit_mcp.Tools.Expenses.Recorded.{recording, Passed, create_in-Passed, create_in-no_duplicate}
use spliit_mcp.Tools.Listing.{ListInput, Summary, Listing, list_in}
use spliit_mcp.Tools.Listing.Mine.{list_in-mine}
use spliit_mcp.Tools.Groups.{register_group, leave_group}
use spliit_mcp.Tools.Expenses.Boundary
use spliit_mcp.Tools.Expenses.Boundary.{IsOwn, ForOwn, after, after-Sends}
use spliit_mcp.Store.Scope.{groups_of}
use spliit_mcp.Tools.NewGroups.{JoinInput, CreateInput, join_linked, new_form}
use spliit_mcp.Tools.NewGroups.Own as NewGroups
use spliit_mcp.Tools.NewGroups.Own.{after-groups_of}
use spliit_mcp.Tools.Reading
use spliit_mcp.Tools.Reading.{BalancesOutput, format_rfc3339}
use spliit_mcp.Tools.Reading.Boundary as Reads
use spliit_mcp.Tools.Reading.Boundary.{reads-Sends}
use spliit_mcp.Tests.Store.{sqlite, tables}
use spliit_mcp.Tests.Forms.{
  ascii_fold, cents, friends, row_of_ann, dinner_paid_by, form_paid_by, bob,
}

abbrev earlier : Expense
earlier = record (dinner_paid_by (some bob)) { id = "e0"; expense_date = 739309 * day_ns }

abbrev history : List Expense
history = dinner_paid_by (some bob) ∷ earlier ∷ []

abbrev start_of : Option ℕ → ℕ
start_of none = 0
start_of (some n) = n

abbrev page_answer : List Expense → World.Request → Answer Page
page_answer es (World.list_expenses limit cursor filter) = reply (page_of es (start_of cursor))
page_answer es _ = refused "no page"

abbrev two_balances : Balances
two_balances = record {
  balances =
      ("p1", record { paid = pos 1250; paid_for = pos 625; total = pos 625 })
      ∷ ("p9", record { paid = pos 0; paid_for = pos 625; total = negsuc 624 })
      ∷ [];
  reimbursements = record { from = "p9"; to = "p1"; amount = pos 625 } ∷ [];
}

abbrev instance_of : List Expense → Api
instance_of es = record {
  with_defaults = λ form. form;
  group = λ sent call. reply (some friends);
  details = λ sent call. reply (some (friends, []));
  page = λ sent call. page_answer es call.request;
  expense = λ sent call. reply (dinner_paid_by (some bob));
  new_id = λ sent call. reply "e9";
  balances = λ sent call. reply two_balances;
  stats = λ sent call. refused "no stats";
  activities = λ sent call. reply (record { activities = []; has_more = false });
  categories = λ sent call. reply [];
  accepted = λ sent call. reply tt;
}

abbrev pub env : Env ℕ
env = record {
  fold = ascii_fold;
  dec = cents;
  engine = sqlite;
  fault = λ n. none;
  clock = λ n. 739311 * day_ns;
  uuid = λ n. "fresh";
  api = instance_of history;
}

abbrev pub world : World
world = record { db = tables; sent = []; ticks = 0 }

Serves-history : Serves env row_of_ann history
Serves-history sent zero = refl
Serves-history sent (suc n) = refl

history_sorted : NewestFirst history
history_sorted = ((omega arith, tt), (tt, tt))

likely_duplicates_complete_example :
    (likely_duplicates env row_of_ann (form_paid_by "p2") world).0
    ≡ done (keep (matches (form_paid_by "p2")) (take 500 history))
likely_duplicates_complete_example =
    likely_duplicates_complete env row_of_ann (form_paid_by "p2") history world Serves-history
      history_sorted

after-Sends_example :
    Sends
      (IsOwn (some "ann") tables)
      world
      (after env (some "ann") (Boundary.delete "trip" "e1") world)
after-Sends_example = after-Sends env (some "ann") (Boundary.delete "trip" "e1") world

abbrev lunch : WriteInput
lunch = record {
  group = "trip";
  title = "Lunch";
  amount = "9";
  date = "";
  paid_by = "";
  paid_for = "Cy" ∷ "ann" ∷ [];
  category_id = pos 0;
  notes = "";
  is_reimbursement = false;
  allow_duplicate = false;
  keep_split = none;
}

abbrev lunch_output : ExpenseOutput
lunch_output = record {
  expense_id = "e9";
  group = "trip";
  title = "Lunch";
  amount = "9.00";
  paid_by = "Ann";
  paid_for = "Cy" ∷ "Ann" ∷ [];
}

records_lunch : (create_in env lunch row_of_ann world).0 ≡ done (lunch_output, none)
unfolding create_in long_digits pad2
records_lunch = refl

create_in-no_duplicate_example :
    (form : ExpenseForm) × (before : List Call) × ((create_in env lunch row_of_ann world).1.sent
      ≡ before ++ recording env row_of_ann form ∷ [])
    × (keep (matches form) (take 500 history) ≡ [])
create_in-no_duplicate_example =
    create_in-no_duplicate env row_of_ann lunch history world (lunch_output, none) refl
      Serves-history history_sorted records_lunch

create_in-Passed_example :
    (form : ExpenseForm) × (mid : World) × (before : List Call) × ((create_in env lunch row_of_ann
        world).1.sent
      ≡ before ++ recording env row_of_ann form ∷ [])
    × Passed env row_of_ann form mid false none
create_in-Passed_example =
    create_in-Passed env row_of_ann lunch world (lunch_output, none) records_lunch

-- The same amount two days later is held back.
holds_back :
    (create_in env (record lunch { amount = "12.50" }) row_of_ann world).0
    ≡ fail (duplicates history)
unfolding create_in
holds_back = refl

abbrev asks_mine : ListInput
asks_mine = record {
  group = "trip";
  limit = pos 0;
  cursor = pos 0;
  filter = "";
  mine = true;
  paid_by = "";
  involving = "";
}

abbrev row_of_bob : Rows.Group
row_of_bob = record row_of_ann { participant_id = "p2"; participant_name = "Bob" }

abbrev bobs_listing : Listing
bobs_listing = record {
  expenses =
      record {
        id = "e1";
        title = " Dinner";
        date = "2024-02-29";
        amount = "12.50";
        paid_by = "Bob";
        paid_by_me = true;
        category = "";
      }
      ∷ record {
        id = "e0";
        title = " Dinner";
        date = "2024-02-28";
        amount = "12.50";
        paid_by = "Bob";
        paid_by_me = true;
        category = "";
      }
      ∷ [];
  has_more = false;
  next_cursor = 50;
}

lists_bobs : (list_in env asks_mine row_of_bob world).0 ≡ done bobs_listing
unfolding list_in long_digits pad2 format_date
lists_bobs = refl

list_in-mine_example : All (λ (s : Summary). s.paid_by_me ≡ true) bobs_listing.expenses
list_in-mine_example = list_in-mine env row_of_bob asks_mine world bobs_listing refl lists_bobs

-- Ann paid nothing.
lists_nothing :
    (list_in env asks_mine row_of_ann world).0
    ≡ done (record { expenses = []; has_more = false; next_cursor = 50 })
unfolding list_in
lists_nothing = refl

abbrev alias_of : Outcome Rows.Group → String
alias_of (done g) = g.alias
alias_of (fail x) = ""

-- An alias that is taken gets a suffix.
gets_suffix :
    alias_of (register_group env "ann" "https://other/api/trpc" friends "trip" "Ann" world).0
    ≡ "trip-2"
unfolding register_group long_digits
gets_suffix = refl

leaves_trip : (leave_group env (some "ann") "trip" world).0 ≡ done "trip"
unfolding leave_group
leaves_trip = refl

abbrev is_bob : Option String → Bool
is_bob none = false
is_bob (some s) = s == "bob"

ann_is_not_bob : ◌≢◌ {A = Option String} (some "ann") (some "bob")
ann_is_not_bob e = false≢true (ap is_bob e)

-- Ann leaves the group that Bob has registered too.
after-groups_of_example :
    groups_of "bob" (NewGroups.after env none (some "ann") (NewGroups.leave "trip") world).db
    ≡ groups_of "bob" world.db
after-groups_of_example =
    after-groups_of env none (some "ann") "bob" ann_is_not_bob (NewGroups.leave "trip") world

abbrev join_twice : JoinInput
join_twice = record {
  group_id = "https://spliit.app/groups/s1";
  you = "ann";
  alias = "second";
  server_url = "";
}

refuses_second_join :
    (join_linked env none (some "ann") join_twice world).0 ≡ fail (already_joined "second")
unfolding join_linked
refuses_second_join = refl

abbrev flat_input : CreateInput
flat_input = record {
  name = " Flat ";
  participants = "ANN" ∷ " Bob " ∷ "" ∷ [];
  currency = "";
  alias = "home";
  server_url = "https://other/api/trpc/";
}

forms_flat : new_form env none "ann" flat_input ≡ record {
  name = "Flat";
  information = none;
  currency = "USD";
  currency_code = none;
  participants = record { id = none; name = "ann" } ∷ record { id = none; name = "Bob" } ∷ [];
}
unfolding new_form
forms_flat = refl

abbrev owed : BalancesOutput
owed = record {
  group = "trip";
  currency = "EUR";
  your_net = "6.25";
  your_summary = "You are owed 6.25 EUR overall.";
  balances =
      record { participant = "Ann"; is_you = true; paid = "12.50"; share = "6.25"; net = "6.25" }
      ∷ record { participant = "p9"; is_you = false; paid = "0.00"; share = "6.25"; net = "-6.25" }
      ∷ [];
  settlements = record { from = "p9"; to = "Ann"; amount = "6.25" } ∷ [];
}

tells_balances : (Reading.get_balances env (some "ann") "trip" world).0 ≡ done owed
unfolding Reading.get_balances long_digits pad2
tells_balances = refl

reads-Sends_example :
    Sends
      (ForOwn (Reads.Allowed (Reads.get_balances "trip")) (some "ann") tables)
      world
      (Reads.after env (some "ann") (Reads.get_balances "trip") world)
reads-Sends_example = reads-Sends env (some "ann") (Reads.get_balances "trip") world

tells_time : format_rfc3339 (739310 * day_ns + 45_296_789_000_000) ≡ "2024-02-29T12:34:56Z"
unfolding format_rfc3339
tells_time = refl
