-- ===== src/Spliit/Model.antt =====
-- The payloads of Spliit's API that the program reads and writes: the fields that the program uses
-- of the API library's `model` and `shape` types. A pointer that may be nil is an `Option`.
use spliit_mcp.Prelude.{ℕ, ℤ, String, Bool, Option, List}
use spliit_mcp.Store.Rows.{Time}

pub record Participant : Type 0 where
  pub id : String
  pub name : String

pub record Group : Type 0 where
  pub id : String
  pub name : String
  pub information : Option String
  pub currency : String
  pub currency_code : Option String
  pub participants : List (Option Participant)

pub record PaidFor : Type 0 where
  pub participant_id : String
  pub participant : Option Participant
  pub shares : ℕ

-- How an expense is split: unset, evenly, or another of Spliit's modes.
pub data SplitMode : Type 0 where
  unset evenly : SplitMode
  other : String → SplitMode

-- When an expense recurs.
pub data RecurrenceRule : Type 0 where
  no_recurrence : RecurrenceRule
  recurs : String → RecurrenceRule

-- An amount is a number of minor units.
pub record Expense : Type 0 where
  pub id : String
  pub title : String
  pub expense_date : Time
  pub amount : ℤ
  pub category_id : ℤ
  pub category : Option String
  pub paid_by : Option Participant
  pub paid_by_id : String
  pub paid_for : List (Option PaidFor)
  pub split_mode : SplitMode
  pub is_reimbursement : Bool
  pub notes : Option String

-- shape.ModifyGroupParticipant: an entry without an ID is created.
pub record GroupFormParticipant : Type 0 where
  pub id : Option String
  pub name : String

-- shape.ModifyGroupForm
pub record GroupForm : Type 0 where
  pub name : String
  pub information : Option String
  pub currency : String
  pub currency_code : Option String
  pub participants : List GroupFormParticipant

-- shape.ModifyExpenseFormPaidFor
pub record FormShare : Type 0 where
  pub participant : String
  pub shares : ℤ

-- shape.ModifyExpenseForm; the recurrence rule that the program sends is always "none".
pub record ExpenseForm : Type 0 where
  pub expense_date : Time
  pub title : String
  pub category_id : ℤ
  pub amount : ℤ
  pub paid_by : String
  pub paid_for : List FormShare
  pub split_mode : SplitMode
  pub is_reimbursement : Bool
  pub recurrence_rule : RecurrenceRule
  pub notes : Option String

-- An entry of shape.ListBalancesResponse.Balances.
pub record Balance : Type 0 where
  pub paid : ℤ
  pub paid_for : ℤ
  pub total : ℤ

pub record Reimbursement : Type 0 where
  pub from : String
  pub to : String
  pub amount : ℤ

-- shape.ListBalancesResponse; the map lists its entries in the order in which a range visits them.
pub record Balances : Type 0 where
  pub balances : List (String × Balance)
  pub reimbursements : List Reimbursement

-- shape.GetStatsResponse; the participant's share is what `StringFixed(2)` makes of it.
pub record Stats : Type 0 where
  pub total_group : ℤ
  pub total_participant : Option ℤ
  pub participant_share : Option String

pub record Activity : Type 0 where
  pub activity_type : String
  pub time : Time
  pub expense_id : Option String
  pub data_text : Option String
  pub participant_id : Option String

-- shape.ListActivitiesResponse
pub record Activities : Type 0 where
  pub activities : List Activity
  pub has_more : Bool

pub record Category : Type 0 where
  pub id : ℤ
  pub name : String
  pub grouping : String
