-- ===== src/Tools/World.antt =====
-- The world of a tool call: the server's tables, the calls sent to Spliit instances so far, and a
-- count of the readings of the environment (driver faults, the clock and fresh IDs). What a Spliit
-- instance answers may depend on every call that it was sent before.
use spliit_mcp.Prelude.{ℕ, suc, String, Option, List, [], ◌∷◌, ◌++◌, Bool}
use spliit_mcp.Store.Rows.{Time, Db, Result, ok, err}
use spliit_mcp.Store.Sql.{Engine}
use spliit_mcp.Text.Decimals.{Decimals}
use spliit_mcp.Spliit.Model.{
  Balances, Stats, Activities, Category, Group, Expense, GroupForm, ExpenseForm,
}
use spliit_mcp.Tools.Outcome.{Outcome, Failure, done, fail, stored, upstream}

-- The requests of internal/spliit/client.go: the instance's base URL, the group's ID there, and the
-- input.
pub data Request : Type 0 where
  get_group get_group_details list_balances list_categories : Request
  create_group : GroupForm → Request
  update_group : GroupForm → Option String → Request
  list_expenses : ℕ → Option ℕ → Option String → Request
  get_expense : String → Request
  create_expense : ExpenseForm → Option String → Request
  update_expense : String → ExpenseForm → Option String → Request
  delete_expense : String → Option String → Request
  get_stats : Option String → Request
  list_activities : ℕ → Request

pub record Call : Type 0 where
  pub base_url : String
  pub group_id : String
  pub request : Request

-- What `send` returns: the decoded output, or the text of the transport's or the call's error.
pub data Answer {ℓ} (A : Type ℓ) : Type ℓ where
  reply : A → Answer A
  refused : String → Answer A

-- shape.ListExpensesResponse
pub record Page : Type 0 where
  pub expenses : List Expense
  pub has_more : Bool
  pub next_cursor : ℕ

-- The Spliit instances: what they answer to a call, given the calls before it; and `ApplyDefaults` of
-- the API library's expense requests.
pub record Api : Type 0 where
  pub with_defaults : ExpenseForm → ExpenseForm
  pub group : List Call → Call → Answer (Option Group)
  pub details : List Call → Call → Answer (Option (Group × List String))
  pub page : List Call → Call → Answer Page
  pub expense : List Call → Call → Answer Expense
  pub new_id : List Call → Call → Answer String
  pub balances : List Call → Call → Answer Balances
  pub stats : List Call → Call → Answer Stats
  pub activities : List Call → Call → Answer Activities
  pub categories : List Call → Call → Answer (List Category)
  pub accepted : List Call → Call → Answer (Unit {0})

-- What surrounds the server: the case table, the decimal library, the database engine and its
-- faults, the clock, the fresh IDs and the Spliit instances.
pub record Env (D : Type 0) : Type 0 where
  pub fold : ℕ → ℕ
  pub dec : Decimals D
  pub engine : Engine
  pub fault : ℕ → Option String
  pub clock : ℕ → Time
  pub uuid : ℕ → String
  pub api : Api

pub record World : Type 0 where
  pub db : Db
  pub sent : List Call
  pub ticks : ℕ

-- A handler's step: its outcome, and the world that it leaves, also where it fails.
abbrev pub Action {ℓ} : Type ℓ → Type ℓ
Action A = World → Outcome A × World

abbrev pub continue {ℓ} : {A B : Type ℓ} → Outcome A × World → (A → Action B) → Outcome B × World
continue (done a, w) f = f a w
continue (fail x, w) f = (fail x, w)

infixl 5 ◌>>=◌ ◌>>◌
abbrev pub ◌>>=◌ {ℓ} : {A B : Type ℓ} → Action A → (A → Action B) → Action B
◌>>=◌ m f w = continue (m w) f

abbrev pub ◌>>◌ : {B : Type 0} → Action (Unit {0}) → Action B → Action B
m >> k = m >>= λ _. k

abbrev pub pure {ℓ} : {A : Type ℓ} → A → Action A
pure a w = (done a, w)

abbrev pub raise {ℓ} : {A : Type ℓ} → Failure → Action A
raise x w = (fail x, w)

-- A step that cannot change the world.
abbrev pub lift {ℓ} : {A : Type ℓ} → Outcome A → Action A
lift r w = (r, w)

abbrev pub of_result {ℓ} : {A : Type ℓ} → Result A → Outcome A
of_result (ok a) = done a
of_result (err x) = fail (stored x)

abbrev pub of_answer {ℓ} : {A : Type ℓ} → Answer A → Outcome A
of_answer (reply a) = done a
of_answer (refused msg) = fail (upstream msg)

abbrev pub ticked : World → World
ticked w = record w { ticks = suc w.ticks }

module _ {D : Type 0} (env : Env D) where
  -- A read of the tables that may meet a driver's fault; the caller reads the store's result.
  unfoldable pub read {ℓ} : {A : Type ℓ} → (Option String → Db → Result A) → Action (Result A)
  read f w = (done (f (env.fault w.ticks) w.db), ticked w)

  -- A write of the tables, at the clock's reading and with a fresh ID.
  unfoldable pub write :
      {A : Type 0} → (Option String → Time → String → Db → Result A × Db) → Action (Result A)
  write f w =
      let (r, db') = f (env.fault w.ticks) (env.clock w.ticks) (env.uuid w.ticks) w.db in
      (done r, record w { db = db'; ticks = suc w.ticks })

  -- A request to a Spliit instance.
  unfoldable pub send : {A : Type 0} → (List Call → Call → Answer A) → Call → Action A
  send f call w = (of_answer (f w.sent call), record w { sent = w.sent ++ call ∷ [] })

  -- A reading of the clock.
  unfoldable pub now : Action Time
  now w = (done (env.clock w.ticks), ticked w)
