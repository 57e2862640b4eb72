-- ===== src/Store/Rows.antt =====
-- The rows of internal/store/store.go and the tables of internal/db/migrations, and the errors that
-- the queries return.
use spliit_mcp.Prelude.{ℕ, String, Option, List, []}

-- An instant: a count of nanoseconds in UTC.
abbrev pub Time : Type 0
Time = ℕ

pub record User : Type 0 where
  pub sub : String
  pub issuer : String
  pub email : String
  pub display_name : String
  pub default_group_id : Option String
  pub created_at : Time
  pub updated_at : Time

pub record Group : Type 0 where
  pub id : String
  pub user_sub : String
  pub base_url : String
  pub spliit_group_id : String
  pub alias : String
  pub participant_id : String
  pub participant_name : String
  pub group_name : String
  pub currency : String
  pub created_at : Time
  pub updated_at : Time

pub record Session : Type 0 where
  pub id : String
  pub user_sub : String
  pub expires_at : Time
  pub created_at : Time

-- The tables. The order of a list is the order in which the engine scans.
pub record Db : Type 0 where
  pub users : List User
  pub groups : List Group
  pub sessions : List Session

abbrev pub no_rows : Db
no_rows = record { users = []; groups = []; sessions = [] }

-- `ErrNotFound`, `ErrConflict` behind the name of the operation, and any other error of the driver
-- behind that name.
pub data StoreError : Type 0 where
  not_found : StoreError
  conflict : String → StoreError
  driver : String → String → StoreError

pub data Result {ℓ} (A : Type ℓ) : Type ℓ where
  ok : A → Result A
  err : StoreError → Result A
