-- ===== src/Store/Sql.antt =====
-- The database as the store sees it: what a statement reports, and how the store reads the report
-- (`requireAffected`, `wrapWriteErr` of internal/store/store.go).
use Prim.Native.Nat.{zero}
use spliit_mcp.Prelude.{ℕ, String, Option, none, some, Bool, true, ◌||◌, ◌≡◌, if◌then◌else◌}
use spliit_mcp.Text.{contains}
use spliit_mcp.Store.Rows.{StoreError, not_found, conflict, driver, Result, ok, err}

-- The constraints of the schema that a write can violate.
pub data Constraint : Type 0 where
  unique foreign : Constraint

-- `wrapWriteErr`'s markers.
unfoldable pub is_marked : String → Bool
unfolding contains
is_marked msg =
    contains msg "UNIQUE constraint failed"
    || contains msg "duplicate key value"
    || contains msg "FOREIGN KEY constraint failed"
    || contains msg "violates foreign key constraint"

-- The database engine: the text of its constraint errors, which carries one of those markers, the
-- order of `ORDER BY` on texts, and whether it reports the number of affected rows.
pub record Engine : Type 0 where
  pub constraint_text : Constraint → String
  pub constraint_text_marked : (c : Constraint) → is_marked (constraint_text c) ≡ true
  pub collate : String → String → Bool
  pub reports_rows : Bool

-- What a statement does to the tables `T` when the engine can run it.
pub data Effect (T : Type 0) : Type 0 where
  violates : Constraint → Effect T
  writes : ℕ → T → Effect T

-- What `ExecContext` returns: the driver's error text, or the affected rows where it counts them.
pub data Report : Type 0 where
  failed : String → Report
  affected : Option ℕ → Report

-- `requireAffected`
unfoldable pub require_affected : Option ℕ → Result (Unit {0})
require_affected none = ok tt
require_affected (some zero) = err not_found
require_affected (some n) = ok tt

-- `wrapWriteErr` on a failed write
unfoldable pub wrap_write_err : String → String → StoreError
unfolding is_marked
wrap_write_err op msg = if is_marked msg then conflict op else driver op msg

module _ (e : Engine) where
  -- Runs a statement. A fault, such as a lost connection, leaves the tables as they were.
  unfoldable pub exec : {T : Type 0} → Option String → T → Effect T → Report × T
  exec (some msg) t effect = (failed msg, t)
  exec none t (violates c) = (failed (e.constraint_text c), t)
  exec none t (writes n t') = (affected (if e.reports_rows then some n else none), t')

-- What a statement writes has a property.
abbrev pub Writes : {T : Type 0} → (T → Type 0) → Effect T → Type 0
Writes P (violates c) = Unit
Writes P (writes n t) = P t

-- A property that the tables have, and that what the statement writes has, holds afterwards,
-- whether or not the statement fails.
pub exec-keeps :
    (e : Engine) {T : Type 0} (P : T → Type 0) (fault : Option String) (t : T) (effect : Effect T)
    → P t
    → Writes P effect
    → P (exec e fault t effect).1
unfolding exec
exec-keeps e P (some msg) t effect h w = h
exec-keeps e P none t (violates c) h w = h
exec-keeps e P none t (writes n t') h w = w

-- A `SELECT` that is given up to the driver's fault.
unfoldable pub query {ℓ} : {A : Type ℓ} → Option String → String → Result A → Result A
query (some msg) op r = err (driver op msg)
query none op r = r

-- `sql.ErrNoRows` becomes `ErrNotFound`.
abbrev pub one_row {ℓ} : {A : Type ℓ} → Option A → Result A
one_row none = err not_found
one_row (some a) = ok a
