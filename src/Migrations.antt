-- ===== src/Migrations.antt =====
-- internal/db/db.go: `DialectFor`, the target that `Open` connects to, `loadMigrations`, `Migrate` and
-- `applyMigration`. A version is the number that the file's name starts with; a name that starts with a
-- sign or a space is out of range.
pub mod Resume
use Prim.Native.Char.{code}
use Prim.Native.String
use Prim.Native.String.{[], ◌∷◌}
use mathlib.Core.List
use text.Mathlib.Text.{starts_with}
use spliit_mcp.Prelude.{
  ℕ, ◌+◌, ◌-◌, ◌*◌, ◌^◌, String, Bool, true, false, not, ◌||◌, ◌&&◌, List, Option, none, some, ltb,
  leb, eqb, any, if◌then◌else◌,
}
use spliit_mcp.Text.{contains}
use spliit_mcp.Text.Escapes.{is_digit}
use spliit_mcp.Text.Url.{cut}
use spliit_mcp.Config.{has_suffix}

pub data Dialect : Type 0 where
  sqlite postgres : Dialect

-- `DialectFor`
unfoldable pub dialect_for : String → Dialect
dialect_for dsn =
    if starts_with dsn "postgres://" || starts_with dsn "postgresql://" then postgres else sqlite

-- The data source name that `Open` hands to the driver.
unfoldable pub target_of : String → String
unfolding dialect_for contains
target_of dsn = elim (dialect_for dsn) [
  | postgres ↦ dsn
  | sqlite ↦
      if contains dsn "_pragma="
      then dsn
      else String.◌++◌ dsn (
          String.◌++◌ (if contains dsn "?" then "&" else "?")
            "_pragma=foreign_keys(1)&_pragma=busy_timeout(5000)")
]

pub record Migration : Type 0 where
  pub version : ℕ
  pub name : String
  pub sql : String

-- An entry of the embedded directory.
pub record File : Type 0 where
  pub name : String
  pub is_dir : Bool
  pub body : String

pub data LoadError : Type 0 where
  no_prefix bad_version : String → LoadError

pub data Read : Type 0 where
  migrations : List Migration → Read
  unreadable : LoadError → Read

-- The digits that a text starts with, after the number so far.
unfoldable pub digits_from : ℕ → String → ℕ
digits_from n [] = n
digits_from n (c ∷ s) =
    let more = digits_from (n * 10 + (code c - b'0')) s in if is_digit (code c) then more else n

-- `fmt.Sscanf(prefix, "%d", &version)`
unfoldable pub scan_version : String → Option ℕ
unfolding digits_from
scan_version [] = none
scan_version (c ∷ s) =
    let n = digits_from 0 (c ∷ s) in if is_digit (code c) && ltb n (2 ^ 63) then some n else none

abbrev pub migration_of :
    File → String × Option String → Option ℕ → Option LoadError × Option Migration
migration_of f (prefix, none) v = (some (no_prefix f.name), none)
migration_of f (prefix, some rest) none = (some (bad_version f.name), none)
migration_of f (prefix, some rest) (some v) =
    (none, some (record { version = v; name = f.name; sql = f.body }))

abbrev pub add_read : Option LoadError × Option Migration → Read → Read
add_read (some x, m) later = unreadable x
add_read (none, none) later = later
add_read (none, some m) (migrations ms) = migrations (List.◌∷◌ m ms)
add_read (none, some m) (unreadable x) = unreadable x

-- The loop over the entries.
unfoldable pub read_files : List File → Read
unfolding has_suffix cut scan_version
read_files List.[] = migrations List.[]
read_files (List.◌∷◌ f fs) =
    let later = read_files fs in
    let (prefix, rest) = cut b'_' f.name in
    if f.is_dir || not (has_suffix f.name ".sql")
    then later
    else add_read (migration_of f (prefix, rest) (scan_version prefix)) later

-- sort.Slice by the version, where the versions differ.
unfoldable pub insert_version : Migration → List Migration → List Migration
insert_version m List.[] = List.◌∷◌ m List.[]
insert_version m (List.◌∷◌ n ns) =
    let rest = insert_version m ns in
    if leb m.version n.version then List.◌∷◌ m (List.◌∷◌ n ns) else List.◌∷◌ n rest

unfoldable pub sort_versions : List Migration → List Migration
unfolding insert_version
sort_versions List.[] = List.[]
sort_versions (List.◌∷◌ m ms) = insert_version m (sort_versions ms)

abbrev pub sorted_read : Read → Read
sorted_read (migrations ms) = migrations (sort_versions ms)
sorted_read (unreadable x) = unreadable x

-- `loadMigrations`, of the entries of the dialect's directory.
unfoldable pub load_migrations : List File → Read
unfolding read_files sort_versions
load_migrations fs = sorted_read (read_files fs)

-- The database: its tables, and the versions in `schema_migrations`.
pub record Schema {ℓ} (T : Type ℓ) : Type ℓ where
  pub tables : T
  pub versions : List ℕ

-- The statements that can fail, with the version for those of a migration.
pub data Statement : Type 0 where
  create_table read_version : Statement
  begin run record_version commit : ℕ → Statement

pub data MigrateError : Type 0 where
  failed : Statement → String → MigrateError
  not_loaded : LoadError → MigrateError

-- What a script does to the tables: new tables, or the engine's error.
pub data Ran {ℓ} (T : Type ℓ) : Type ℓ where
  ran : T → Ran T
  broke : String → Ran T

-- `SELECT COALESCE(MAX(version), 0)`
unfoldable pub newest : List ℕ → ℕ
newest List.[] = 0
newest (List.◌∷◌ v vs) = let rest = newest vs in if leb v rest then rest else v

abbrev pub unless_failed {ℓ} :
    {T : Type ℓ}
    → Option String
    → Statement
    → Schema T
    → Option MigrateError × Schema T
    → Option MigrateError × Schema T
unless_failed none st s next = next
unless_failed (some msg) st s next = (some (failed st msg), s)

module _ {ℓ} {T : Type ℓ} (script : String → T → Ran T) (fault : Statement → Option String) where
  -- What follows a statement, unless the statement fails.
  abbrev pub guarded :
      Statement → Schema T → Option MigrateError × Schema T → Option MigrateError × Schema T
  guarded st s next = unless_failed (fault st) st s next

  abbrev pub recorded : Migration → Schema T → Ran T → Option MigrateError × Schema T
  recorded m s (broke msg) = (some (failed (run m.version) msg), s)
  recorded m s (ran t) =
      if any (eqb m.version) s.versions
      then (some (failed (record_version m.version) "UNIQUE constraint failed"), s)
      else guarded (record_version m.version) s (
          guarded (commit m.version) s
            (none, record { tables = t; versions = List.◌∷◌ m.version s.versions }))

  -- `applyMigration`: a failure rolls the transaction back.
  unfoldable pub apply_migration : Migration → Schema T → Option MigrateError × Schema T
  unfolding any
  apply_migration m s =
      guarded (begin m.version) s (guarded (run m.version) s (recorded m s (script m.sql s.tables)))

  abbrev pub after :
      Option MigrateError × Schema T
      → (Schema T → Option MigrateError × Schema T)
      → Option MigrateError × Schema T
  after (none, s) k = k s
  after (some x, s) k = (some x, s)

  -- The loop of `Migrate`.
  unfoldable pub apply_newer : ℕ → List Migration → Schema T → Option MigrateError × Schema T
  unfolding apply_migration
  apply_newer current List.[] s = (none, s)
  apply_newer current (List.◌∷◌ m ms) s =
      let skipped = apply_newer current ms s in
      let applied = after (apply_migration m s) (apply_newer current ms) in
      if leb m.version current then skipped else applied

  abbrev pub apply_read : ℕ → Read → Schema T → Option MigrateError × Schema T
  apply_read current (migrations ms) s = apply_newer current ms s
  apply_read current (unreadable x) s = (some (not_loaded x), s)

  -- `Migrate`
  unfoldable pub migrate : List File → Schema T → Option MigrateError × Schema T
  unfolding newest load_migrations apply_newer
  migrate fs s =
      guarded create_table s
        (guarded read_version s (apply_read (newest s.versions) (load_migrations fs) s))
