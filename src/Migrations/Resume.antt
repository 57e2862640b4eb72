-- ===== src/Migrations/Resume.antt =====
-- A migration that fails can be run again.
use Prim.Native.Nat.{ℕ, ◌≤◌, ◌<◌}
use spliit_mcp.Prelude.{String, ◌≡◌, Option, none, some, List, [], ◌∷◌, ◌⊎◌, All}
use spliit_mcp.Migrations.{
  File, Migration, Schema, Statement, MigrateError, Ran, newest, apply_newer, migrate,
}

module _ {ℓ} {T : Type ℓ} (script : String → T → Ran T) where
  abbrev no_fault : Statement → Option String
  no_fault st = none

  -- One migration either fails and leaves the database as it was, or does what it does without
  -- faults.
  abbrev Atomic :
      Migration
      → Schema T
      → Option MigrateError × Schema T
      → Option MigrateError × Schema T
      → Type ℓ
  Atomic m s r c =
      ((x : MigrateError) × (r ≡ (some x, s)))
      ⊎ ((t : T) × (r ≡ (none, record { tables = t; versions = m.version ∷ s.versions }))
          × (c ≡ (none, record { tables = t; versions = m.version ∷ s.versions })))

  -- Versions that increase strictly.
  abbrev pub Increasing : List Migration → Type 0
  Increasing [] = Unit
  Increasing (m ∷ ms) = All (λ (n : Migration). m.version < n.version) ms × Increasing ms

  -- Every version is either skipped at `current` or newer than those of the database.
  abbrev Split : ℕ → ℕ → List Migration → Type 0
  Split current top = All (λ (m : Migration). (m.version ≤ current) ⊎ (top < m.version))

  -- What a run leaves: nothing older, and a database from which a run without faults goes where it
  -- would have gone at once.
  abbrev Resumes : ℕ → List Migration → Schema T → Schema T → Type ℓ
  Resumes c ms s s' =
      (newest s.versions ≤ newest s'.versions)
      × (apply_newer script no_fault (newest s'.versions) ms s'
          ≡ apply_newer script no_fault c ms s)

  module _ (fault : Statement → Option String) where
    Again : List File → Schema T → Option MigrateError × Schema T → Type ℓ
    Again fs s r = migrate script no_fault fs r.1 ≡ migrate script no_fault fs s
