-- ===== src/Store/Settings.antt =====
-- The writes of a user's settings keep the groups of everybody.
use spliit_mcp.Prelude.{String, ◌≡◌, refl, Option, ◌==◌, Bool-cases, inl, inr}
use spliit_mcp.Store.Rows.{Time, Db}
use spliit_mcp.Store.Sql.{Engine, exec-keeps}
use spliit_mcp.Store.Users
use spliit_mcp.Store.Users.{set_display_name, update_user_row, owns_group}
use spliit_mcp.Store.Scope.{groups_of}

module _ (v : String) where
  pub groups_of-set_default_group :
      (e : Engine) (fault : Option String) (now : Time) (sub id : String) (db : Db)
      → groups_of v (Users.set_default_group e fault now sub id db).1 ≡ groups_of v db
  unfolding Users.set_default_group update_user_row
  groups_of-set_default_group e fault now sub id db = elim (Bool-cases (id == "")) [
    | inl cleared ↦
        rw cleared (exec-keeps e (λ db'. groups_of v db' ≡ groups_of v db) fault db _ refl refl)
    | inr named ↦ rw named (elim (Bool-cases (owns_group sub id db.groups)) [
      | inl owned ↦
          rw owned (exec-keeps e (λ db'. groups_of v db' ≡ groups_of v db) fault db _ refl refl)
      | inr foreign ↦
          rw foreign (exec-keeps e (λ db'. groups_of v db' ≡ groups_of v db) fault db _ refl refl)
    ])
  ]

  pub groups_of-set_display_name :
      (e : Engine) (fault : Option String) (now : Time) (sub name : String) (db : Db)
      → groups_of v (set_display_name e fault now sub name db).1 ≡ groups_of v db
  unfolding set_display_name update_user_row
  groups_of-set_display_name e fault now sub name db =
      exec-keeps e (λ db'. groups_of v db' ≡ groups_of v db) fault db _ refl refl
