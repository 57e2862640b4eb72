-- ===== src/Store/Users.antt =====
-- `GetUser`, `UpsertUser`, `SetDisplayName`, `SetDefaultGroup` and `DefaultGroup` of
-- internal/store/store.go.
use spliit_mcp.Prelude.{
  ℕ, String, Option, none, some, Bool, false, ◌&&◌, List, [], ◌∷◌, ◌==◌, if◌then◌else◌, any,
  find_first, length, keep,
}
use spliit_mcp.Store.Rows.{Time, User, Group, Db, StoreError, not_found, driver, Result, ok, err}
use spliit_mcp.Store.Sql.{
  Engine, Effect, Report, unique, violates, writes, failed, affected, exec, query, one_row,
  require_affected, wrap_write_err,
}

-- `UPDATE users SET … WHERE sub = ?`
unfoldable pub update_users : (User → User) → String → List User → List User
update_users f sub [] = []
update_users f sub (u ∷ us) = (if u.sub == sub then f u else u) ∷ update_users f sub us

-- The number of rows with the primary key `sub`.
unfoldable pub users_matching : String → List User → ℕ
unfolding keep
users_matching sub us = length (keep (λ (u : User). u.sub == sub) us)

unfoldable pub find_user : String → List User → Option User
unfolding find_first
find_user sub us = find_first (λ u. u.sub == sub) us

-- `GetUser`
unfoldable pub get_user : Option String → Db → String → Result User
unfolding query find_user
get_user fault db sub = query fault "get user" (one_row (find_user sub db.users))

-- An `UPDATE` of the row of `sub`, as an effect.
unfoldable pub update_user_row : (User → User) → String → Db → Effect Db
unfolding update_users users_matching
update_user_row f sub db =
    writes (users_matching sub db.users) (record db { users = update_users f sub db.users })

-- `INSERT INTO users`
unfoldable pub insert_user_row : User → Db → Effect Db
unfolding any
insert_user_row u db =
    if any (λ (v : User). v.sub == u.sub) db.users
    then violates unique
    else writes 1 (record db { users = u ∷ db.users })

-- The result of a write whose error is only named after the operation.
abbrev pub written {ℓ} : {A : Type ℓ} → String → A → Report → Result A
written op a (failed msg) = err (driver op msg)
written op a (affected n) = ok a

-- The result of a write that must have met a row.
abbrev pub met_row : (String → String → StoreError) → String → Report → Result (Unit {0})
met_row wrap op (failed msg) = err (wrap op msg)
met_row wrap op (affected n) = require_affected n

-- `EXISTS (SELECT 1 FROM groups WHERE id = ? AND user_sub = ?)`
unfoldable pub owns_group : String → String → List Group → Bool
unfolding any
owns_group sub id groups = any (λ (g : Group). g.id == id && g.user_sub == sub) groups

module _ (e : Engine) where
  -- `UpsertUser` after the lookup of the existing row.
  unfoldable pub upsert_found :
      Option String → Time → String → String → String → String → Result User → Db → Result User × Db
  unfolding exec update_user_row insert_user_row
  upsert_found fault now sub issuer email display_name (ok existing) db =
      let refresh = λ (u : User). record u { issuer = issuer; email = email; updated_at = now } in
      let (report, db') = exec e fault db (update_user_row refresh sub db) in
      (written "update user" (refresh existing) report, db')
  upsert_found fault now sub issuer email display_name (err not_found) db =
      let created : User = record {
        sub = sub;
        issuer = issuer;
        email = email;
        display_name = display_name;
        default_group_id = none;
        created_at = now;
        updated_at = now;
      } in
      let (report, db') = exec e fault db (insert_user_row created db) in
      (written "insert user" created report, db')
  upsert_found fault now sub issuer email display_name (err other) db = (err other, db)

  -- `UpsertUser`: a lookup, then an update or an insert, each with its own fault.
  unfoldable pub upsert_user :
      Option String
      → Option String
      → Time
      → String
      → String
      → String
      → String
      → Db
      → Result User × Db
  unfolding upsert_found get_user
  upsert_user fault fault' now sub issuer email display_name db =
      upsert_found fault' now sub issuer email display_name (get_user fault db sub) db

  -- `SetDisplayName`
  unfoldable pub set_display_name :
      Option String → Time → String → String → Db → Result (Unit {0}) × Db
  unfolding exec update_user_row require_affected
  set_display_name fault now sub name db =
      let (report, db') =
        exec e fault db
          (update_user_row (λ u. record u { display_name = name; updated_at = now }) sub db) in
      (met_row driver "set display name" report, db')

  -- `SetDefaultGroup`; the empty ID clears the default.
  unfoldable pub set_default_group :
      Option String → Time → String → String → Db → Result (Unit {0}) × Db
  unfolding exec update_user_row require_affected wrap_write_err owns_group
  set_default_group fault now sub id db =
      let clear = λ (u : User). record u { default_group_id = none; updated_at = now } in
      let point = λ (u : User). record u { default_group_id = some id; updated_at = now } in
      if id == ""
      then (let (report, db') = exec e fault db (update_user_row clear sub db) in
          (met_row driver "clear default group" report, db'))
      else (let (report, db') =
            exec e fault db
              (if owns_group sub id db.groups then update_user_row point sub db else writes 0 db) in
          (met_row wrap_write_err "set default group" report, db'))

-- The join condition `u.default_group_id = g.id AND u.sub = g.user_sub`.
abbrev pub is_default_of : Group → User → Bool
is_default_of g u =
    elim u.default_group_id [ none ↦ false | some id ↦ id == g.id ] && u.sub == g.user_sub

abbrev pub default_test : String → List User → Group → Bool
default_test sub us g = any (λ (u : User). is_default_of g u && u.sub == sub) us

-- `DefaultGroup`
unfoldable pub default_group : Option String → Db → String → Result Group
unfolding query find_first any
default_group fault db sub =
    query fault "default group" (one_row (find_first (default_test sub db.users) db.groups))
