-- ===== src/Store/Steps.antt =====
-- Every call of the store is a step of the tables, and every reachable state of the tables is
-- well-formed: the unique keys, the foreign keys and "a default group is one's own" always hold.
use spliit_mcp.Prelude.{String, Option, refl, ◌==◌, Bool-cases, inl, inr, ℕ}
use spliit_mcp.Store.Rows.{
  Time, User, Group, Db, no_rows, Result, ok, err, not_found, conflict, driver,
}
use spliit_mcp.Store.Sql.{Engine}
use spliit_mcp.Store.Users
use spliit_mcp.Store.Groups
use spliit_mcp.Store.Sessions
use spliit_mcp.Store.Users.{upsert_found, owns_group}
use spliit_mcp.Store.Groups.{overwrite}
use spliit_mcp.Store.Consistent.{IsConsistent}
use spliit_mcp.Store.Consistent.Users.{
  exec-IsConsistent, update_user_row-WritesConsistent, insert_user_row-WritesConsistent,
}
use spliit_mcp.Store.Consistent.Groups.{insert_group_row-WritesConsistent}
use spliit_mcp.Store.Consistent.Writes.{
  update_group_row-WritesConsistent, delete_group_row-WritesConsistent,
}
use spliit_mcp.Store.Consistent.Sessions.{
  insert_session_row-WritesConsistent, delete_session_rows-WritesConsistent,
}

module _ (e : Engine) where
  -- The writes of the store, with whatever arguments, faults, clock and fresh IDs.
  pub data Step (db : Db) : Db → Type 0 where
    upsert_user :
        (f f' : Option String) (now : Time) (sub issuer email name : String)
        → Step db (Users.upsert_user e f f' now sub issuer email name db).1
    set_display_name :
        (f : Option String) (now : Time) (sub name : String)
        → Step db (Users.set_display_name e f now sub name db).1
    set_default_group :
        (f : Option String) (now : Time) (sub id : String)
        → Step db (Users.set_default_group e f now sub id db).1
    create_group :
        (f : Option String) (now : Time) (id : String) (g : Group)
        → Step db (Groups.create_group e f now id g db).1
    update_group :
        (f : Option String) (now : Time) (g : Group) → Step db (Groups.update_group e f now g db).1
    delete_group :
        (f : Option String) (sub id : String) → Step db (Groups.delete_group e f sub id db).1
    create_session :
        (f : Option String) (now : Time) (id sub : String) (ttl : ℕ)
        → Step db (Sessions.create_session e f now id sub ttl db).1
    delete_session :
        (f : Option String) (id : String) → Step db (Sessions.delete_session e f id db).1
    delete_expired_sessions :
        (f : Option String) (now : Time) → Step db (Sessions.delete_expired_sessions e f now db).1

  -- The states that a sequence of writes reaches from the empty tables.
  pub data Reach : Db → Type 0 where
    start : Reach no_rows
    step : {db db' : Db} → Reach db → Step db db' → Reach db'

  upsert_found-IsConsistent :
      (f : Option String) (now : Time) (sub issuer email name : String) (r : Result User) (db : Db)
      → IsConsistent db
      → IsConsistent (upsert_found e f now sub issuer email name r db).1
  unfolding upsert_found
  upsert_found-IsConsistent f now sub issuer email name (ok u) db h =
      exec-IsConsistent e f db _ h
        (update_user_row-WritesConsistent _ sub db (λ u. refl) (λ u _ o. o) h)
  upsert_found-IsConsistent f now sub issuer email name (err not_found) db h =
      exec-IsConsistent e f db _ h (insert_user_row-WritesConsistent _ db refl h)
  upsert_found-IsConsistent f now sub issuer email name (err (conflict op)) db h = h
  upsert_found-IsConsistent f now sub issuer email name (err (driver op msg)) db h = h

  set_default_group-IsConsistent :
      (f : Option String) (now : Time) (sub id : String) (db : Db)
      → IsConsistent db
      → IsConsistent (Users.set_default_group e f now sub id db).1
  unfolding Users.set_default_group
  set_default_group-IsConsistent f now sub id db h = elim (Bool-cases (id == "")) [
    | inl clear ↦ rw clear (
        exec-IsConsistent e f db _ h
          (update_user_row-WritesConsistent _ sub db (λ u. refl) (λ u _ o. tt) h))
    | inr point ↦ rw point (elim (Bool-cases (owns_group sub id db.groups)) [
      | inl owned ↦ rw owned (
          exec-IsConsistent e f db _ h
            (update_user_row-WritesConsistent _ sub db (λ u. refl) (λ u s o. rw s owned) h))
      | inr foreign ↦ rw foreign (exec-IsConsistent e f db _ h h)
    ])
  ]

  -- Every write of the store keeps the tables well-formed.
  pub Step-IsConsistent : {db db' : Db} → Step db db' → IsConsistent db → IsConsistent db'
  unfolding Users.upsert_user Users.set_display_name Groups.create_group Groups.update_group
      Groups.delete_group Sessions.create_session Sessions.delete_session
      Sessions.delete_expired_sessions
  Step-IsConsistent (upsert_user f f' now sub issuer email name) h =
      upsert_found-IsConsistent f' now sub issuer email name _ _ h
  Step-IsConsistent (set_display_name f now sub name) h =
      exec-IsConsistent e f _ _ h
        (update_user_row-WritesConsistent _ sub _ (λ u. refl) (λ u _ o. o) h)
  Step-IsConsistent (set_default_group f now sub id) h =
      set_default_group-IsConsistent f now sub id _ h
  Step-IsConsistent (create_group f now id g) h =
      exec-IsConsistent e f _ _ h (insert_group_row-WritesConsistent _ _ h)
  Step-IsConsistent (update_group f now g) h = exec-IsConsistent e f _ _ h (
      update_group_row-WritesConsistent (overwrite g now) g.user_sub g.id (λ k. refl) (λ k. refl) _
        h)
  Step-IsConsistent (delete_group f sub id) h =
      exec-IsConsistent e f _ _ h (delete_group_row-WritesConsistent sub id _ h)
  Step-IsConsistent (create_session f now id sub ttl) h =
      exec-IsConsistent e f _ _ h (insert_session_row-WritesConsistent _ _ h)
  Step-IsConsistent (delete_session f id) h =
      exec-IsConsistent e f _ _ h (delete_session_rows-WritesConsistent _ _ h)
  Step-IsConsistent (delete_expired_sessions f now) h =
      exec-IsConsistent e f _ _ h (delete_session_rows-WritesConsistent _ _ h)

  -- From the empty tables, after any writes of the store, with whatever arguments and faults, the
  -- tables are well-formed: no two users, groups or sessions clash on a unique key, every group and
  -- session belongs to a user, and a default group is a registered group of the user's own.
  pub Reach-IsConsistent : {db : Db} → Reach db → IsConsistent db
  Reach-IsConsistent start = record {
    users_distinct = tt;
    groups_distinct = tt;
    sessions_distinct = tt;
    groups_owned = tt;
    sessions_owned = tt;
    defaults_own = tt;
  }
  Reach-IsConsistent (step r s) = Step-IsConsistent s (Reach-IsConsistent r)
